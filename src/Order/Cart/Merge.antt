-- ===== src/Order/Cart/Merge.antt =====
-- The canonical cart against what was ordered: quantities per SKU, whatever the order and the
-- splitting of the lines.
use secure_swipe.Prelude.{
  ◌≡◌, refl, sym, ap, ◌∙◌, ◌↔◌, String, true, false, Option, none, some, List, [], ◌∷◌, arith,
  eq_iff, ◌==◌, string_eq, if◌then◌else◌,
}
use secure_swipe.Prelude.Dict
use secure_swipe.Prelude.Dict.{Dict, IsDistinct, get-put, put-IsDistinct}
use secure_swipe.Prelude.Int.{ℤ, ◌+ℤ◌, +ℤ_assoc, zero_add_ℤ}
use secure_swipe.Prelude.Sorting.{IsSorted, sort-IsSorted}
use secure_swipe.Prelude.SortedDict.{get-sort, sort-IsDistinct, sorted_ext}
use secure_swipe.Prelude.TextOrder.{str_leb-total, str_leb_trans, str_leb_antisymm}
use secure_swipe.Order.Cart.{CartLine, plus_old, merge_lines, item_leb, canonical_cart}

abbrev plus : Option ℤ → Option ℤ → Option ℤ
plus none o = o
plus (some a) none = some a
plus (some a) (some b) = some (a +ℤ b)

-- The quantity that the lines order of a SKU in all; `none` if no line names it.
pub ordered : List CartLine → String → Option ℤ
ordered [] k = none
ordered (line ∷ rest) k =
    let more = ordered rest k in if line.sku == k then plus (some line.quantity) more else more

merge_step : (o m : Option ℤ) (q : ℤ) → plus (some (plus_old o q)) m ≡ plus o (plus (some q) m)
merge_step none none q = ground (arith, zero_add_ℤ q)
merge_step none (some b) q = ground (arith, zero_add_ℤ q)
merge_step (some a) none q = refl
merge_step (some a) (some b) q = ground (arith, +ℤ_assoc a q b)

get-merge_lines :
    (m : Dict String ℤ) (items : List CartLine) (k : String)
    → Dict.get (merge_lines m items) k ≡ plus (Dict.get m k) (ordered items k)
unfolding merge_lines ordered
get-merge_lines m [] k = ground arith
get-merge_lines m (line ∷ rest) k =
    let old = Dict.get m line.sku in
    let q = line.quantity in
    ground (
      arith,
      get-merge_lines (Dict.put m line.sku (plus_old old q)) rest k,
      get-put m line.sku k (plus_old old q),
      merge_step old (ordered rest k) q,
      eq_iff line.sku k,
    )

merge_lines-IsDistinct :
    (m : Dict String ℤ) (items : List CartLine) → IsDistinct m → IsDistinct (merge_lines m items)
unfolding merge_lines
merge_lines-IsDistinct m [] h = h
merge_lines-IsDistinct m (line ∷ rest) h =
    let q = plus_old (Dict.get m line.sku) line.quantity in
    merge_lines-IsDistinct (Dict.put m line.sku q) rest (put-IsDistinct m line.sku q h)

item_leb-total : (x y : String × ℤ) → item_leb x y ≡ false → item_leb y x ≡ true
unfolding item_leb
item_leb-total (s, q) (t, r) h = ground (arith, str_leb-total s t, eq_iff s t, eq_iff t s)

item_leb_trans :
    (x y z : String × ℤ) → item_leb x y ≡ true → item_leb y z ≡ true → item_leb x z ≡ true
unfolding item_leb
item_leb_trans (s, q) (t, r) (u, p) h k =
    ground (arith, str_leb_trans s t u, str_leb_antisymm s t, eq_iff s t, eq_iff t u, eq_iff s u)

item_leb_antisymm :
    (s t : String) (q r : ℤ) → item_leb (s, q) (t, r) ≡ true → item_leb (t, r) (s, q) ≡ true → s ≡ t
unfolding item_leb
item_leb_antisymm s t q r h k = ground (arith, str_leb_antisymm s t, eq_iff s t, eq_iff t s)

get_empty : (k : String) → Dict.get {V = ℤ} [] k ≡ none
unfolding Dict.get
get_empty k = refl

-- The canonical cart maps each SKU to the quantity ordered of it in all, and has no other entry.
pub get-canonical_cart :
    (items : List CartLine) (k : String) → Dict.get (canonical_cart items) k ≡ ordered items k
unfolding canonical_cart
get-canonical_cart items k =
    get-sort item_leb (merge_lines [] items) k (merge_lines-IsDistinct [] items tt)
    ∙ get-merge_lines [] items k
    ∙ rw get_empty

pub canonical_cart-IsDistinct : (items : List CartLine) → IsDistinct (canonical_cart items)
unfolding canonical_cart
canonical_cart-IsDistinct items =
    sort-IsDistinct item_leb (merge_lines [] items) (merge_lines-IsDistinct [] items tt)

pub canonical_cart-IsSorted : (items : List CartLine) → IsSorted item_leb (canonical_cart items)
unfolding canonical_cart
canonical_cart-IsSorted items =
    sort-IsSorted item_leb item_leb-total item_leb_trans (merge_lines [] items)

abbrev pub SameOrder : List CartLine → List CartLine → Type 0
SameOrder a b = (k : String) → ordered a k ≡ ordered b k

canonical_cart_ext : (a b : List CartLine) → SameOrder a b → canonical_cart a ≡ canonical_cart b
canonical_cart_ext a b h =
    sorted_ext item_leb item_leb_antisymm (canonical_cart a) (canonical_cart b)
      (canonical_cart-IsSorted a) (canonical_cart-IsSorted b) (canonical_cart-IsDistinct a)
      (canonical_cart-IsDistinct b)
      (λ k. get-canonical_cart a k ∙ h k ∙ sym (get-canonical_cart b k))

-- Two carts have one canonical form exactly when they order the same quantity of every SKU.
pub canonical_cart-eq_iff :
    (a b : List CartLine) → (canonical_cart a ≡ canonical_cart b) ↔ SameOrder a b
canonical_cart-eq_iff a b = (
  λ p k. sym (get-canonical_cart a k) ∙ ap (λ c. Dict.get c k) p ∙ get-canonical_cart b k,
  canonical_cart_ext a b,
)
