-- ===== src/Order/Cart/Parse.antt =====
-- Which payloads `parse_client_lines` accepts, and what the accepted lines are.
use secure_swipe.Prelude.{
  ◌≡◌, refl, sym, subst, ◌∙◌, ◌↔◌, ◌≤◌, not, Bool, true, false, String, Option, some, List, [], ◌∷◌,
  arith, eq_iff, ◌==◌, string_eq, inl, inr, Bool-cases, contains, length, beq_refl, All, ltb,
}
use secure_swipe.Prelude.Dict
use secure_swipe.Prelude.Dict.{Dict}
use secure_swipe.Prelude.Int.{ℤ, pos, ◌≤ℤ◌}
use secure_swipe.Prelude.Result.{ok, fail_if, fail_if-eq-ok, >>=-eq-ok, ok-injective, traverse}
use secure_swipe.Prelude.Value.{Value, integer, text}
use secure_swipe.Prelude.SortedDict.{All-get, All-of_get}
use secure_swipe.Order.Catalog.{max_quantity_per_line, max_lines_per_cart}
use secure_swipe.Order.Cart.{
  CartLine, RawLine, object, not_an_object, lines, any_key, parse_line, parse_sku, parse_quantity,
  check_merged, parse_client_lines, canonical_cart, forbidden_client_fields,
  allowed_client_line_fields,
}
use secure_swipe.Order.Cart.Merge.{ordered, get-canonical_cart, canonical_cart-IsDistinct}

module _ (p : String → Bool) where
  key_of_any_key :
      (d : Dict String Value) (k : String) (v : Value)
      → any_key p d ≡ false
      → Dict.get d k ≡ some v
      → p k ≡ false
  unfolding any_key Dict.get
  key_of_any_key [] k v h g = cc
  key_of_any_key ((j, w) ∷ d) k v h g = ground (arith, key_of_any_key d k v, eq_iff j k)

  any_key_of_keys :
      (d : Dict String Value)
      → ((k : String) (v : Value) → Dict.get d k ≡ some v → p k ≡ false)
      → any_key p d ≡ false
  unfolding any_key Dict.get
  any_key_of_keys [] h = refl
  any_key_of_keys ((j, w) ∷ d) h =
      let here = h j w (rw (beq_refl j)) in
      rw here (
        any_key_of_keys d (λ k v g. elim (Bool-cases (j == k)) [
          | inl q ↦ subst (λ s. p s ≡ false) ((eq_iff j k).0 q) here
          | inr q ↦ h k v (rw q g)
        ]))

-- The line that a mapping of exactly a SKU and a quantity within the bounds stands for.
pub record Reads (raw : RawLine) (line : CartLine) : Type 0 where
  pub mapping : Dict String Value
  pub is_object : raw ≡ object mapping
  pub only :
      (k : String) (v : Value)
      → Dict.get mapping k ≡ some v
      → contains allowed_client_line_fields k ≡ true
  pub sku_is : Dict.get mapping "sku" ≡ some (text line.sku)
  pub nonempty : (line.sku == "") ≡ false
  pub quantity_is : Dict.get mapping "quantity" ≡ some (integer line.quantity)
  pub positive : pos 1 ≤ℤ line.quantity
  pub bounded : line.quantity ≤ℤ pos max_quantity_per_line

parse_sku-eq-ok :
    (o : Option Value) (s : String) → parse_sku o ≡ ok s → (o ≡ some (text s)) × ((s == "") ≡ false)
parse_sku-eq-ok (some (text s)) t h = ground (arith, eq_iff s t)
parse_sku-eq-ok _ s h = cc

parse_quantity-eq-ok :
    (o : Option Value) (q : ℤ)
    → parse_quantity o ≡ ok q
    → (o ≡ some (integer q)) × (pos 1 ≤ℤ q) × (q ≤ℤ pos max_quantity_per_line)
parse_quantity-eq-ok (some (integer q)) r h = ground arith
parse_quantity-eq-ok _ q h = cc

allowed-not-forbidden :
    (k : String)
    → contains allowed_client_line_fields k ≡ true
    → contains forbidden_client_fields k ≡ false
unfolding contains
allowed-not-forbidden k h = elim (Bool-cases ("sku" == k)) [
  | inl q ↦ subst (λ s. contains forbidden_client_fields s ≡ false) ((eq_iff "sku" k).0 q) refl
  | inr n ↦ elim (Bool-cases ("quantity" == k)) [
    | inl q ↦
        subst (λ s. contains forbidden_client_fields s ≡ false) ((eq_iff "quantity" k).0 q) refl
    | inr m ↦ absurd (ground arith)
  ]
]

not-false : (b : Bool) → not b ≡ false → b ≡ true
not-false b h = ground arith

parse_line-Reads : (raw : RawLine) (line : CartLine) → parse_line raw ≡ ok line → Reads raw line
unfolding parse_line
parse_line-Reads not_an_object line h = absurd (cc)
parse_line-Reads (object d) line h =
    let (_, _, h1) = >>=-eq-ok (fail_if (any_key (contains forbidden_client_fields) d) _) _ h in
    let stray = λ (k : String). not (contains allowed_client_line_fields k) in
    let (_, e2, h2) = >>=-eq-ok (fail_if (any_key stray d) _) _ h1 in
    let (s, es, h3) = >>=-eq-ok (parse_sku (Dict.get d "sku")) _ h2 in
    let (q, eq, h4) = >>=-eq-ok (parse_quantity (Dict.get d "quantity")) _ h3 in
    let (has_sku, named) = parse_sku-eq-ok (Dict.get d "sku") s es in
    let (has_quantity, low, high) = parse_quantity-eq-ok (Dict.get d "quantity") q eq in
    let line_is : record { sku = s; quantity = q } ≡ line = ok-injective h4 in
    subst (Reads (object d)) line_is (record {
      mapping = d;
      is_object = refl;
      only = λ k v g. not-false _ (key_of_any_key stray d k v (fail_if-eq-ok _ _ e2) g);
      sku_is = has_sku;
      nonempty = named;
      quantity_is = has_quantity;
      positive = low;
      bounded = high;
    })

Reads-parse_line : (raw : RawLine) (line : CartLine) → Reads raw line → parse_line raw ≡ ok line
unfolding parse_line
Reads-parse_line raw line r =
    let d = r.mapping in
    let allowed =
      any_key_of_keys (λ k. not (contains allowed_client_line_fields k)) d
        (λ k v g. rw (r.only k v g)) in
    let harmless =
      any_key_of_keys (contains forbidden_client_fields) d
        (λ k v g. allowed-not-forbidden k (r.only k v g)) in
    rw r.is_object (
      ground (arith, allowed, harmless, r.sku_is, r.nonempty, r.quantity_is, r.positive, r.bounded))

abbrev pub EachReads : List RawLine → List CartLine → Type 0
EachReads [] [] = Unit
EachReads (raw ∷ raws) (line ∷ parsed) = Reads raw line × EachReads raws parsed
EachReads _ _ = ⊥

traverse-EachReads :
    (raws : List RawLine) (parsed : List CartLine)
    → traverse parse_line raws ≡ ok parsed
    → EachReads raws parsed
unfolding traverse
traverse-EachReads [] [] h = tt
traverse-EachReads [] (line ∷ parsed) h = cc
traverse-EachReads (raw ∷ raws) parsed h =
    let (line, e, h1) = >>=-eq-ok (parse_line raw) _ h in
    let (others, es, h2) = >>=-eq-ok (traverse parse_line raws) _ h1 in
    subst (EachReads (raw ∷ raws)) (ok-injective h2)
      (parse_line-Reads raw line e, traverse-EachReads raws others es)

EachReads-traverse :
    (raws : List RawLine) (parsed : List CartLine)
    → EachReads raws parsed
    → traverse parse_line raws ≡ ok parsed
unfolding traverse
EachReads-traverse [] [] h = refl
EachReads-traverse [] (line ∷ parsed) h = absurd h
EachReads-traverse (raw ∷ raws) [] h = absurd h
EachReads-traverse (raw ∷ raws) (line ∷ parsed) h =
    rw (Reads-parse_line raw line h.0, EachReads-traverse raws parsed h.1)

abbrev WithinBound : String × ℤ → Type 0
WithinBound item = item.1 ≤ℤ pos max_quantity_per_line

check_merged-All :
    (cart : List (String × ℤ)) {u : Unit {0}} → check_merged cart ≡ ok u → All WithinBound cart
unfolding check_merged
check_merged-All [] h = tt
check_merged-All ((s, q) ∷ cart) h = ground (arith, check_merged-All cart)

All-check_merged : (cart : List (String × ℤ)) → All WithinBound cart → check_merged cart ≡ ok tt
unfolding check_merged
All-check_merged [] h = refl
All-check_merged ((s, q) ∷ cart) h = ground (arith, All-check_merged cart)

-- A list of one to twenty lines, each a mapping of exactly a SKU and a quantity within the
-- bounds, that order at most the bound of each SKU in all.
pub record IsAcceptable (raws : List RawLine) (parsed : List CartLine) : Type 0 where
  pub some_line : 1 ≤ length raws
  pub few_lines : length raws ≤ max_lines_per_cart
  pub each : EachReads raws parsed
  pub merged : (sku : String) (q : ℤ) → ordered parsed sku ≡ some q → q ≤ℤ pos max_quantity_per_line

IsAcceptable-of_parse :
    (raws : List RawLine) (parsed : List CartLine)
    → parse_client_lines (lines raws) ≡ ok parsed
    → IsAcceptable raws parsed
unfolding parse_client_lines
IsAcceptable-of_parse [] parsed h = cc
IsAcceptable-of_parse (raw ∷ raws) parsed h =
    let (_, few, h1) = >>=-eq-ok (fail_if (ltb max_lines_per_cart (length (raw ∷ raws))) _) _ h in
    let (found, each, h2) = >>=-eq-ok (traverse parse_line (raw ∷ raws)) _ h1 in
    let (_, small, h3) = >>=-eq-ok (check_merged (canonical_cart found)) _ h2 in
    subst (IsAcceptable (raw ∷ raws)) (ok-injective h3) (record {
      some_line = omega arith;
      few_lines = ground (arith, fail_if-eq-ok _ _ few);
      each = traverse-EachReads (raw ∷ raws) found each;
      merged = λ sku q o.
          All-get WithinBound (canonical_cart found) sku q
            (check_merged-All (canonical_cart found) small) (get-canonical_cart found sku ∙ o);
    })

parse_of_acceptable :
    (raws : List RawLine) (parsed : List CartLine)
    → IsAcceptable raws parsed
    → parse_client_lines (lines raws) ≡ ok parsed
unfolding parse_client_lines
parse_of_acceptable [] parsed h = absurd (omega (arith, h.some_line))
parse_of_acceptable (raw ∷ raws) parsed h =
    let checked = All-check_merged (canonical_cart parsed) (
      All-of_get WithinBound (canonical_cart parsed) (canonical_cart-IsDistinct parsed)
        (λ sku q g. h.merged sku q (sym (get-canonical_cart parsed sku) ∙ g))) in
    let few : ltb max_lines_per_cart (length (raw ∷ raws)) ≡ false = ground (arith, h.few_lines) in
    rw (few, EachReads-traverse (raw ∷ raws) parsed h.each, checked)

-- `parse_client_lines` accepts exactly the acceptable payloads, and returns the lines they say.
pub parse_client_lines-eq-ok_iff :
    (raws : List RawLine) (parsed : List CartLine)
    → (parse_client_lines (lines raws) ≡ ok parsed) ↔ IsAcceptable raws parsed
parse_client_lines-eq-ok_iff raws parsed =
    (IsAcceptable-of_parse raws parsed, parse_of_acceptable raws parsed)
