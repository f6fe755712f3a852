-- ===== src/Order/Cart/Amount.antt =====
-- The server-side amount (`reconstruct_amount_minor`) against the invoice of the lines.
use secure_swipe.Prelude.{
  ℕ, ◌≡◌, refl, sym, ap, subst, ◌∙◌, ◌↔◌, String, Option, some, List, [], ◌∷◌, arith, eq_iff,
  string_eq, All, inl, inr, Bool-cases,
}
use secure_swipe.Prelude.Dict
use secure_swipe.Prelude.Dict.{Dict, IsDistinct}
use secure_swipe.Prelude.Int.{
  ℤ, pos, negsuc, ◌+ℤ◌, ◌*ℤ◌, ◌≤ℤ◌, +ℤ_comm, +ℤ_assoc, zero_add_ℤ, *ℤ_distrib, *ℤ_nonneg, +ℤ_parts,
  int_laws,
}
use secure_swipe.Prelude.Result.{Result, ok, err, >>=-eq-ok}
use secure_swipe.Prelude.Value.{Value, integer}
use secure_swipe.Prelude.Sorting.{insert, sort}
use secure_swipe.Prelude.SortedDict.{All-get, All-of_get}
use secure_swipe.Order.Catalog.{max_quantity_per_line, max_total_minor}
use secure_swipe.Order.Cart.{
  CartLine, OrderIntegrityError, plus_old, merge_lines, item_leb, canonical_cart, as_price,
  add_items, reconstruct_amount_minor,
}
use secure_swipe.Order.Cart.Merge.{
  ordered, get-canonical_cart, canonical_cart-IsDistinct, SameOrder, canonical_cart-eq_iff,
}

-- The price of a SKU, and 0 where the catalog has no valid one.
pub price : Dict String Value → String → ℤ
price catalog sku = elim (as_price (Dict.get catalog sku)) [ ok p ↦ p | err _ ↦ pos 0 ]

-- Line by line: the unit price times the quantity, summed.
pub invoice : Dict String Value → List CartLine → ℤ
invoice catalog [] = pos 0
invoice catalog (line ∷ rest) = price catalog line.sku *ℤ line.quantity +ℤ invoice catalog rest

pub bill : Dict String Value → List (String × ℤ) → ℤ
bill catalog [] = pos 0
bill catalog ((sku, q) ∷ rest) = price catalog sku *ℤ q +ℤ bill catalog rest

rotate : (a b c : ℤ) → a +ℤ b +ℤ c ≡ b +ℤ (a +ℤ c)
rotate a b c = omega int_laws

left_comm : (a b c : ℤ) → a +ℤ (b +ℤ c) ≡ b +ℤ (a +ℤ c)
left_comm a b c = omega int_laws

add_zero : (a : ℤ) → a +ℤ pos 0 ≡ a
add_zero a = omega int_laws

ok-injective : (a b : ℤ) → ◌≡◌ {A = Result OrderIntegrityError ℤ} (ok a) (ok b) → a ≡ b
ok-injective a b h = cc

as_price-eq-ok :
    (o : Option Value) (u : ℤ)
    → as_price o ≡ ok u
    → (n : ℕ) × (o ≡ some (integer (pos n))) × (u ≡ pos n)
as_price-eq-ok (some (integer (pos n))) u h = (n, refl, ground arith)
as_price-eq-ok (some (integer (negsuc n))) u h = absurd (ground arith)
as_price-eq-ok _ u h = cc

module _ (catalog : Dict String Value) where
  bill-put :
      (m : Dict String ℤ) (sku : String) (q : ℤ)
      → bill catalog (Dict.put m sku (plus_old (Dict.get m sku) q))
        ≡ price catalog sku *ℤ q +ℤ bill catalog m
  unfolding bill Dict.put Dict.get
  bill-put [] sku q = rw zero_add_ℤ
  bill-put ((j, w) ∷ m) sku q = ground (
    arith,
    bill-put m sku q,
    eq_iff j sku,
    *ℤ_distrib (price catalog j) w q,
    +ℤ_comm (price catalog j *ℤ w) (price catalog j *ℤ q),
    +ℤ_assoc (price catalog j *ℤ q) (price catalog j *ℤ w) (bill catalog m),
    +ℤ_comm (price catalog j *ℤ w) (price catalog sku *ℤ q),
    +ℤ_assoc (price catalog j *ℤ w) (price catalog sku *ℤ q) (bill catalog m),
    +ℤ_assoc (price catalog sku *ℤ q) (price catalog j *ℤ w) (bill catalog m),
  )

  bill-merge_lines :
      (m : Dict String ℤ) (items : List CartLine)
      → bill catalog (merge_lines m items) ≡ bill catalog m +ℤ invoice catalog items
  unfolding merge_lines invoice
  bill-merge_lines m [] = omega int_laws
  bill-merge_lines m (line ∷ rest) =
      let q = line.quantity in
      let m' = Dict.put m line.sku (plus_old (Dict.get m line.sku) q) in
      bill-merge_lines m' rest
      ∙ ap (λ t. t +ℤ invoice catalog rest) (bill-put m line.sku q)
      ∙ rotate (price catalog line.sku *ℤ q) (bill catalog m) (invoice catalog rest)

  bill-insert :
      (x : String × ℤ) (d : List (String × ℤ))
      → bill catalog (insert item_leb x d) ≡ bill catalog (x ∷ d)
  unfolding insert bill
  bill-insert x [] = refl
  bill-insert (k, v) ((j, w) ∷ d) = elim (Bool-cases (item_leb (k, v) (j, w))) [
    | inl p ↦ rw p
    | inr p ↦
        rw (p, bill-insert (k, v) d)
          (left_comm (price catalog j *ℤ w) (price catalog k *ℤ v) (bill catalog d))
  ]

  bill-sort : (d : List (String × ℤ)) → bill catalog (sort item_leb d) ≡ bill catalog d
  unfolding sort bill
  bill-sort [] = refl
  bill-sort ((k, v) ∷ d) = rw (bill-insert, bill-sort d)

  -- Merging and sorting the lines does not change what they cost.
  pub bill-canonical_cart :
      (items : List CartLine) → bill catalog (canonical_cart items) ≡ invoice catalog items
  unfolding canonical_cart
  bill-canonical_cart items =
      bill-sort (merge_lines [] items) ∙ bill-merge_lines [] items ∙ (unfold bill in rw zero_add_ℤ)

  -- A SKU with a valid price, ordered in a quantity within the bounds.
  pub record IsBillable (item : String × ℤ) : Type 0 where
    pub unit : ℕ
    pub priced : Dict.get catalog item.0 ≡ some (integer (pos unit))
    pub positive : pos 1 ≤ℤ item.1
    pub bounded : item.1 ≤ℤ pos max_quantity_per_line

  price_of_ok :
      (sku : String) (u : ℤ) → as_price (Dict.get catalog sku) ≡ ok u → price catalog sku ≡ u
  unfolding price
  price_of_ok sku u e = rw (price, e)

  -- One successful round of the loop.
  add_items-step :
      (total t q : ℤ) (sku : String) (rest : List (String × ℤ))
      → add_items catalog total ((sku, q) ∷ rest) ≡ ok t
      → IsBillable (sku, q)
        × (total +ℤ price catalog sku *ℤ q ≤ℤ pos max_total_minor)
        × (add_items catalog (total +ℤ price catalog sku *ℤ q) rest ≡ ok t)
  unfolding add_items
  add_items-step total t q sku rest h =
      let (u, e, h') = >>=-eq-ok (as_price (Dict.get catalog sku)) _ h in
      let (n, found, same) = as_price-eq-ok (Dict.get catalog sku) u e in
      rw (price_of_ok sku u e) (
        record { unit = n; priced = found; positive = ground arith; bounded = ground arith },
        ground arith,
        ground arith,
      )

  add_items_sound :
      (total t : ℤ) (items : List (String × ℤ))
      → total ≤ℤ pos max_total_minor
      → add_items catalog total items ≡ ok t
      → All IsBillable items × (t ≡ total +ℤ bill catalog items) × (t ≤ℤ pos max_total_minor)
  unfolding bill add_items
  add_items_sound total t [] b h = (
    tt,
    sym (ok-injective total t h) ∙ sym (add_zero total),
    subst (λ z. z ≤ℤ pos max_total_minor) (ok-injective total t h) b,
  )
  add_items_sound total t ((sku, q) ∷ rest) b h =
      let (item, small, more) = add_items-step total t q sku rest h in
      let (others, sum, bound) =
        add_items_sound (total +ℤ price catalog sku *ℤ q) t rest small more in
      ((item, others), sum ∙ +ℤ_assoc total (price catalog sku *ℤ q) (bill catalog rest), bound)

  price-IsBillable :
      (sku : String) (q : ℤ) (item : IsBillable (sku, q)) → price catalog sku ≡ pos item.unit
  unfolding price
  price-IsBillable sku q item = rw (price, item.priced) (ground arith)

  cost_nonneg : (sku : String) (q : ℤ) → IsBillable (sku, q) → pos 0 ≤ℤ price catalog sku *ℤ q
  cost_nonneg sku q item =
      rw (price-IsBillable sku q item)
        (*ℤ_nonneg (pos item.unit) q (omega arith) (omega (arith, item.positive)))

  bill_nonneg : (items : List (String × ℤ)) → All IsBillable items → pos 0 ≤ℤ bill catalog items
  unfolding bill
  bill_nonneg [] h = omega arith
  bill_nonneg ((sku, q) ∷ rest) h = omega (int_laws, cost_nonneg sku q h.0, bill_nonneg rest h.1)

  add_items-next :
      (total q : ℤ) (sku : String) (rest : List (String × ℤ))
      → IsBillable (sku, q)
      → total +ℤ price catalog sku *ℤ q ≤ℤ pos max_total_minor
      → add_items catalog total ((sku, q) ∷ rest)
        ≡ add_items catalog (total +ℤ price catalog sku *ℤ q) rest
  unfolding add_items
  add_items-next total q sku rest item small =
      ground (arith, item.priced, price-IsBillable sku q item, item.positive, item.bounded)

  add_items_complete :
      (total : ℤ) (items : List (String × ℤ))
      → All IsBillable items
      → total +ℤ bill catalog items ≤ℤ pos max_total_minor
      → add_items catalog total items ≡ ok (total +ℤ bill catalog items)
  unfolding bill
  add_items_complete total [] h small = unfold add_items in ap ok (sym (add_zero total))
  add_items_complete total ((sku, q) ∷ rest) h small =
      let c = price catalog sku *ℤ q in
      let b = bill catalog rest in
      let first = total +ℤ c in
      let fits : first ≤ℤ pos max_total_minor =
        omega (int_laws, bill_nonneg rest h.1, +ℤ_parts total (c +ℤ b), +ℤ_parts c b) in
      let fit_all : first +ℤ b ≤ℤ pos max_total_minor = rw (+ℤ_assoc total c b) small in
      add_items-next total q sku rest h.0 fits
      ∙ add_items_complete first rest h.1 fit_all
      ∙ ap ok (+ℤ_assoc total c b)

  -- Every SKU ordered is billable, and the amount is the invoice, within the bound.
  abbrev pub Accepted : List CartLine → ℤ → Type 0
  Accepted items t =
      ((sku : String) (q : ℤ) → ordered items sku ≡ some q → IsBillable (sku, q))
      × (t ≡ invoice catalog items)
      × (t ≤ℤ pos max_total_minor)

  Accepted-of_ok :
      (items : List CartLine) (t : ℤ)
      → reconstruct_amount_minor items (some catalog) ≡ ok t
      → Accepted items t
  unfolding reconstruct_amount_minor
  Accepted-of_ok items t h =
      let (each, sum, small) = add_items_sound (pos 0) t (canonical_cart items) (omega arith) h in
      (
        λ sku q o.
            All-get IsBillable (canonical_cart items) sku q each (get-canonical_cart items sku ∙ o),
        sum ∙ zero_add_ℤ _ ∙ bill-canonical_cart items,
        small,
      )

  ok_of_Accepted :
      (items : List CartLine) (t : ℤ)
      → Accepted items t
      → reconstruct_amount_minor items (some catalog) ≡ ok t
  unfolding reconstruct_amount_minor
  ok_of_Accepted items t (each, sum, small) =
      let total : bill catalog (canonical_cart items) ≡ t = bill-canonical_cart items ∙ sym sum in
      let whole : pos 0 +ℤ bill catalog (canonical_cart items) ≡ t = zero_add_ℤ _ ∙ total in
      add_items_complete (pos 0) (canonical_cart items)
        (All-of_get IsBillable (canonical_cart items) (canonical_cart-IsDistinct items)
          (λ sku q g. each sku q (sym (get-canonical_cart items sku) ∙ g)))
        (rw whole small)
      ∙ ap ok whole

  -- With a catalog, the reconstructed amount is `t` exactly when every SKU ordered has a valid
  -- price and a total quantity within the bounds, `t` is the sum of price times quantity over the
  -- lines, and `t` is within the bound on totals.
  pub reconstruct_amount_minor-eq-ok_iff :
      (items : List CartLine) (t : ℤ)
      → (reconstruct_amount_minor items (some catalog) ≡ ok t) ↔ Accepted items t
  reconstruct_amount_minor-eq-ok_iff items t = (Accepted-of_ok items t, ok_of_Accepted items t)

  -- Two carts that order the same quantities are charged alike, and fail alike.
  pub reconstruct_amount_minor_same :
      (a b : List CartLine)
      → SameOrder a b
      → reconstruct_amount_minor a (some catalog) ≡ reconstruct_amount_minor b (some catalog)
  unfolding reconstruct_amount_minor
  reconstruct_amount_minor_same a b h = rw ((canonical_cart-eq_iff a b).1 h)
