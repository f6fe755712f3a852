-- ===== src/Prelude/SortedDict.antt =====
-- A dictionary's items, sorted: lookups stay, and sorted items are determined by their lookups.
use mathlib.Core.Path.{◌≡◌, refl, subst, sym, ◌∙◌, ap₂}
use mathlib.Core.Bool.{Bool, true}
use mathlib.Core.Option.{none, some}
use mathlib.Core.List.{[], ◌∷◌}
use mathlib.Core.Logic.{inl, inr}
use native.Mathlib.Omega.{arith}
use secure_swipe.Prelude.Tests.{if◌then◌else◌, Bool-cases}
use secure_swipe.Prelude.Equality.{Eq, ◌==◌, beq_refl}
use secure_swipe.Prelude.Lists.{All}
use secure_swipe.Prelude.Dict.{Dict, get, IsDistinct}
use secure_swipe.Prelude.Sorting.{insert, sort, IsSorted}

pair_path {ℓ κ} :
    {A : Type ℓ} {B : Type κ} {a a' : A} {b b' : B}
    → a ≡ a'
    → b ≡ b'
    → ◌≡◌ {A = A × B} (a, b) (a', b')
pair_path p q = λ i. (p i, q i)

module _ {ℓ κ} {K : Type ℓ} {V : Type κ} ⦃e : Eq K⦄ where
  -- An entry found by a lookup is among the entries.
  pub All-get {ι} :
      (P : K × V → Type ι) (d : Dict K V) (k : K) (v : V) → All P d → get d k ≡ some v → P (k, v)
  unfolding get
  All-get P [] k v h p = cc
  All-get P ((j, w) ∷ d) k v h p = elim (Bool-cases (j == k)) [
    | inl q ↦ subst P (pair_path ((e.beq_iff j k).0 q) (ground arith)) h.0
    | inr q ↦ All-get P d k v h.1 (ground arith)
  ]

  -- What holds of every entry that a lookup finds holds of every entry, if no key repeats.
  pub All-of_get {ι} :
      (P : K × V → Type ι) (d : Dict K V)
      → IsDistinct d
      → ((k : K) (v : V) → get d k ≡ some v → P (k, v))
      → All P d
  unfolding get
  All-of_get P [] h p = tt
  All-of_get P ((j, w) ∷ d) h p =
      (p j w (rw beq_refl), All-of_get P d h.1 (λ k v q. p k v (ground (arith, e.beq_iff j k))))

  get_nil : (k : K) → get {V = V} [] k ≡ none
  unfolding get
  get_nil k = refl

  module _ (le : K × V → K × V → Bool) where
    get-insert :
        (x : K × V) (d : Dict K V) (k : K)
        → get d x.0 ≡ none
        → get (insert le x d) k ≡ (if x.0 == k then some x.1 else get d k)
    unfolding get insert
    get-insert (j, w) [] k h = refl
    get-insert (j, w) ((i, u) ∷ d) k h =
        ground (arith, get-insert (j, w) d k, e.beq_iff i j, e.beq_iff i k, e.beq_iff j k)

    insert-IsDistinct :
        (x : K × V) (d : Dict K V) → get d x.0 ≡ none → IsDistinct d → IsDistinct (insert le x d)
    unfolding get insert
    insert-IsDistinct (j, w) [] h k = (refl, tt)
    insert-IsDistinct (j, w) ((i, u) ∷ d) h k =
        ground
          (arith, insert-IsDistinct (j, w) d, get-insert (j, w) d i, e.beq_iff i j, e.beq_iff j i)

    -- Sorting the items changes no lookup.
    pub get-sort : (d : Dict K V) (k : K) → IsDistinct d → get (sort le d) k ≡ get d k
    unfolding get sort
    get-sort [] k h = refl
    get-sort ((j, w) ∷ d) k h =
        ground (arith, get-insert (j, w) (sort le d) k, get-sort d j, get-sort d k, e.beq_iff j k)

    pub sort-IsDistinct : (d : Dict K V) → IsDistinct d → IsDistinct (sort le d)
    unfolding get sort
    sort-IsDistinct [] h = tt
    sort-IsDistinct ((j, w) ∷ d) h =
        insert-IsDistinct (j, w) (sort le d) (get-sort d j h.1 ∙ h.0) (sort-IsDistinct d h.1)

    module _
        (antisymm : (k j : K) (v w : V)
          → le (k, v) (j, w) ≡ true
          → le (j, w) (k, v) ≡ true
          → k ≡ j) where
      -- The least keys of two sorted dictionaries with the same lookups are the same.
      same_head :
          (k j : K) (v w : V) (l m : Dict K V)
          → IsSorted le ((k, v) ∷ l)
          → IsSorted le ((j, w) ∷ m)
          → get ((j, w) ∷ m) k ≡ some v
          → get ((k, v) ∷ l) j ≡ some w
          → k ≡ j
      unfolding get
      same_head k j v w l m h g p q = elim (Bool-cases (j == k)) [
        | inl s ↦ (e.beq_iff k j).0 (ground (arith, e.beq_iff j k, e.beq_iff k j))
        | inr s ↦
            antisymm k j v w
              (All-get (λ x. le (k, v) x ≡ true) l j w h.0
                (ground (arith, e.beq_iff j k, e.beq_iff k j)))
              (All-get (λ x. le (j, w) x ≡ true) m k v g.0 (ground arith))
      ]

      same_value :
          (k j : K) (v w : V) (l m : Dict K V)
          → k ≡ j
          → get ((k, v) ∷ l) k ≡ get ((j, w) ∷ m) k
          → v ≡ w
      unfolding get
      same_value k j v w l m q p = ground (arith, e.beq_iff k k, e.beq_iff j k)

      tail_gets :
          (k j x : K) (v w : V) (l m : Dict K V)
          → k ≡ j
          → get l k ≡ none
          → get m j ≡ none
          → get ((k, v) ∷ l) x ≡ get ((j, w) ∷ m) x
          → get l x ≡ get m x
      unfolding get
      tail_gets k j x v w l m q h g p = ground (arith, e.beq_iff k x, e.beq_iff j x)

      head_get : (k : K) (v : V) (l : Dict K V) → get ((k, v) ∷ l) k ≡ some v
      unfolding get
      head_get k v l = rw beq_refl

      -- Sorted items without a repeated key are determined by what they map each key to.
      pub sorted_ext :
          (l m : Dict K V)
          → IsSorted le l
          → IsSorted le m
          → IsDistinct l
          → IsDistinct m
          → ((k : K) → get l k ≡ get m k)
          → l ≡ m
      sorted_ext [] [] h g dl dm p = refl
      sorted_ext [] ((j, w) ∷ m) h g dl dm p = cc (p j, head_get j w m, get_nil j)
      sorted_ext ((k, v) ∷ l) [] h g dl dm p = cc (p k, head_get k v l, get_nil k)
      sorted_ext ((k, v) ∷ l) ((j, w) ∷ m) h g dl dm p =
          let q = same_head k j v w l m h g (sym (p k) ∙ head_get k v l) (p j ∙ head_get j w m) in
          ap₂ ◌∷◌ (pair_path q (same_value k j v w l m q (p k)))
            (sorted_ext l m h.1 g.1 dl.1 dm.1 (λ x. tail_gets k j x v w l m q dl.0 dm.0 (p x)))
