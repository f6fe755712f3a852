-- ===== src/Prelude/Sorting.antt =====
-- Python's `sorted`: a stable sort by a Boolean comparison. The library's own algorithm is not
-- modelled; insertion sort has the documented result, an ascending and stable permutation.
use mathlib.Core.Path.{◌≡◌, refl}
use mathlib.Core.Bool.{Bool, true, false}
use mathlib.Core.List.{List, [], ◌∷◌}
use native.Mathlib.Omega.{arith}
use mathlib.Core.Logic.{inl, inr}
use secure_swipe.Prelude.Tests.{if◌then◌else◌, Bool-cases}
use secure_swipe.Prelude.Lists.{All, keep, length}

module _ {ℓ} {A : Type ℓ} (le : A → A → Bool) where
  unfoldable pub insert : A → List A → List A
  insert x [] = x ∷ []
  insert x (y ∷ ys) = let rest = insert x ys in if le x y then x ∷ y ∷ ys else y ∷ rest

  unfoldable pub sort : List A → List A
  unfolding insert
  sort [] = []
  sort (x ∷ xs) = insert x (sort xs)

  -- Each element is at most every later one.
  abbrev pub IsSorted : List A → Type 0
  IsSorted [] = Unit
  IsSorted (x ∷ xs) = All (λ y. le x y ≡ true) xs × IsSorted xs

  All-insert {κ} : (P : A → Type κ) (x : A) (xs : List A) → P x → All P xs → All P (insert x xs)
  unfolding insert
  All-insert P x [] h k = (h, tt)
  All-insert P x (y ∷ ys) h k = elim (Bool-cases (le x y)) [
    | inl p ↦ rw p (h, k)
    | inr p ↦ rw p (k.0, All-insert P x ys h k.1)
  ]

  -- What holds of every element of the input holds of every element of the result.
  pub All-sort {κ} : (P : A → Type κ) (xs : List A) → All P xs → All P (sort xs)
  unfolding sort
  All-sort P [] h = tt
  All-sort P (x ∷ xs) h = All-insert P x (sort xs) h.0 (All-sort P xs h.1)

  -- Elements that a test picks out, of which none comes before another, keep their order.
  module _ (p : A → Bool) (level : (a b : A) → p a ≡ true → p b ≡ true → le a b ≡ true) where
    keep-insert_in : (x : A) (xs : List A) → p x ≡ true → keep p (insert x xs) ≡ x ∷ keep p xs
    unfolding insert keep
    keep-insert_in x [] h = ground arith
    keep-insert_in x (y ∷ ys) h = ground (arith, keep-insert_in x ys, level x y)

    keep-insert_out : (x : A) (xs : List A) → p x ≡ false → keep p (insert x xs) ≡ keep p xs
    unfolding insert keep
    keep-insert_out x [] h = ground arith
    keep-insert_out x (y ∷ ys) h = ground (arith, keep-insert_out x ys)

    pub keep-sort : (xs : List A) → keep p (sort xs) ≡ keep p xs
    unfolding sort keep
    keep-sort [] = refl
    keep-sort (x ∷ xs) =
        ground (arith, keep-insert_in x (sort xs), keep-insert_out x (sort xs), keep-sort xs)

  module _ (total : (a b : A) → le a b ≡ false → le b a ≡ true)
      (trans : (a b c : A) → le a b ≡ true → le b c ≡ true → le a c ≡ true) where
    All-le :
        (x y : A) (ys : List A)
        → le x y ≡ true
        → All (λ z. le y z ≡ true) ys
        → All (λ z. le x z ≡ true) ys
    All-le x y [] h k = tt
    All-le x y (z ∷ zs) h k = (trans x y z h k.0, All-le x y zs h k.1)

    insert-IsSorted : (x : A) (xs : List A) → IsSorted xs → IsSorted (insert x xs)
    unfolding insert
    insert-IsSorted x [] h = (tt, tt)
    insert-IsSorted x (y ∷ ys) h = elim (Bool-cases (le x y)) [
      | inl p ↦ rw p ((p, All-le x y ys p h.0), h)
      | inr p ↦
          rw p (All-insert (λ z. le y z ≡ true) x ys (total x y p) h.0, insert-IsSorted x ys h.1)
    ]

    -- The result ascends.
    pub sort-IsSorted : (xs : List A) → IsSorted (sort xs)
    unfolding sort
    sort-IsSorted [] = tt
    sort-IsSorted (x ∷ xs) = insert-IsSorted x (sort xs) (sort-IsSorted xs)

pub All-keep {ℓ κ} :
    {A : Type ℓ} (P : A → Type κ) (p : A → Bool) (xs : List A)
    → ((x : A) → p x ≡ true → P x)
    → All P (keep p xs)
unfolding keep
All-keep P p [] h = tt
All-keep P p (x ∷ xs) h = elim (Bool-cases (p x)) [
  | inl q ↦ rw q (h x q, All-keep P p xs h)
  | inr q ↦ rw q (All-keep P p xs h)
]

-- A test that another one implies picks the same elements after it as before.
pub keep-keep {ℓ} :
    {A : Type ℓ} (p q : A → Bool) (xs : List A)
    → ((x : A) → p x ≡ true → q x ≡ true)
    → keep p (keep q xs) ≡ keep p xs
unfolding keep
keep-keep p q [] h = refl
keep-keep p q (x ∷ xs) h = ground (arith, keep-keep p q xs h, h x)

length-insert {ℓ} :
    {A : Type ℓ} (le : A → A → Bool) (x : A) (xs : List A)
    → length (insert le x xs) ≡ length (x ∷ xs)
unfolding insert
length-insert le x [] = refl
length-insert le x (y ∷ ys) = ground (arith, length-insert le x ys)

pub length-sort {ℓ} :
    {A : Type ℓ} (le : A → A → Bool) (xs : List A) → length (sort le xs) ≡ length xs
unfolding sort
length-sort le [] = refl
length-sort le (x ∷ xs) = omega (arith, length-insert le x (sort le xs), length-sort le xs)
