-- ===== src/Prelude/SortedList.antt =====
-- Sorting lists that are sorted or filtered: sorting twice sorts once, and filtering commutes
-- with sorting.
use mathlib.Core.Path.{◌≡◌, refl, ◌∙◌, ap}
use mathlib.Core.Bool.{Bool, true, false}
use mathlib.Core.List.{List, [], ◌∷◌}
use mathlib.Core.Logic.{inl, inr}
use native.Mathlib.Omega.{arith}
use secure_swipe.Prelude.Tests.{Bool-cases}
use secure_swipe.Prelude.Lists.{All, keep}
use secure_swipe.Prelude.Sorting.{insert, sort, IsSorted, sort-IsSorted}

keep_of_keep {ℓ} :
    {A : Type ℓ} (p q : A → Bool) (xs : List A)
    → ((x : A) → p x ≡ true → q x ≡ true)
    → keep p (keep q xs) ≡ keep p xs
unfolding keep
keep_of_keep p q [] h = refl
keep_of_keep p q (x ∷ xs) h = ground (arith, keep_of_keep p q xs h, h x)

module _ {ℓ} {A : Type ℓ} (le : A → A → Bool) where
  insert-least : (x : A) (xs : List A) → All (λ y. le x y ≡ true) xs → insert le x xs ≡ x ∷ xs
  unfolding insert
  insert-least x [] h = refl
  insert-least x (y ∷ ys) h = rw h.0 refl

  pub sort-sorted : (xs : List A) → IsSorted le xs → sort le xs ≡ xs
  unfolding sort
  sort-sorted [] h = refl
  sort-sorted (x ∷ xs) h = rw (sort-sorted xs h.1) (insert-least x xs h.0)

  All-keep {κ} : (P : A → Type κ) (p : A → Bool) (xs : List A) → All P xs → All P (keep p xs)
  unfolding keep
  All-keep P p [] h = tt
  All-keep P p (x ∷ xs) h = elim (Bool-cases (p x)) [
    | inl q ↦ rw q (h.0, All-keep P p xs h.1)
    | inr q ↦ rw q (All-keep P p xs h.1)
  ]

  module _ (total : (a b : A) → le a b ≡ false → le b a ≡ true)
      (trans : (a b c : A) → le a b ≡ true → le b c ≡ true → le a c ≡ true) where
    All-le_trans :
        (x y : A) (ys : List A)
        → le x y ≡ true
        → All (λ z. le y z ≡ true) ys
        → All (λ z. le x z ≡ true) ys
    All-le_trans x y [] h k = tt
    All-le_trans x y (z ∷ zs) h k = (trans x y z h k.0, All-le_trans x y zs h k.1)

    keep-insert_kept :
        (p : A → Bool) (x : A) (xs : List A)
        → IsSorted le xs
        → p x ≡ true
        → keep p (insert le x xs) ≡ insert le x (keep p xs)
    unfolding insert keep
    keep-insert_kept p x [] h k = ground arith
    keep-insert_kept p x (y ∷ ys) h k = elim (Bool-cases (le x y)) [
      | inl q ↦
          let least =
            insert-least x (keep p (y ∷ ys))
              (All-keep (λ z. le x z ≡ true) p (y ∷ ys) (q, All-le_trans x y ys q h.0)) in
          ground arith
      | inr q ↦ ground (arith, keep-insert_kept p x ys h.1 k)
    ]

    keep-insert_dropped :
        (p : A → Bool) (x : A) (xs : List A) → p x ≡ false → keep p (insert le x xs) ≡ keep p xs
    unfolding insert keep
    keep-insert_dropped p x [] k = ground arith
    keep-insert_dropped p x (y ∷ ys) k = ground (arith, keep-insert_dropped p x ys k)

    -- Filtering a sorted list is sorting the filtered one.
    pub keep_of_sort : (p : A → Bool) (xs : List A) → keep p (sort le xs) ≡ sort le (keep p xs)
    unfolding sort keep
    keep_of_sort p [] = refl
    keep_of_sort p (x ∷ xs) = elim (Bool-cases (p x)) [
      | inl q ↦
          keep-insert_kept p x (sort le xs) (sort-IsSorted le total trans xs) q
          ∙ (rw (q, keep_of_sort p xs) refl)
      | inr q ↦ keep-insert_dropped p x (sort le xs) q ∙ (rw (q, keep_of_sort p xs) refl)
    ]

    -- Filtering by a test what a weaker test left sorted is filtering the original.
    pub sort-keep-sort :
        (p q : A → Bool) (xs : List A)
        → ((x : A) → p x ≡ true → q x ≡ true)
        → sort le (keep p (sort le (keep q xs))) ≡ sort le (keep p xs)
    sort-keep-sort p q xs h =
        ap (sort le) (keep_of_sort p (keep q xs))
        ∙ sort-sorted (sort le (keep p (keep q xs))) (sort-IsSorted le total trans _)
        ∙ ap (sort le) (keep_of_keep p q xs h)
