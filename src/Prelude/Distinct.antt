-- ===== src/Prelude/Distinct.antt =====
-- Lists without repetitions, and what holds of some element of a list.
use mathlib.Core.Path.{◌≡◌}
use mathlib.Core.Logic.{◌⊎◌, inl, inr}
use mathlib.Core.Bool.{Bool, true, false, not}
use mathlib.Core.List.{List, [], ◌∷◌}
use Prim.Native.Nat.{suc, ◌≤◌}
use native.Mathlib.Omega.{arith}
use secure_swipe.Prelude.Tests.{Bool-cases}
use secure_swipe.Prelude.Equality.{Eq, ◌==◌}
use secure_swipe.Prelude.Lists.{length, keep, contains}
use secure_swipe.Prelude.Sorting.{sort, insert}

module _ {ℓ} {A : Type ℓ} where
  -- Some element satisfies the predicate.
  abbrev pub Any : (A → Type 0) → List A → Type 0
  Any P [] = ⊥
  Any P (x ∷ xs) = P x ⊎ Any P xs

  pub Any-map :
      (P : A → Type 0) (Q : A → Type 0) (xs : List A) → ((x : A) → P x → Q x) → Any P xs → Any Q xs
  Any-map P Q [] h a = absurd a
  Any-map P Q (x ∷ xs) h (inl p) = inl (h x p)
  Any-map P Q (x ∷ xs) h (inr a) = inr (Any-map P Q xs h a)

  pub Any-keep_of :
      (P : A → Type 0) (p : A → Bool) (xs : List A)
      → Any P (keep p xs)
      → Any (λ x. (p x ≡ true) × P x) xs
  unfolding keep
  Any-keep_of P p [] a = absurd a
  Any-keep_of P p (x ∷ xs) a = elim (Bool-cases (p x)) [
    | inl q ↦
        let b : Any P (x ∷ keep p xs) = rw q at a in
        elim b [ inl h ↦ inl (q, h) | inr h ↦ inr (Any-keep_of P p xs h) ]
    | inr q ↦ let b : Any P (keep p xs) = rw q at a in inr (Any-keep_of P p xs b)
  ]

  pub Any-keep :
      (P : A → Type 0) (p : A → Bool) (xs : List A)
      → Any (λ x. (p x ≡ true) × P x) xs
      → Any P (keep p xs)
  unfolding keep
  Any-keep P p [] a = absurd a
  Any-keep P p (x ∷ xs) (inl (q, h)) = rw q (inl h)
  Any-keep P p (x ∷ xs) (inr a) = elim (Bool-cases (p x)) [
    | inl q ↦ rw q (inr (Any-keep P p xs a))
    | inr q ↦ rw q (Any-keep P p xs a)
  ]

  behind : (P : A → Type 0) (x y : A) (ys : List A) → Any P (x ∷ ys) → Any P (x ∷ y ∷ ys)
  behind P x y ys (inl h) = inl h
  behind P x y ys (inr h) = inr (inr h)

  module _ (le : A → A → Bool) where
    Any-insert_of : (P : A → Type 0) (x : A) (xs : List A) → Any P (insert le x xs) → Any P (x ∷ xs)
    unfolding insert
    Any-insert_of P x [] a = a
    Any-insert_of P x (y ∷ ys) a = elim (Bool-cases (le x y)) [
      | inl q ↦ rw q at a
      | inr q ↦
          let b : Any P (y ∷ insert le x ys) = rw q at a in
          elim b [ inl h ↦ inr (inl h) | inr h ↦ behind P x y ys (Any-insert_of P x ys h) ]
    ]

    pub Any-sort_of : (P : A → Type 0) (xs : List A) → Any P (sort le xs) → Any P xs
    unfolding sort
    Any-sort_of P [] a = a
    Any-sort_of P (x ∷ xs) a = elim (Any-insert_of P x (sort le xs) a) [
      | inl p ↦ inl p
      | inr b ↦ inr (Any-sort_of P xs b)
    ]

    Any-insert : (P : A → Type 0) (x : A) (xs : List A) → Any P (x ∷ xs) → Any P (insert le x xs)
    unfolding insert
    Any-insert P x [] a = a
    Any-insert P x (y ∷ ys) a = elim (Bool-cases (le x y)) [
      | inl q ↦ rw q a
      | inr q ↦
          let b : Any P (y ∷ insert le x ys) = elim a [
            | inl h ↦ inr (Any-insert P x ys (inl h))
            | inr c ↦ elim c [ inl h ↦ inl h | inr h ↦ inr (Any-insert P x ys (inr h)) ]
          ] in
          rw q b
    ]

    pub Any-sort : (P : A → Type 0) (xs : List A) → Any P xs → Any P (sort le xs)
    unfolding sort
    Any-sort P [] a = a
    Any-sort P (x ∷ xs) (inl p) = Any-insert P x (sort le xs) (inl p)
    Any-sort P (x ∷ xs) (inr a) = Any-insert P x (sort le xs) (inr (Any-sort P xs a))

module _ {ℓ} {A : Type ℓ} ⦃e : Eq A⦄ where
  abbrev pub NoRepeat : List A → Type 0
  NoRepeat [] = Unit
  NoRepeat (x ∷ xs) = (contains xs x ≡ false) × NoRepeat xs

  contains-keep_other :
      (x a : A) (ys : List A)
      → contains ys a ≡ true
      → (a == x) ≡ false
      → contains (keep (λ y. not (y == x)) ys) a ≡ true
  unfolding contains keep
  contains-keep_other x a [] h n = cc
  contains-keep_other x a (y ∷ ys) h n =
      ground (arith, contains-keep_other x a ys, e.beq_iff y a, e.beq_iff y x, e.beq_iff a x)

  length-keep_other-le : (x : A) (ys : List A) → length (keep (λ y. not (y == x)) ys) ≤ length ys
  unfolding keep
  length-keep_other-le x [] = omega arith
  length-keep_other-le x (y ∷ ys) = ground (arith, length-keep_other-le x ys)

  length-keep_other :
      (x : A) (ys : List A)
      → contains ys x ≡ true
      → suc (length (keep (λ y. not (y == x)) ys)) ≤ length ys
  unfolding contains keep
  length-keep_other x [] h = cc
  length-keep_other x (y ∷ ys) h = ground (arith, length-keep_other x ys, length-keep_other-le x ys)

  -- A list without repetitions is no longer than a list that has all its elements.
  pub length-NoRepeat :
      (xs ys : List A)
      → NoRepeat xs
      → ((a : A) → contains xs a ≡ true → contains ys a ≡ true)
      → length xs ≤ length ys
  unfolding contains
  length-NoRepeat [] ys n h = omega arith
  length-NoRepeat (x ∷ xs) ys n h =
      let rest = length-NoRepeat xs (keep (λ y. not (y == x)) ys) n.1 (λ a k.
        contains-keep_other x a ys (ground (arith, h a)) (ground (arith, e.beq_iff a x, n.0))) in
      omega (arith, rest, length-keep_other x ys (h x (ground (arith, e.beq_iff x x))))
