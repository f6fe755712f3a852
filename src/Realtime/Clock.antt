-- ===== src/Realtime/Clock.antt =====
-- The injected clocks (src/synthetic_realtime/clock.py): a clock that moves only when it is
-- told to, and one that replays a list of instants. An instant is a UTC datetime, in
-- microseconds; a naive or a non-UTC one does not occur in the model.
use secure_swipe.Prelude.{
  ◌≡◌, refl, sym, ap, ◌∙◌, inl, inr, Option-cases, ◌++◌, map, ℕ, zero, suc, ◌+◌, ◌-◌, Option, none,
  some, List, [], ◌∷◌, length, if◌then◌else◌, ◌&&◌, arith,
}
use secure_swipe.Prelude.Int.{ℤ, pos, ◌+ℤ◌, ltb_ℤ, leb_ℤ}
use secure_swipe.Prelude.Result.{Result, ok, err, ok-injective}

pub data ClockError : Type 0 where
  negative_delta seed_out_of_range no_instants exhausted : ClockError

abbrev pub min_seed : ℤ
min_seed = pos 0

abbrev pub max_seed : ℤ
max_seed = pos 2147483647

unfoldable pub validate_seed : ℤ → Result ClockError ℤ
validate_seed seed =
    if leb_ℤ min_seed seed && leb_ℤ seed max_seed then ok seed else err seed_out_of_range

pub record FixedClock : Type 0 where
  pub current : ℤ

-- The clock after the call, and what the call returned or raised.
unfoldable pub advance : ℤ → FixedClock → FixedClock × Result ClockError ℤ
advance delta c =
    if ltb_ℤ delta (pos 0)
    then (c, err negative_delta)
    else (record { current = c.current +ℤ delta }, ok (c.current +ℤ delta))

unfoldable pub set : ℤ → FixedClock → FixedClock × ℤ
set value c = (record { current = value }, value)

pub record SequenceClock : Type 0 where
  pub instants : List ℤ
  pub index : ℕ

unfoldable pub new_sequence : List ℤ → Result ClockError SequenceClock
new_sequence [] = err no_instants
new_sequence (x ∷ xs) = ok (record { instants = x ∷ xs; index = 0 })

unfoldable pub get_elem? {ℓ} : {A : Type ℓ} → List A → ℕ → Option A
get_elem? [] n = none
get_elem? (x ∷ xs) zero = some x
get_elem? (x ∷ xs) (suc n) = get_elem? xs n

unfoldable pub now : SequenceClock → SequenceClock × Result ClockError ℤ
now c = elim (get_elem? c.instants c.index) [
  | none ↦ (c, err exhausted)
  | some value ↦ (record c { index = suc c.index }, ok value)
]

unfoldable pub remaining : SequenceClock → ℕ
remaining c = length c.instants - c.index

-- The answers of so many calls of `now()`.
unfoldable pub answers : ℕ → SequenceClock → List (Result ClockError ℤ)
unfolding now
answers zero c = []
answers (suc n) c = (now c).1 ∷ answers n (now c).0

unfoldable pub repeat : ℕ → List (Result ClockError ℤ)
repeat zero = []
repeat (suc n) = err exhausted ∷ repeat n

answers_shift :
    (n i : ℕ) (x : ℤ) (xs : List ℤ)
    → answers n (record { instants = x ∷ xs; index = suc i })
      ≡ answers n (record { instants = xs; index = i })
unfolding answers now get_elem?
answers_shift zero i x xs = refl
answers_shift (suc n) i x xs = elim (Option-cases (get_elem? xs i)) [
  | inl p ↦ rw (p, answers, now, get_elem?) (ap (λ r. err exhausted ∷ r) (answers_shift n i x xs))
  | inr p ↦ rw (p.1, answers, now, get_elem?) (ap (λ r. ok p.0 ∷ r) (answers_shift n (suc i) x xs))
]

answers_end : (k : ℕ) → answers k (record { instants = []; index = 0 }) ≡ repeat k
unfolding answers repeat now get_elem?
answers_end zero = refl
answers_end (suc k) = ap (λ r. err exhausted ∷ r) (answers_end k)

zero_add : (k : ℕ) → 0 + k ≡ k
zero_add k = omega arith

suc_add : (m k : ℕ) → suc m + k ≡ suc (m + k)
suc_add m k = omega arith

answers_start :
    (xs : List ℤ) (k : ℕ)
    → answers (length xs + k) (record { instants = xs; index = 0 }) ≡ map ok xs ++ repeat k
unfolding answers now get_elem?
answers_start [] k = rw (zero_add k) (answers_end k)
answers_start (x ∷ xs) k =
    rw (suc_add (length xs) k)
      (ap (λ r. ok x ∷ r) (answers_shift (length xs + k) 0 x xs ∙ answers_start xs k))

-- A sequence clock that its constructor accepted answers `now()` with its instants, each once and
-- in order, and every further call with the exhaustion error.
pub answers-new_sequence :
    (xs : List ℤ) (k : ℕ) (c : SequenceClock)
    → new_sequence xs ≡ ok c
    → answers (length xs + k) c ≡ map ok xs ++ repeat k
unfolding new_sequence
answers-new_sequence [] k c h = cc
answers-new_sequence (x ∷ xs) k c h =
    let q : c ≡ (record { instants = x ∷ xs; index = 0 }) = sym (ok-injective h) in
    rw q (answers_start (x ∷ xs) k)
