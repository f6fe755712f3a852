-- ===== src/Prelude/Dict.antt =====
-- Python's `dict`: an association list in insertion order. Writing a key that is present keeps
-- its place, a new key goes last, and `del` closes the gap.
use secure_swipe.Prelude.Tests.{if◌then◌else◌}
use secure_swipe.Prelude.Equality.{Eq, ◌==◌}
use secure_swipe.Prelude.Lists.{length}
use Prim.Native.Nat.{◌+◌}
use mathlib.Core.Path.{◌≡◌, refl, ap, ◌∙◌}
use mathlib.Core.Bool.{true, false}
use mathlib.Core.Option.{Option, none, some}
use mathlib.Core.List.{List, [], ◌∷◌}
use native.Mathlib.Omega.{arith}

abbrev pub Dict {ℓ κ} : Type ℓ → Type κ → Type (ℓ ⊔ κ)
Dict K V = List (K × V)

module _ {ℓ κ} {K : Type ℓ} {V : Type κ} ⦃e : Eq K⦄ where
  -- `d.get(k)`
  unfoldable pub get : Dict K V → K → Option V
  get [] k = none
  get ((j, v) ∷ d) k = if j == k then some v else get d k

  -- `d[k] = v`
  unfoldable pub put : Dict K V → K → V → Dict K V
  put [] k v = (k, v) ∷ []
  put ((j, w) ∷ d) k v = let rest = put d k v in if j == k then (j, v) ∷ d else (j, w) ∷ rest

  -- `d.pop(k, None)`
  unfoldable pub remove : Dict K V → K → Dict K V
  remove [] k = []
  remove ((j, w) ∷ d) k = let rest = remove d k in if j == k then rest else (j, w) ∷ rest

  pub get-put :
      (d : Dict K V) (k j : K) (v : V) → get (put d k v) j ≡ (if k == j then some v else get d j)
  unfolding get put
  get-put [] k j v = refl
  get-put ((i, w) ∷ d) k j v =
      ground (arith, get-put d k j v, e.beq_iff i k, e.beq_iff i j, e.beq_iff k j)

  pub get-put_same : (d : Dict K V) (k j : K) (v : V) → (k == j) ≡ true → get (put d k v) j ≡ some v
  get-put_same d k j v h = get-put d k j v ∙ ap (λ b. if b then some v else get d j) h

  pub get-put_other :
      (d : Dict K V) (k j : K) (v : V) → (k == j) ≡ false → get (put d k v) j ≡ get d j
  get-put_other d k j v h = get-put d k j v ∙ ap (λ b. if b then some v else get d j) h

  pub get-remove :
      (d : Dict K V) (k j : K) → get (remove d k) j ≡ (if k == j then none else get d j)
  unfolding get remove
  get-remove [] k j = ground arith
  get-remove ((i, w) ∷ d) k j =
      ground (arith, get-remove d k j, e.beq_iff i k, e.beq_iff i j, e.beq_iff k j)

  -- No key twice.
  abbrev pub IsDistinct : Dict K V → Type κ
  IsDistinct [] = Unit
  IsDistinct ((k, v) ∷ d) = (get d k ≡ none) × IsDistinct d

  pub put-IsDistinct : (d : Dict K V) (k : K) (v : V) → IsDistinct d → IsDistinct (put d k v)
  unfolding get put
  put-IsDistinct [] k v h = ground arith
  put-IsDistinct ((j, w) ∷ d) k v h =
      ground (arith, put-IsDistinct d k v, get-put d k j v, e.beq_iff j k, e.beq_iff k j)

  -- A new key makes the dictionary one longer; an old one leaves its size.
  pub length-put :
      (d : Dict K V) (k : K) (v : V)
      → length (put d k v) ≡ length d + elim (get d k) [ none ↦ 1 | some _ ↦ 0 ]
  unfolding get put
  length-put [] k v = refl
  length-put ((j, w) ∷ d) k v = ground (arith, length-put d k v)
