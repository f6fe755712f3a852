-- ===== src/Prelude/HashChain.antt =====
-- Chains of records, each of which carries the hash of its own body and that of the one before.
use Prim.Native.String.{String}
use mathlib.Core.Path.{◌≡◌, refl, sym, ap₂, ◌∙◌}
use mathlib.Core.Logic.{◌≢◌, ◌⊎◌, inl, inr}
use mathlib.Core.List.{List, [], ◌∷◌, map}
use native.Mathlib.Omega.{arith}
use secure_swipe.Prelude.Tests.{Bool-cases}
use secure_swipe.Prelude.Equality.{◌==◌, string_eq}
use secure_swipe.Prelude.Lists.{length}

-- At some position the two lists have different texts with one hash.
abbrev pub Collision : (String → String) → List String → List String → Type 0
Collision hash (s ∷ ss) (t ∷ ts) = ((s ≢ t) × (hash s ≡ hash t)) ⊎ Collision hash ss ts
Collision hash _ _ = ⊥

same_or_different :
    (hash : String → String) (s t : String)
    → hash s ≡ hash t
    → (s ≡ t) ⊎ ((s ≢ t) × (hash s ≡ hash t))
same_or_different hash s t h = elim (Bool-cases (s == t)) [
  | inl p ↦ inl ((string_eq.beq_iff s t).0 p)
  | inr p ↦ inr (λ e. cc ((string_eq.beq_iff s t).1 e), h)
]

module _ {E : Type 0} (hash : String → String) (previous digest body : E → String) where
  -- From the hash `start` the records lead to the hash `head`.
  abbrev pub Linked : String → List E → String → Type 0
  Linked start [] head = start ≡ head
  Linked start (e ∷ es) head =
      (previous e ≡ start) × (digest e ≡ hash (body e)) × Linked (digest e) es head

  -- Two chains of one length with one head have the same bodies, or show two different
  -- bodies with one hash at one position.
  pub Linked-unique :
      ((e f : E) → body e ≡ body f → previous e ≡ previous f)
      → (s t h : String) (es fs : List E) → length es ≡ length fs
      → Linked s es h
      → Linked t fs h
      → ((s ≡ t) × (map body es ≡ map body fs)) ⊎ Collision hash (map body es) (map body fs)
  Linked-unique back s t h [] [] n p q = inl (p ∙ sym q, refl)
  Linked-unique back s t h [] (f ∷ fs) n p q = absurd (omega arith)
  Linked-unique back s t h (e ∷ es) [] n p q = absurd (omega arith)
  Linked-unique back s t h (e ∷ es) (f ∷ fs) n p q =
      elim (Linked-unique back (digest e) (digest f) h es fs (omega arith) p.2 q.2) [
        | inr c ↦ inr (inr c)
        | inl (d, rest) ↦ elim (same_or_different hash (body e) (body f) (sym p.1 ∙ d ∙ q.1)) [
          | inr c ↦ inr (inl c)
          | inl b ↦ inl (sym p.0 ∙ back e f b ∙ q.0, ap₂ ◌∷◌ b rest)
        ]
      ]
