-- ===== src/Scale/Chain.antt =====
-- The events of one hash chain, in order, and what `_validate_event_row` and the loop of
-- `verify_audit_chain` (api/postgres_audit.py) say of them.
use secure_swipe.Prelude.{
  ◌≡◌, refl, sym, ap, ◌∙◌, ℕ, suc, ◌+◌, ◌≤◌, not, String, true, false, some, List, [], ◌∷◌, ◌++◌,
  length, keep, All, string_eq, nat_beq_iff, arith, beq_refl, leb, le→leb,
}
use secure_swipe.Prelude.Result.{ok}
use secure_swipe.Prelude.Sorting.{IsSorted}
use secure_swipe.Scale.Response.{Response, Environment}
use secure_swipe.Scale.Audit.{
  AuditEvent, audit_chain_id, build_audit_event, rebuild, validate_event_row, verify_rows, seq_leb,
  is_foreign,
}
use secure_swipe.Scale.Built.{IsBuilt, IsBuilt-build_audit_event}

module _ {F : Type 0} (env : Environment F) where
  open env use {model_validate, validate_dump}

  -- An event of the chain that was built from a response.
  pub record IsGenuine (e : AuditEvent F) : Type 0 where
    pub response : Response F
    pub built :
        IsBuilt env e.event_id audit_chain_id e.sequence e.previous_hash e.key_digest
          e.request_digest response e.occurred_at e

  -- The events have the sequence numbers from `sequence`, each names the hash of the one before,
  -- and the last is number `n` with hash `hash`.
  abbrev pub IsChained : ℕ → String → List (AuditEvent F) → ℕ → String → Type 0
  IsChained sequence previous [] n hash = (sequence ≡ suc n) × (previous ≡ hash)
  IsChained sequence previous (e ∷ es) n hash =
      (e.sequence ≡ sequence)
      × (e.previous_hash ≡ previous)
      × IsGenuine e
      × IsChained (suc sequence) e.event_hash es n hash

  pub IsChained-snoc :
      (s n : ℕ) (p h : String) (es : List (AuditEvent F)) (e : AuditEvent F)
      → IsChained s p es n h
      → e.sequence ≡ suc n
      → e.previous_hash ≡ h
      → IsGenuine e
      → IsChained s p (es ++ e ∷ []) (suc n) e.event_hash
  IsChained-snoc s n p h [] e c at before g =
      (at ∙ sym c.0, before ∙ sym c.1, g, (ap suc c.0, refl))
  IsChained-snoc s n p h (f ∷ fs) e c at before g =
      (c.0, c.1, c.2, IsChained-snoc (suc s) n f.event_hash h fs e c.3 at before g)

  pub length-IsChained :
      (s n : ℕ) (p h : String) (es : List (AuditEvent F))
      → IsChained s p es n h
      → suc n ≡ s + length es
  length-IsChained s n p h [] c = omega arith
  length-IsChained s n p h (e ∷ es) c =
      omega (arith, length-IsChained (suc s) n e.event_hash h es c.3)

  IsChained-ge :
      (m s n : ℕ) (p h : String) (es : List (AuditEvent F))
      → m ≤ s
      → IsChained s p es n h
      → All (λ e. leb m e.sequence ≡ true) es
  IsChained-ge m s n p h [] le c = tt
  IsChained-ge m s n p h (e ∷ es) le c = (
    le→leb m e.sequence (omega (arith, c.0)),
    IsChained-ge m (suc s) n e.event_hash h es (omega arith) c.3,
  )

  pub IsChained-IsSorted :
      (s n : ℕ) (p h : String) (es : List (AuditEvent F))
      → IsChained s p es n h
      → IsSorted seq_leb es
  IsChained-IsSorted s n p h [] c = tt
  IsChained-IsSorted s n p h (e ∷ es) c = (
    IsChained-ge e.sequence (suc s) n e.event_hash h es (omega (arith, c.0)) c.3,
    IsChained-IsSorted (suc s) n e.event_hash h es c.3,
  )

  IsGenuine-is_foreign : (e : AuditEvent F) → IsGenuine e → is_foreign e ≡ false
  IsGenuine-is_foreign e g =
      let chain : e.chain_id ≡ audit_chain_id = ap (λ e. e.chain_id) g.built.made in
      ap not ((string_eq.beq_iff e.chain_id audit_chain_id).1 chain)

  pub keep-IsChained :
      (s n : ℕ) (p h : String) (es : List (AuditEvent F))
      → IsChained s p es n h
      → (keep is_foreign es ≡ []) × (keep (λ e. not (is_foreign e)) es ≡ es)
  unfolding keep
  keep-IsChained s n p h [] c = (refl, refl)
  keep-IsChained s n p h (e ∷ es) c =
      let rest = keep-IsChained (suc s) n e.event_hash h es c.3 in
      let own = IsGenuine-is_foreign e c.2 in (rw own rest.0, rw own (ap (◌∷◌ e) rest.1))

  rebuild-IsGenuine : (e : AuditEvent F) → IsGenuine e → rebuild env e ≡ ok e
  rebuild-IsGenuine e g =
      let encoded : model_validate e.bounded_response ≡ some g.response =
        ap (λ e. model_validate e.bounded_response) g.built.made ∙ validate_dump g.response in
      let chain : e.chain_id ≡ audit_chain_id = ap (λ e. e.chain_id) g.built.made in
      let built : build_audit_event env e.event_id e.chain_id e.sequence e.previous_hash
            e.key_digest e.request_digest g.response e.occurred_at
          ≡ ok e =
        ap
          (λ c.
            build_audit_event env e.event_id c e.sequence e.previous_hash e.key_digest
              e.request_digest g.response e.occurred_at)
          chain
        ∙ IsBuilt-build_audit_event env e.event_id audit_chain_id e.sequence e.previous_hash
            e.key_digest e.request_digest g.response e.occurred_at e g.built in
      rw (encoded, rebuild) (rw built refl)

  validate_event_row-IsGenuine :
      (e : AuditEvent F) → IsGenuine e → validate_event_row env e e.previous_hash ≡ ok e.event_hash
  unfolding validate_event_row
  validate_event_row-IsGenuine e g = rw (rebuild-IsGenuine e g) (
      rw
        (
          beq_refl e.previous_hash,
          beq_refl e.decision,
          beq_refl e.response_sha256,
          beq_refl e.event_hash,
        )
        refl)

  pub verify_rows-IsChained :
      (s n : ℕ) (p h : String) (es : List (AuditEvent F))
      → IsChained s p es n h
      → verify_rows env s p es ≡ ok h
  unfolding verify_rows
  verify_rows-IsChained s n p h [] c = ap ok c.1
  verify_rows-IsChained s n p h (e ∷ es) c =
      let valid : validate_event_row env e p ≡ ok e.event_hash =
        ap (validate_event_row env e) (sym c.1) ∙ validate_event_row-IsGenuine e c.2 in
      rw ((nat_beq_iff e.sequence s).1 c.0)
        (rw valid (verify_rows-IsChained (suc s) n e.event_hash h es c.3))
