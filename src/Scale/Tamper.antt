-- ===== src/Scale/Tamper.antt =====
-- What the head of the audit chain commits to (api/postgres_audit.py).
use secure_swipe.Prelude.{
  ◌≡◌, ◌⊎◌, subst, sym, ap, ◌∙◌, inl, inr, ℕ, suc, not, String, List, [], ◌∷◌, map, keep, length,
  length-map, ◌==◌, string_eq, nat_beq, ◌||◌,
}
use secure_swipe.Prelude.HashChain.{Collision, Linked, Linked-unique}
use secure_swipe.Prelude.Dict
use secure_swipe.Prelude.Result.{
  not-false, Result, ok, err, >>=-eq-ok, fail_if, fail_if-eq-ok, of_option, ok-injective,
}
use secure_swipe.Prelude.Sorting.{sort}
use secure_swipe.Scale.Response.{Environment}
use secure_swipe.Scale.Audit.{
  AuditError, AuditEvent, Database, audit_chain_id, genesis_hash, seq_leb, is_foreign,
  canonical_event_bytes, build_audit_event, rebuild, recoded, validate_event_row, verify_rows,
  consistent, verify_audit_chain, wrong_previous, wrong_decision, wrong_response, wrong_event_hash,
  no_head, not_singular, not_contiguous, wrong_count, wrong_head, inconsistent, bad_encoding,
}
use secure_swipe.Scale.Built.{build_audit_event-eq-ok}

module _ {F : Type 0} (env : Environment F) where
  open env use {sha256}

  -- The event that a row is checked against, or the row if it is not one.
  abbrev pub decoded : AuditEvent F → AuditEvent F
  decoded e = elim (rebuild env e) [ ok built ↦ built | err _ ↦ e ]

  -- The events of the chain, by sequence number, as the check decodes them.
  unfoldable pub chain_events : Database F → List (AuditEvent F)
  unfolding sort keep build_audit_event
  chain_events db = map decoded (sort seq_leb (keep (λ e. not (is_foreign e)) db.audit_events))

  abbrev IsLinked : String → List (AuditEvent F) → String → Type 0
  IsLinked = Linked sha256 (λ e. e.previous_hash) (λ e. e.event_hash) (canonical_event_bytes env)

  recoded-eq-ok : {A : Type 0} (m : Result AuditError A) (a : A) → recoded env m ≡ ok a → m ≡ ok a
  recoded-eq-ok (err e) a h = cc
  recoded-eq-ok (ok b) a h = h

  rebuild-hash :
      (row e : AuditEvent F)
      → rebuild env row ≡ ok e
      → e.event_hash ≡ sha256 (canonical_event_bytes env e)
  rebuild-hash row e h =
      let (response, _, h1) =
        >>=-eq-ok (of_option (env.model_validate row.bounded_response) bad_encoding) _ h in
      let b =
        build_audit_event-eq-ok env row.event_id row.chain_id row.sequence row.previous_hash
          row.key_digest row.request_digest response row.occurred_at e (recoded-eq-ok _ e h1) in
      ap (λ e. e.event_hash) b.made ∙ ap (λ e. sha256 (canonical_event_bytes env e)) (sym b.made)

  validate_event_row-decoded :
      (row : AuditEvent F) (previous hash : String)
      → validate_event_row env row previous ≡ ok hash
      → ((decoded row).previous_hash ≡ previous)
        × ((decoded row).event_hash ≡ sha256 (canonical_event_bytes env (decoded row)))
        × ((decoded row).event_hash ≡ hash)
  unfolding validate_event_row
  validate_event_row-decoded row previous hash h =
      let (e, e1, h1) = >>=-eq-ok (rebuild env row) _ h in
      let (_, e2, h2) =
        >>=-eq-ok (fail_if (not (e.previous_hash == previous)) wrong_previous) _ h1 in
      let (_, e3, h3) =
        >>=-eq-ok (fail_if (not (e.decision == row.decision)) wrong_decision) _ h2 in
      let (_, e4, h4) =
        >>=-eq-ok (fail_if (not (e.response_sha256 == row.response_sha256)) wrong_response) _ h3 in
      let (_, e5, h5) =
        >>=-eq-ok (fail_if (not (e.event_hash == row.event_hash)) wrong_event_hash) _ h4 in
      rw (e1, decoded)
        (
          (string_eq.beq_iff _ _).0 (not-false _ (fail_if-eq-ok _ wrong_previous e2)),
          rebuild-hash row e e1,
          ok-injective h5,
        )

  verify_rows-IsLinked :
      (s : ℕ) (previous hash : String) (rows : List (AuditEvent F))
      → verify_rows env s previous rows ≡ ok hash
      → IsLinked previous (map decoded rows) hash
  unfolding verify_rows
  verify_rows-IsLinked s previous hash [] h = ok-injective h
  verify_rows-IsLinked s previous hash (row ∷ rows) h =
      let (_, e1, h1) = >>=-eq-ok (fail_if (not (nat_beq row.sequence s)) not_contiguous) _ h in
      let (last, e2, h2) = >>=-eq-ok (validate_event_row env row previous) _ h1 in
      let (before, digest, own) = validate_event_row-decoded row previous last e2 in
      (
        before,
        digest,
        subst (λ p. IsLinked p (map decoded rows) hash) (sym own)
            (verify_rows-IsLinked (suc s) last hash rows h2),
      )

  verify_audit_chain-IsLinked :
      (db : Database F) (n : ℕ) (hash : String)
      → verify_audit_chain env db ≡ ok (n, hash)
      → (length (chain_events db) ≡ n) × IsLinked genesis_hash (chain_events db) hash
  unfolding verify_audit_chain chain_events
  verify_audit_chain-IsLinked db n hash h =
      let rows = sort seq_leb (keep (λ e. not (is_foreign e)) db.audit_events) in
      let (head, e1, h1) =
        >>=-eq-ok (of_option (Dict.get db.audit_chain_heads audit_chain_id) no_head) _ h in
      let (_, e2, h2) =
        >>=-eq-ok
          (fail_if
            (not (nat_beq (length db.audit_chain_heads) 1)
              || not (nat_beq (length (keep is_foreign db.audit_events)) 0))
            not_singular)
          _ h1 in
      let (last, e3, h3) = >>=-eq-ok (verify_rows env 1 genesis_hash rows) _ h2 in
      let (_, e4, h4) =
        >>=-eq-ok (fail_if (not (nat_beq head.last_sequence (length rows))) wrong_count) _ h3 in
      let (_, e5, h5) = >>=-eq-ok (fail_if (not (head.last_hash == last)) wrong_head) _ h4 in
      let (_, e6, h6) =
        >>=-eq-ok (fail_if (not (consistent env db.idempotency db.audit_events)) inconsistent) _
          h5 in
      let count : length rows ≡ n = ap (λ p. p.0) (ok-injective h6) in
      let same : last ≡ hash = ap (λ p. p.1) (ok-injective h6) in
      (
        length-map decoded rows ∙ count,
        subst (IsLinked genesis_hash (chain_events db)) same
            (verify_rows-IsLinked 1 genesis_hash last rows e3),
      )

  -- Two databases that `verify_audit_chain` accepts with one number of events and one head hash
  -- have the same canonical event texts in the same order, or at some position of the two chains
  -- two different canonical texts with one SHA-256 hash; provided that the canonical text of an
  -- event determines its previous hash.
  pub verify_audit_chain-tamper :
      ((e f : AuditEvent F)
        → canonical_event_bytes env e ≡ canonical_event_bytes env f
        → e.previous_hash ≡ f.previous_hash)
      → (db db' : Database F) (n : ℕ) (hash : String) → verify_audit_chain env db ≡ ok (n, hash)
      → verify_audit_chain env db' ≡ ok (n, hash)
      → (map (canonical_event_bytes env) (chain_events db)
          ≡ map (canonical_event_bytes env) (chain_events db'))
        ⊎ Collision sha256
            (map (canonical_event_bytes env) (chain_events db))
            (map (canonical_event_bytes env) (chain_events db'))
  verify_audit_chain-tamper back db db' n hash h k =
      let (count, linked) = verify_audit_chain-IsLinked db n hash h in
      let (count', linked') = verify_audit_chain-IsLinked db' n hash k in
      elim (Linked-unique sha256 (λ e. e.previous_hash) (λ e. e.event_hash)
        (canonical_event_bytes env) back genesis_hash genesis_hash hash (chain_events db)
        (chain_events db') (count ∙ sym count') linked linked') [
          | inl (_, same) ↦ inl same
          | inr c ↦ inr c
        ]
