-- ===== src/Scale/Settled.antt =====
-- A key whose stored row answers each later request with the same response
-- (api/postgres_idempotency.py, `_from_row` and `reserve`).
use secure_swipe.Prelude.{
  ◌≡◌, refl, sym, ap, ◌∙◌, inl, inr, not, String, false, Option, some, List, ◌==◌, string_eq,
  Bool-cases, ◌||◌,
}
use secure_swipe.Prelude.Int.{ℤ}
use secure_swipe.Prelude.Json.{is_object}
use secure_swipe.Prelude.Dict
use secure_swipe.Prelude.Dict.{Dict, get-put_same}
use secure_swipe.Prelude.Result.{Result, ok, err, fail_if, of_option, >>=-eq-ok, ok-injective}
use secure_swipe.Prelude.Text.{is_sha256}
use secure_swipe.Scale.Response.{Response, clean, Environment}
use secure_swipe.Scale.Audit.{State, Row, Database, response_hash}
use secure_swipe.Scale.Stored.{
  ScaleError, Reservation, completed, is_owner, is_reserved, is_stale, replayed, from_completed,
  from_state, from_row, stored_response_integrity,
}
use secure_swipe.Scale.Machine.{Operation, run}
use secure_swipe.Scale.Keys.{run-closed}

module _ {F : Type 0} (env : Environment F) where
  open env use {hmac_key, sha256_digest, validate_dump}

  -- The row is completed for this request and decodes to this response and receipt.
  pub record IsSettled (key digest : String) (response : Response F) (receipt : String)
      (o : Option (Row F)) : Type 0 where
    pub row : Row F
    pub here : o ≡ some row
    pub state : row.state ≡ State.completed
    pub same : row.request_digest ≡ digest
    pub hash : String
    pub answer : from_completed env row key digest ≡ ok (replayed key digest response hash receipt)

  -- A reservation with a response stands for a settled row.
  abbrev pub Settles : String → String → Database F × Result ScaleError (Reservation F) → Type 0
  Settles key digest (db, err e) = Unit
  Settles key digest (db, ok r) =
      (response : Response F) × (receipt : String) × (r.response ≡ some response)
      × (r.audit_receipt_sha256 ≡ some receipt)
      × IsSettled key digest response receipt (Dict.get db.idempotency key)

  pub run-IsSettled :
      (ttl : ℤ) (ops : List (Operation F)) (key digest : String) (response : Response F)
      (receipt : String) (db : Database F)
      → IsSettled key digest response receipt (Dict.get db.idempotency key)
      → IsSettled key digest response receipt (Dict.get (run env ttl ops db).idempotency key)
  run-IsSettled ttl ops key digest response receipt db s = record {
    row = s.row;
    here = run-closed env ttl key ops db s.row s.here (ap is_reserved s.state);
    state = s.state;
    same = s.same;
    hash = s.hash;
    answer = s.answer;
  }

  from_completed-eq-ok :
      (row : Row F) (key digest : String) (r : Reservation F)
      → from_completed env row key digest ≡ ok r
      → (response : Response F) × (hash : String) × (receipt : String) × (r
          ≡ replayed key digest response hash receipt)
  from_completed-eq-ok row key digest r h =
      let (document, _, h1) =
        >>=-eq-ok (of_option row.response_document stored_response_integrity) _ h in
      let (hash, _, h2) =
        >>=-eq-ok (of_option row.response_sha256 stored_response_integrity) _ h1 in
      let (_, _, h3) =
        >>=-eq-ok
          (fail_if (not (is_object document) || not (is_sha256 hash)) stored_response_integrity) _
          h2 in
      let (_, _, h4) = >>=-eq-ok (fail_if (not (clean document)) stored_response_integrity) _ h3 in
      let (response, _, h5) =
        >>=-eq-ok (of_option (env.model_validate document) stored_response_integrity) _ h4 in
      let (_, _, h6) =
        >>=-eq-ok (fail_if (not (hash == response_hash env response)) stored_response_integrity) _
          h5 in
      let (receipt, _, h7) =
        >>=-eq-ok (of_option row.audit_receipt_sha256 stored_response_integrity) _ h6 in
      let (_, _, h8) =
        >>=-eq-ok (fail_if (not (is_sha256 receipt)) stored_response_integrity) _ h7 in
      (response, hash, receipt, sym (ok-injective h8))

  -- What a row that is read as completed is.
  abbrev pub Reads : ℤ → Row F → String → String → Result ScaleError (Reservation F) → Type 0
  Reads now row key digest (err e) = Unit
  Reads now row key digest (ok r) =
      (r.key_digest ≡ key)
      × (r.request_digest ≡ digest)
      × (r.kind ≡ completed
          → (response : Response F) × (receipt : String) × (r.response ≡ some response)
            × (r.audit_receipt_sha256 ≡ some receipt)
            × IsSettled key digest response receipt (some row))
      × (is_owner r.kind ≡ false)

  from_completed-Reads :
      (now : ℤ) (row : Row F) (key digest : String) (m : Result ScaleError (Reservation F))
      → row.state ≡ State.completed
      → row.request_digest ≡ digest
      → from_completed env row key digest ≡ m
      → Reads now row key digest m
  from_completed-Reads now row key digest (err e) done same h = tt
  from_completed-Reads now row key digest (ok r) done same h =
      let (response, hash, receipt, e) = from_completed-eq-ok row key digest r h in
      (
        ap (λ r. r.key_digest) e,
        ap (λ r. r.request_digest) e,
        (λ _. (
          response,
          receipt,
          ap (λ r. r.response) e,
          ap (λ r. r.audit_receipt_sha256) e,
          record {
            row = row;
            here = refl;
            state = done;
            same = same;
            hash = hash;
            answer = h ∙ ap ok e;
          },
        )),
        ap (λ r. is_owner r.kind) e,
      )

  from_state-Reads :
      (s : State) (now : ℤ) (row : Row F) (key digest : String)
      → row.state ≡ s
      → row.request_digest ≡ digest
      → Reads now row key digest (from_state env s now row key digest)
  from_state-Reads State.reserved now row key digest at same =
      elim (Bool-cases (is_stale now row)) [
        | inl late ↦ rw late (refl, refl, (λ h. cc), refl)
        | inr early ↦ rw early (refl, refl, (λ h. cc), refl)
      ]
  from_state-Reads State.failed now row key digest at same = (refl, refl, (λ h. cc), refl)
  from_state-Reads State.completed now row key digest at same =
      from_completed-Reads now row key digest (from_completed env row key digest) at same refl

  pub from_row-Reads :
      (now : ℤ) (row : Row F) (key digest : String)
      → Reads now row key digest (from_row env now row key digest)
  unfolding from_row
  from_row-Reads now row key digest = elim (Bool-cases (row.request_digest == digest)) [
    | inr other ↦ rw (other, from_row) tt
    | inl own ↦
        rw (own, from_row)
          (from_state-Reads row.state now row key digest refl ((string_eq.beq_iff _ _).0 own))
  ]

  -- A settled row is read as its response, whatever the time.
  pub from_row-IsSettled :
      (now : ℤ) (key digest : String) (response : Response F) (receipt : String)
      (o : Option (Row F)) (s : IsSettled key digest response receipt o)
      → from_row env now s.row key digest ≡ ok (replayed key digest response s.hash receipt)
  unfolding from_row
  from_row-IsSettled now key digest response receipt o s =
      rw ((string_eq.beq_iff _ _).1 s.same) (rw s.state s.answer)
