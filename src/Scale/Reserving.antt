-- ===== src/Scale/Reserving.antt =====
-- What `reserve` and `complete_reservation` (api/postgres_idempotency.py) say of a settled key.
use secure_swipe.Prelude.{
  ◌≡◌, refl, subst, sym, ap, ◌∙◌, inl, inr, String, true, some, string_eq, Bool-cases, Option-cases,
  beq_refl,
}
use secure_swipe.Prelude.Int.{ℤ}
use secure_swipe.Prelude.Json.{is_object}
use secure_swipe.Prelude.Dict
use secure_swipe.Prelude.Dict.{Dict, get-put_same}
use secure_swipe.Prelude.Result.{Result, ok, err}
use secure_swipe.Prelude.Text.{is_sha256}
use secure_swipe.Scale.Response.{Response, dump, clean, Environment}
use secure_swipe.Scale.Audit.{AuditEvent, Row, Database, response_hash}
use secure_swipe.Scale.Stored.{
  ScaleError, Reservation, completed, is_owner, replayed, from_completed, from_row,
}
use secure_swipe.Scale.Store.{reserve, reserve_key, complete_reservation, completion, finish}
use secure_swipe.Scale.Built.{completed_row}
use secure_swipe.Scale.Commit.{IsCommitted, completion-IsCommitted}
use secure_swipe.Scale.Settled.{IsSettled, Settles, from_row-Reads, Reads, from_row-IsSettled}

module _ {F : Type 0} (env : Environment F) where
  open env use {hmac_key, sha256_digest, validate_dump}

  from_completed-completed_row :
      (row : Row F) (response : Response F) (key digest receipt : String)
      → is_sha256 receipt ≡ true
      → from_completed env (completed_row env row response receipt) key digest
        ≡ ok (replayed key digest response (response_hash env response) receipt)
  unfolding is_object clean dump
  from_completed-completed_row row response key digest receipt valid =
      rw (sha256_digest (env.canonical (dump response)))
        (rw (validate_dump response) (rw (beq_refl (response_hash env response)) (rw valid refl)))

  finish-Settles :
      (now : ℤ) (identifier : String) (at : ℤ) (r : Reservation F) (response : Response F)
      (db : Database F) (m : Result ScaleError (AuditEvent F × Database F))
      → ((db' : Database F) (event : AuditEvent F)
          → m ≡ ok (event, db')
          → IsCommitted env now identifier at r response db event db')
      → Settles env r.key_digest r.request_digest (finish env r response db m)
  finish-Settles now identifier at r response db (err e) h = tt
  finish-Settles now identifier at r response db (ok (event, db')) h =
      let c = h db' event refl in
      (
        response,
        event.event_hash,
        refl,
        refl,
        record {
          row = completed_row env c.row response event.event_hash;
          here =
              ap (λ rows. Dict.get rows r.key_digest) c.rows
              ∙ get-put_same db.idempotency r.key_digest r.key_digest _ (beq_refl r.key_digest);
          state = refl;
          same = c.same;
          hash = response_hash env response;
          answer =
              from_completed-completed_row c.row response r.key_digest r.request_digest
                event.event_hash (ap (λ e. is_sha256 e.event_hash) c.built.made ∙ sha256_digest _);
        },
      )

  pub complete_reservation-Settles :
      (now : ℤ) (identifier : String) (at : ℤ) (r : Reservation F) (response : Response F)
      (db : Database F)
      → Settles env r.key_digest r.request_digest
          (complete_reservation env now identifier at r response db)
  unfolding complete_reservation
  complete_reservation-Settles now identifier at r response db =
      elim (Bool-cases (is_owner r.kind)) [
        | inr other ↦ rw (other, complete_reservation) tt
        | inl mine ↦
            rw (mine, complete_reservation)
              (finish-Settles now identifier at r response db
                (completion env now identifier at r response db)
                (completion-IsCommitted env now identifier at r response db))
      ]

  -- What `reserve` answers about the key.
  abbrev pub Reserves : String → String → Database F × Result ScaleError (Reservation F) → Type 0
  Reserves key digest (db, err e) = Unit
  Reserves key digest (db, ok r) =
      (r.key_digest ≡ key)
      × (r.request_digest ≡ digest)
      × (r.kind ≡ completed → Settles env key digest (db, ok r))

  pub row_Reserves :
      (now : ℤ) (row : Row F) (key digest : String) (db : Database F)
      (m : Result ScaleError (Reservation F))
      → Dict.get db.idempotency key ≡ some row
      → from_row env now row key digest ≡ m
      → Reserves key digest (db, m)
  row_Reserves now row key digest db (err e) here h = tt
  row_Reserves now row key digest db (ok r) here h =
      let reads = subst (Reads env now row key digest) h (from_row-Reads env now row key digest) in
      (
        reads.0,
        reads.1,
        λ done.
            let (response, receipt, e, f, s) = reads.2 done in
            (
              response,
              receipt,
              e,
              f,
              subst (IsSettled env key digest response receipt) (sym here) s,
            ),
      )

  pub reserve-Reserves :
      (ttl now : ℤ) (identifier digest : String) (db : Database F)
      → Reserves (hmac_key identifier) digest (reserve env ttl now identifier digest db)
  unfolding reserve reserve_key
  reserve-Reserves ttl now identifier digest db = elim (Bool-cases (is_sha256 digest)) [
    | inr bad ↦ rw (bad, reserve) tt
    | inl good ↦ elim (Option-cases (Dict.get db.idempotency (hmac_key identifier))) [
      | inr (row, here) ↦
          rw (good, reserve, here, reserve_key)
            (row_Reserves now row (hmac_key identifier) digest db _ here refl)
      | inl absent ↦ rw (good, reserve, absent, reserve_key) (refl, refl, λ h. cc)
    ]
  ]

  -- A settled key: `reserve` changes nothing and returns the response.
  pub reserve-IsSettled :
      (ttl now : ℤ) (identifier digest receipt : String) (response : Response F) (db : Database F)
      (s : IsSettled env
        (hmac_key identifier)
        digest
        response
        receipt
        (Dict.get db.idempotency (hmac_key identifier)))
      → is_sha256 digest ≡ true
      → reserve env ttl now identifier digest db
        ≡ (db, ok (replayed (hmac_key identifier) digest response s.hash receipt))
  unfolding reserve reserve_key
  reserve-IsSettled ttl now identifier digest receipt response db s good = rw good (
      rw (s.here, reserve_key)
        (ap (λ m. (db, m)) (from_row-IsSettled env now _ digest response receipt _ s)))
