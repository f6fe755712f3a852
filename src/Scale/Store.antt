-- ===== src/Scale/Store.antt =====
-- Durable reservations (api/postgres_idempotency.py, PostgresIdempotencyStore): each method's
-- transaction as one step of the database, which an error rolls back. `now` is the transaction's
-- `clock_timestamp()`, one instant for all its readings. Timers, observers and the connection
-- pool are left out; an unavailable pool is a step that does not happen.
use secure_swipe.Prelude.{
  ◌+◌, ◌-◌, ◌&&◌, ◌||◌, not, String, none, some, ◌==◌, string_eq, if◌then◌else◌,
}
use secure_swipe.Prelude.Int.{ℤ, ◌+ℤ◌}
use secure_swipe.Prelude.Dict
use secure_swipe.Prelude.Dict.{Dict}
use secure_swipe.Prelude.Result.{Result, ok, err, ◌>>=◌, ◌>>◌, fail_if, of_option}
use secure_swipe.Prelude.Text.{is_sha256}
use secure_swipe.Scale.Response.{Response, dump, clean, Environment}
use secure_swipe.Scale.Audit.{
  AuditEvent, AuditError, State, Row, Database, audit_chain_id, response_hash, build_audit_event,
}
use secure_swipe.Scale.Stored.{
  Reservation, ScaleError, bad_request_digest, bare, complete_row, conflict, from_row, insert_event,
  is_owner, is_reserved, is_stale, move_head, new_row, not_owner, owner, replayed,
  stale_reservation, stored_response_integrity, unavailable,
}

module _ {F : Type 0} (env : Environment F) where
  open env use {hmac_key}

  -- The transaction of `reserve`, with the key digest computed. `ttl` is `reservation_ttl`.
  unfoldable pub reserve_key :
      ℤ → ℤ → String → String → Database F → Database F × Result ScaleError (Reservation F)
  unfolding Dict.get Dict.put ◌+ℤ◌ from_row
  reserve_key ttl now key digest db = elim (Dict.get db.idempotency key) [
    | none ↦ (
      record db { idempotency = Dict.put db.idempotency key (new_row digest (now +ℤ ttl)) },
      ok (bare owner key digest),
    )
    | some row ↦ (db, from_row env now row key digest)
  ]

  unfoldable pub reserve :
      ℤ → ℤ → String → String → Database F → Database F × Result ScaleError (Reservation F)
  unfolding reserve_key
  reserve ttl now request_id digest db =
      if not (is_sha256 digest)
      then (db, err bad_request_digest)
      else reserve_key ttl now (hmac_key request_id) digest db

  -- `_read`
  unfoldable pub read : ℤ → String → String → Database F → Result ScaleError (Reservation F)
  unfolding Dict.get from_row
  read now key digest db = elim (Dict.get db.idempotency key) [
    | none ↦ err unavailable
    | some row ↦ from_row env now row key digest
  ]

  abbrev pub audit_result : {A : Type 0} → Result AuditError A → Result ScaleError A
  audit_result (ok a) = ok a
  audit_result (err e) = err stored_response_integrity

  -- The writes of `complete_reservation`, once the reservation is locked.
  abbrev pub commit_event :
      Reservation F → Response F → AuditEvent F → Database F → Result ScaleError (Database F)
  commit_event r response event db = do
    events ← of_option (insert_event event db.audit_events) unavailable
    rows ←
        of_option
          (complete_row r.key_digest r.request_digest (dump response) (response_hash env response)
            event.event_hash db.idempotency)
          stale_reservation
    heads ←
        of_option
          (move_head event.chain_id event.sequence event.event_hash (event.sequence - 1)
            event.previous_hash db.audit_chain_heads)
          stored_response_integrity
    ok (record { idempotency = rows; audit_chain_heads = heads; audit_events = events })

  -- The transaction of `complete_reservation`: the event and the database that it commits.
  unfoldable pub completion :
      ℤ
      → String
      → ℤ
      → Reservation F
      → Response F
      → Database F
      → Result ScaleError (AuditEvent F × Database F)
  unfolding Dict.get Dict.put build_audit_event insert_event
  completion now identifier occurred_at r response db = do
    row ← of_option (Dict.get db.idempotency r.key_digest) unavailable
    fail_if (not (row.request_digest == r.request_digest)) conflict
    fail_if (not (is_reserved row.state) || is_stale now row) stale_reservation
    head ← of_option (Dict.get db.audit_chain_heads audit_chain_id) stored_response_integrity
    event ← audit_result (
        build_audit_event env identifier audit_chain_id (head.last_sequence + 1) head.last_hash
          r.key_digest r.request_digest response occurred_at)
    db ← commit_event r response event db
    ok (event, db)

  abbrev pub finish :
      Reservation F
      → Response F
      → Database F
      → Result ScaleError (AuditEvent F × Database F)
      → Database F × Result ScaleError (Reservation F)
  finish r response db (err e) = (db, err e)
  finish r response db (ok (event, db')) = (
    db',
    ok (
        replayed r.key_digest r.request_digest response (response_hash env response)
          event.event_hash),
  )

  unfoldable pub complete_reservation :
      ℤ
      → String
      → ℤ
      → Reservation F
      → Response F
      → Database F
      → Database F × Result ScaleError (Reservation F)
  unfolding dump clean completion
  complete_reservation now identifier occurred_at r response db =
      if not (is_owner r.kind)
      then (db, err not_owner)
      else if not (clean (dump response))
      then (db, err stored_response_integrity)
      else finish r response db (completion now identifier occurred_at r response db)

module _ {F : Type 0} where
  abbrev pub fail_row : String → Row F → Row F
  fail_row digest row =
      if row.request_digest == digest && is_reserved row.state
      then record row { state = State.failed }
      else row

  unfoldable pub fail : Reservation F → Database F → Database F × Result ScaleError (Unit {0})
  unfolding Dict.get Dict.put
  fail r db =
      if not (is_owner r.kind)
      then (db, err not_owner)
      else elim (Dict.get db.idempotency r.key_digest) [
        | none ↦ (db, ok tt)
        | some row ↦ (
          record db {
            idempotency = Dict.put db.idempotency r.key_digest (fail_row r.request_digest row);
          },
          ok tt,
        )
      ]
