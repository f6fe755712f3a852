-- ===== src/Scale/Stored.antt =====
-- Reservations and the writes of single rows (api/postgres_idempotency.py), and how a stored row
-- is read.
use secure_swipe.Prelude.{
  ℕ, ◌&&◌, ◌||◌, not, String, Bool, true, false, Option, none, some, List, [], ◌∷◌, ◌++◌, ◌==◌,
  string_eq, if◌then◌else◌, nat_beq,
}
use secure_swipe.Prelude.Int.{ℤ, leb_ℤ}
use secure_swipe.Prelude.Json.{Json, is_object}
use secure_swipe.Prelude.Dict
use secure_swipe.Prelude.Dict.{Dict}
use secure_swipe.Prelude.Result.{Result, ok, err, ◌>>=◌, ◌>>◌, fail_if, of_option}
use secure_swipe.Prelude.Text.{is_sha256}
use secure_swipe.Scale.Response.{Response, clean, Environment}
use secure_swipe.Scale.Audit.{AuditEvent, Head, State, Row, response_hash, every_event}

pub data ScaleError : Type 0 where
  bad_request_digest conflict unavailable still_in_progress stale_reservation : ScaleError
  failed_reservation stored_response_integrity not_owner not_awaitable operation_failed : ScaleError

pub data ReservationKind : Type 0 where
  owner completed reserved stale failed : ReservationKind

pub record Reservation (F : Type 0) : Type 0 where
  pub kind : ReservationKind
  pub key_digest : String
  pub request_digest : String
  pub response : Option (Response F)
  pub response_hash : Option String
  pub audit_receipt_sha256 : Option String

abbrev pub is_owner : ReservationKind → Bool
is_owner owner = true
is_owner _ = false

abbrev pub is_reserved : State → Bool
is_reserved State.reserved = true
is_reserved _ = false

-- `UPDATE … audit_chain_heads … WHERE last_sequence = %s AND last_hash = %s`
abbrev pub move_head :
    String → ℕ → String → ℕ → String → Dict String Head → Option (Dict String Head)
move_head chain sequence hash old_sequence old_hash heads = elim (Dict.get heads chain) [
  | none ↦ none
  | some head ↦
      if nat_beq head.last_sequence old_sequence && head.last_hash == old_hash
      then some (Dict.put heads chain (record { last_sequence = sequence; last_hash = hash }))
      else none
]

module _ {F : Type 0} where
  abbrev pub bare : ReservationKind → String → String → Reservation F
  bare kind key digest = record {
    kind = kind;
    key_digest = key;
    request_digest = digest;
    response = none;
    response_hash = none;
    audit_receipt_sha256 = none;
  }

  abbrev pub replayed : String → String → Response F → String → String → Reservation F
  replayed key digest response hash receipt = record {
    kind = completed;
    key_digest = key;
    request_digest = digest;
    response = some response;
    response_hash = some hash;
    audit_receipt_sha256 = some receipt;
  }

  -- `reservation_expires_at <= clock_timestamp()`
  abbrev pub is_stale : ℤ → Row F → Bool
  is_stale now row = leb_ℤ row.reservation_expires_at now

  abbrev pub new_row : String → ℤ → Row F
  new_row digest expires = record {
    request_digest = digest;
    state = State.reserved;
    reservation_expires_at = expires;
    response_document = none;
    response_sha256 = none;
    audit_receipt_sha256 = none;
  }

  -- `INSERT INTO audit_events`, refused by a UNIQUE or a CHECK constraint.
  abbrev pub distinct_events : AuditEvent F → AuditEvent F → Bool
  distinct_events e f =
      not (e.event_id == f.event_id)
      && not (e.event_hash == f.event_hash)
      && not (e.key_digest == f.key_digest)
      && not (e.chain_id == f.chain_id && nat_beq e.sequence f.sequence)

  unfoldable pub insert_event : AuditEvent F → List (AuditEvent F) → Option (List (AuditEvent F))
  unfolding every_event
  insert_event e events =
      if every_event (distinct_events e) events
        && is_sha256 e.event_hash
        && is_sha256 e.response_sha256
      then some (events ++ e ∷ [])
      else none

  -- `UPDATE … SET state = 'completed' … WHERE … AND state = 'reserved'`: no row, or the table.
  abbrev pub complete_row :
      String
      → String
      → Json F
      → String
      → String
      → Dict String (Row F)
      → Option (Dict String (Row F))
  complete_row key digest document hash receipt rows = elim (Dict.get rows key) [
    | none ↦ none
    | some row ↦
        if row.request_digest == digest && is_reserved row.state
        then some (
            Dict.put rows key (record row {
              state = State.completed;
              response_document = some document;
              response_sha256 = some hash;
              audit_receipt_sha256 = some receipt;
            }))
        else none
  ]

module _ {F : Type 0} (env : Environment F) where
  open env use {model_validate}

  -- `_from_row`, on a completed row.
  abbrev pub from_completed : Row F → String → String → Result ScaleError (Reservation F)
  from_completed row key digest = do
    document ← of_option row.response_document stored_response_integrity
    stored_hash ← of_option row.response_sha256 stored_response_integrity
    fail_if (not (is_object document) || not (is_sha256 stored_hash)) stored_response_integrity
    fail_if (not (clean document)) stored_response_integrity
    response ← of_option (model_validate document) stored_response_integrity
    fail_if (not (stored_hash == response_hash env response)) stored_response_integrity
    receipt ← of_option row.audit_receipt_sha256 stored_response_integrity
    fail_if (not (is_sha256 receipt)) stored_response_integrity
    ok (replayed key digest response stored_hash receipt)

  abbrev pub from_state : State → ℤ → Row F → String → String → Result ScaleError (Reservation F)
  from_state State.reserved now row key digest =
      ok (bare (if is_stale now row then stale else reserved) key digest)
  from_state State.failed now row key digest = ok (bare failed key digest)
  from_state State.completed now row key digest = from_completed row key digest

  unfoldable pub from_row : ℤ → Row F → String → String → Result ScaleError (Reservation F)
  unfolding is_object clean
  from_row now row key digest =
      if not (row.request_digest == digest)
      then err conflict
      else from_state row.state now row key digest
