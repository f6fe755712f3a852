-- ===== src/Durable.antt =====
-- The SQLite idempotency store (src/operations/durable_idempotency.py). The table is a dictionary
-- of rows by `key_sha256`, its primary key; a statement is a function on the table. SHA-256 of a
-- request id is the parameter `sha256`, and `_utc_now()` is the argument `now`.
pub mod Machine
pub mod Steps
pub mod Persistence
pub mod Reserving
pub mod Outcomes
pub mod Rows
mod Tests
use secure_swipe.Prelude.{
  ℕ, ◌+◌, String, Bool, true, false, not, Option, none, some, List, [], ◌∷◌, length, contains, ◌==◌,
  string_eq, if◌then◌else◌,
}
use secure_swipe.Prelude.Dict
use secure_swipe.Prelude.Dict.{Dict}
use secure_swipe.Prelude.Result.{Result, ok, err, ◌>>=◌, fail_if}
use secure_swipe.Prelude.Text.{is_sha256, is_ascii}

pub data State : Type 0 where
  pending completed failed unresolved : State

abbrev pub is_pending : State → Bool
is_pending pending = true
is_pending _ = false

abbrev pub allowed_decisions : List String
allowed_decisions = "human_review" ∷ "below_review_threshold" ∷ "unavailable_fail_closed" ∷ []

-- The exceptions that an operation raises, `DurableIdempotencyError` by its message.
pub data DurableError : Type 0 where
  bad_digest not_an_owner decision_not_allowed : DurableError
  idempotency_conflict unresolved_request in_flight not_ascii : DurableError

pub record Reservation : Type 0 where
  pub key_sha256 : String
  pub owner : Bool
  pub state : State
  pub decision : Option String
  pub model_version : Option String
  pub audit_event_hash : Option String

-- A row of the table `idempotency`, without its key.
pub record Row : Type 0 where
  pub input_digest_sha256 : String
  pub state : State
  pub decision : Option String
  pub model_version : Option String
  pub audit_event_hash : Option String
  pub created_utc : String
  pub resolved_utc : Option String

abbrev pub Table : Type 0
Table = Dict String Row

-- `UPDATE … SET state = UNRESOLVED, resolved_utc = ? WHERE state = PENDING` on one row.
abbrev pub recover_row : String → Row → Row
recover_row now row =
    if is_pending row.state then record row { state = unresolved; resolved_utc = some now } else row

unfoldable pub pending_count : Table → ℕ
pending_count [] = 0
pending_count ((_, row) ∷ t) = (if is_pending row.state then 1 else 0) + pending_count t

unfoldable pub update_all : (Row → Row) → Table → Table
update_all f [] = []
update_all f ((k, row) ∷ t) = (k, f row) ∷ update_all f t

-- `_recover`: the new table and the number of rows changed.
unfoldable pub recover : String → Table → Table × ℕ
unfolding update_all pending_count
recover now t = (update_all (recover_row now) t, pending_count t)

-- `UPDATE … WHERE key_sha256 = ?`
unfoldable pub update : String → (Row → Row) → Table → Table
update k f [] = []
update k f ((j, row) ∷ t) =
    let rest = update k f t in if j == k then (j, f row) ∷ rest else (j, row) ∷ rest

abbrev pub require_sha256 : String → Result DurableError (Unit {0})
require_sha256 value = fail_if (not (is_sha256 value)) bad_digest

abbrev pub owned : String → Reservation
owned key = record {
  key_sha256 = key;
  owner = true;
  state = pending;
  decision = none;
  model_version = none;
  audit_event_hash = none;
}

-- What a completed row is replayed as.
abbrev pub replayed : String → Row → Reservation
replayed key row = record {
  key_sha256 = key;
  owner = false;
  state = completed;
  decision = row.decision;
  model_version = row.model_version;
  audit_event_hash = row.audit_event_hash;
}

abbrev pub new_row : String → String → Row
new_row digest now = record {
  input_digest_sha256 = digest;
  state = pending;
  decision = none;
  model_version = none;
  audit_event_hash = none;
  created_utc = now;
  resolved_utc = none;
}

-- The branches of `reserve` on the row's state.
abbrev pub reserve_state : State → String → Row → Table → Table × Result DurableError Reservation
reserve_state unresolved key row t = (t, err unresolved_request)
reserve_state pending key row t = (t, err in_flight)
reserve_state failed key row t =
    (update key (λ r. record r { state = pending; resolved_utc = none }) t, ok (owned key))
reserve_state completed key row t = (t, ok (replayed key row))

abbrev pub reserve_row :
    Option Row → String → String → String → Table → Table × Result DurableError Reservation
reserve_row none key digest now t = (Dict.put t key (new_row digest now), ok (owned key))
reserve_row (some row) key digest now t =
    if not (row.input_digest_sha256 == digest)
    then (t, err idempotency_conflict)
    else reserve_state row.state key row t

module _ (sha256 : String → String) where
  unfoldable pub key_digest : String → Result DurableError String
  key_digest request_id = if is_ascii request_id then ok (sha256 request_id) else err not_ascii

  unfoldable pub reserve :
      String → String → String → Table → Table × Result DurableError Reservation
  unfolding key_digest
  reserve request_id digest now t =
      if not (is_sha256 digest) then (t, err bad_digest) else elim (key_digest request_id) [
        | err e ↦ (t, err e)
        | ok key ↦ reserve_row (Dict.get t key) key digest now t
      ]

  unfoldable pub state_of : String → Table → Result DurableError (Option State)
  unfolding key_digest
  state_of request_id t = do
    key ← key_digest request_id
    ok (elim (Dict.get t key) [ none ↦ none | some row ↦ some row.state ])

-- `… WHERE key_sha256 = ? AND state = PENDING`: a row in another state is left alone.
abbrev pub complete_row : String → String → String → String → Row → Row
complete_row decision version hash now row =
    if is_pending row.state
    then record row {
      state = completed;
      decision = some decision;
      model_version = some version;
      audit_event_hash = some hash;
      resolved_utc = some now;
    }
    else row

-- The statement and its commit; a rollback leaves the table as it was.
unfoldable pub complete :
    Reservation → String → String → String → String → Table → Table × Result DurableError (Unit {0})
complete reservation decision version hash now t =
    if not reservation.owner
    then (t, err not_an_owner)
    else if not (contains allowed_decisions decision)
    then (t, err decision_not_allowed)
    else if not (is_sha256 hash)
    then (t, err bad_digest)
    else (update reservation.key_sha256 (complete_row decision version hash now) t, ok tt)

unfoldable pub fail : Reservation → Bool → String → Table → Table × Result DurableError (Unit {0})
fail reservation audit_event_durable now t =
    if not reservation.owner then (t, err not_an_owner) else (
      update reservation.key_sha256
          (λ row. record row {
            state = if audit_event_durable then unresolved else failed;
            resolved_utc = some now;
          })
          t,
      ok tt,
    )

unfoldable pub count : Table → ℕ
count t = length t
