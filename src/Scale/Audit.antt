-- ===== src/Scale/Audit.antt =====
-- Canonical audit events and the verification of the whole chain (api/postgres_audit.py), over
-- the tables of the two migrations. `uuid.uuid4()` and the clock are arguments.
use secure_swipe.Prelude.{
  ℕ, suc, ◌&&◌, ◌||◌, not, String, Bool, true, false, Option, none, some, List, [], ◌∷◌, length,
  keep, ◌==◌, string_eq, option_eq, nat_beq, ltb, leb,
}
use secure_swipe.Prelude.Int.{ℤ}
use secure_swipe.Prelude.Json.{Json, text, number, object, field, end}
use secure_swipe.Prelude.Dict
use secure_swipe.Prelude.Dict.{Dict}
use secure_swipe.Prelude.Result.{Result, ok, err, ◌>>=◌, ◌>>◌, fail_if, of_option}
use secure_swipe.Prelude.Sorting.{sort}
use secure_swipe.Prelude.Text.{is_sha256}
use secure_swipe.Scale.Response.{Response, decision_text, dump, Environment}

pub data AuditError : Type 0 where
  bad_sequence bad_digest bad_event_id bad_encoding wrong_previous wrong_decision : AuditError
  wrong_response wrong_event_hash no_head not_singular not_contiguous wrong_count : AuditError
  wrong_head inconsistent : AuditError

-- The dataclass, and a row of `audit_events`: the same columns.
pub record AuditEvent (F : Type 0) : Type 0 where
  pub event_id : String
  pub chain_id : String
  pub sequence : ℕ
  pub previous_hash : String
  pub key_digest : String
  pub request_digest : String
  pub decision : String
  pub bounded_response : Json F
  pub response_sha256 : String
  pub occurred_at : ℤ
  pub event_hash : String

pub record Head : Type 0 where
  pub last_sequence : ℕ
  pub last_hash : String

pub data State : Type 0 where
  reserved completed failed : State

-- A row of `secureswipe_idempotency`, by its key digest. The columns that no code reads
-- (`created_at`, `updated_at`, `completed_at`, `retention_until`) are left out.
pub record Row (F : Type 0) : Type 0 where
  pub request_digest : String
  pub state : State
  pub reservation_expires_at : ℤ
  pub response_document : Option (Json F)
  pub response_sha256 : Option String
  pub audit_receipt_sha256 : Option String

pub record Database (F : Type 0) : Type 0 where
  pub idempotency : Dict String (Row F)
  pub audit_chain_heads : Dict String Head
  pub audit_events : List (AuditEvent F)

abbrev pub audit_chain_id : String
audit_chain_id = "primary"

abbrev pub genesis_hash : String
genesis_hash = "0000000000000000000000000000000000000000000000000000000000000000"

abbrev pub is_completed : State → Bool
is_completed completed = true
is_completed _ = false

module _ {F : Type 0} where
  abbrev pub seq_leb : AuditEvent F → AuditEvent F → Bool
  seq_leb e f = leb e.sequence f.sequence

  -- The `ON` condition of the join.
  abbrev pub joins : String → Row F → AuditEvent F → Bool
  joins key row e = e.key_digest == key && some e.event_hash == row.audit_receipt_sha256

  unfoldable pub any_joins : String → Row F → List (AuditEvent F) → Bool
  any_joins key row [] = false
  any_joins key row (e ∷ es) = joins key row e || any_joins key row es

  unfoldable pub joins_any : Dict String (Row F) → AuditEvent F → Bool
  joins_any [] e = false
  joins_any ((key, row) ∷ rows) e = joins key row e || joins_any rows e

  unfoldable pub every_event : (AuditEvent F → Bool) → List (AuditEvent F) → Bool
  every_event p [] = true
  every_event p (e ∷ es) = p e && every_event p es

  unfoldable pub every_row : (String → Row F → Bool) → Dict String (Row F) → Bool
  every_row p [] = true
  every_row p ((key, row) ∷ rows) = p key row && every_row p rows

  abbrev pub is_foreign : AuditEvent F → Bool
  is_foreign e = not (e.chain_id == audit_chain_id)

module _ {F : Type 0} (env : Environment F) where
  open env use {model_validate, canonical, sha256, isoformat, is_uuid, jsonb_eq}

  -- `response_sha256`
  abbrev pub response_hash : Response F → String
  response_hash r = sha256 (canonical (dump r))

  -- The keys in the order in which `json.dumps(sort_keys=True)` writes them.
  abbrev pub event_document : AuditEvent F → Json F
  event_document e = object (
      field "audit_schema_version" (text "postgres-audit-v1") (
        field "bounded_response" e.bounded_response (
          field "chain_id" (text e.chain_id) (
            field "decision" (text e.decision) (
              field "event_id" (text e.event_id) (
                field "idempotency_key_hmac_sha256" (text e.key_digest) (
                  field "occurred_at" (text (isoformat e.occurred_at)) (
                    field "previous_hash" (text e.previous_hash) (
                      field "request_digest_sha256" (text e.request_digest) (
                        field "response_sha256" (text e.response_sha256)
                          (field "sequence" (number e.sequence) end)))))))))))

  abbrev pub canonical_event_bytes : AuditEvent F → String
  canonical_event_bytes e = canonical (event_document e)

  abbrev pub unsigned_event :
      String → String → ℕ → String → String → String → Response F → ℤ → AuditEvent F
  unsigned_event identifier chain_id sequence previous_hash key_digest request_digest response
        occurred_at =
      record {
        event_id = identifier;
        chain_id = chain_id;
        sequence = sequence;
        previous_hash = previous_hash;
        key_digest = key_digest;
        request_digest = request_digest;
        decision = decision_text response.decision;
        bounded_response = dump response;
        response_sha256 = response_hash response;
        occurred_at = occurred_at;
        event_hash = "";
      }

  unfoldable pub build_audit_event :
      String
      → String
      → ℕ
      → String
      → String
      → String
      → Response F
      → ℤ
      → Result AuditError (AuditEvent F)
  build_audit_event identifier chain_id sequence previous_hash key_digest request_digest response
        occurred_at =
      do
        fail_if (ltb sequence 1) bad_sequence
        fail_if (not (is_sha256 previous_hash && is_sha256 key_digest && is_sha256 request_digest))
            bad_digest
        fail_if (not (is_uuid identifier)) bad_event_id
        let e =
            unsigned_event identifier chain_id sequence previous_hash key_digest request_digest
              response occurred_at
        ok (record e { event_hash = sha256 (canonical_event_bytes e) })

  -- Every error in the `try` becomes one.
  abbrev pub recoded : {A : Type 0} → Result AuditError A → Result AuditError A
  recoded (err e) = err bad_encoding
  recoded (ok a) = ok a

  abbrev pub rebuild : AuditEvent F → Result AuditError (AuditEvent F)
  rebuild row = do
    response ← of_option (model_validate row.bounded_response) bad_encoding
    recoded (
        build_audit_event row.event_id row.chain_id row.sequence row.previous_hash row.key_digest
          row.request_digest response row.occurred_at)

  unfoldable pub validate_event_row : AuditEvent F → String → Result AuditError String
  unfolding build_audit_event
  validate_event_row row expected_previous = do
    e ← rebuild row
    fail_if (not (e.previous_hash == expected_previous)) wrong_previous
    fail_if (not (e.decision == row.decision)) wrong_decision
    fail_if (not (e.response_sha256 == row.response_sha256)) wrong_response
    fail_if (not (e.event_hash == row.event_hash)) wrong_event_hash
    ok e.event_hash

  -- The loop over the rows, from an expected sequence and hash.
  unfoldable pub verify_rows : ℕ → String → List (AuditEvent F) → Result AuditError String
  unfolding validate_event_row
  verify_rows expected_sequence expected_previous [] = ok expected_previous
  verify_rows expected_sequence expected_previous (row ∷ rows) = do
    fail_if (not (nat_beq row.sequence expected_sequence)) not_contiguous
    hash ← validate_event_row row expected_previous
    verify_rows (suc expected_sequence) hash rows

  -- `<>` on a column that may be NULL, which is then not true.
  abbrev pub same_or_null : {A : Type 0} → (A → Bool) → Option A → Bool
  same_or_null test none = true
  same_or_null test (some a) = test a

  -- A joined pair that the query does not count.
  abbrev pub agrees : Row F → AuditEvent F → Bool
  agrees row e =
      is_completed row.state
      && row.request_digest == e.request_digest
      && same_or_null (λ h. h == e.response_sha256) row.response_sha256
      && same_or_null (λ d. jsonb_eq d e.bounded_response) row.response_document

  abbrev pub row_consistent : List (AuditEvent F) → String → Row F → Bool
  row_consistent events key row =
      (not (is_completed row.state) || any_joins key row events)
      && every_event (λ e. not (joins key row e) || agrees row e) events

  -- `inconsistent_count = 0`
  unfoldable pub consistent : Dict String (Row F) → List (AuditEvent F) → Bool
  unfolding any_joins joins_any every_event every_row
  consistent rows events =
      every_row (row_consistent events) rows && every_event (joins_any rows) events

  -- The number of events and the last hash.
  unfoldable pub verify_audit_chain : Database F → Result AuditError (ℕ × String)
  unfolding Dict.get keep sort verify_rows consistent
  verify_audit_chain db = do
    head ← of_option (Dict.get db.audit_chain_heads audit_chain_id) no_head
    fail_if
        (not (nat_beq (length db.audit_chain_heads) 1)
          || not (nat_beq (length (keep is_foreign db.audit_events)) 0))
        not_singular
    let rows = sort seq_leb (keep (λ e. not (is_foreign e)) db.audit_events)
    hash ← verify_rows 1 genesis_hash rows
    fail_if (not (nat_beq head.last_sequence (length rows))) wrong_count
    fail_if (not (head.last_hash == hash)) wrong_head
    fail_if (not (consistent db.idempotency db.audit_events)) inconsistent
    ok (length rows, hash)
