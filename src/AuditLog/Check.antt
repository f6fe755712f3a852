-- ===== src/AuditLog/Check.antt =====
-- The data of the audit log of api/audit.py, and its verification (_validate_event,
-- verify_audit_log).
use secure_swipe.Prelude.{
  ◌≡◌, ℕ, ◌&&◌, ◌||◌, not, String, Bool, true, false, Option, none, some, List, [], ◌∷◌, length, Eq,
  ◌==◌, string_eq, nat_eq, pair_eq, nat_beq, contains,
}
use secure_swipe.Prelude.Result.{Result, ok, err, ◌>>=◌, ◌>>◌, fail_if, of_option}
use secure_swipe.Prelude.Text.{is_sha256, is_lower_hex, codes, every}
use secure_swipe.Registry.{is_request_id}

pub data LogError : Type 0 where
  bad_line bad_schema bad_event_id bad_request_id bad_timestamp bad_digest bad_model_version :
      LogError
  not_finite out_of_range negative_latency bad_decision bad_status not_canonical : LogError
  reused_event_id reused_index broken_chain wrong_hash missing_log missing_anchor : LogError
  bad_anchor wrong_anchor no_decisions bad_api_version bad_latency bad_fingerprint changed :
      LogError

-- An event without its hash.
pub record Evidence (F : Type 0) : Type 0 where
  pub schema_version : String
  pub api_schema_version : String
  pub event_id : String
  pub event_index : ℕ
  pub request_id : String
  pub occurred_at_utc : String
  pub idempotency_key_sha256 : String
  pub input_digest_sha256 : String
  pub model_fingerprint_sha256 : String
  pub model_version : String
  pub score : F
  pub threshold : F
  pub decision : String
  pub latency_ms : F
  pub status : String
  pub previous_hash : String

pub record LoggedEvent (F : Type 0) : Type 0 where
  pub evidence : Evidence F
  pub event_hash : String

pub record Anchor : Type 0 where
  pub event_count : ℕ
  pub head_event_hash : String

-- The two files; `none` is a file that does not exist.
pub record Files (L : Type 0) : Type 0 where
  pub log : Option (List L)
  pub anchor : Option Anchor

-- `AuditDecision`, with the `uuid4().hex` that its event gets.
pub record AuditDecision (F : Type 0) : Type 0 where
  pub event_id : String
  pub model_fingerprint_sha256 : String
  pub model_version : String
  pub score : F
  pub threshold : F
  pub decision : String

-- The arguments of `append_inference`, with the time that it reads.
pub record Inference (F : Type 0) : Type 0 where
  pub request_id : String
  pub api_schema_version : String
  pub input_digest_sha256 : String
  pub latency_ms : F
  pub occurred_at : String

-- The writer's memory.
pub record AuditLog : Type 0 where
  pub event_count : ℕ
  pub head_event_hash : String

-- The libraries: `decode` is the strict JSON reader with the tests of the field names and types,
-- and reads back what `json.dumps` writes; a SHA-256 digest is 64 hexadecimal digits.
pub record Library (F L : Type 0) : Type 0 where
  pub encode : LoggedEvent F → L
  pub decode : L → Option (LoggedEvent F)
  pub decode_encode : (e : LoggedEvent F) → decode (encode e) ≡ some e
  pub sha256_canonical : Evidence F → String
  pub canonical_digest : (e : Evidence F) → is_sha256 (sha256_canonical e) ≡ true
  pub sha256 : String → String
  pub is_utc : String → Bool
  pub is_finite : F → Bool
  pub in_unit : F → Bool
  pub non_negative : F → Bool
  pub round_3 : F → F

abbrev pub genesis : String
genesis = "0000000000000000000000000000000000000000000000000000000000000000"

-- `_EVENT_ID_PATTERN`
unfoldable pub is_event_id : String → Bool
unfolding codes every
is_event_id s = nat_beq (length (codes s)) 32 && every is_lower_hex (codes s)

abbrev pub lines_of : {L : Type 0} → Option (List L) → List L
lines_of none = []
lines_of (some lines) = lines

abbrev pub is_empty : {F : Type 0} → List (AuditDecision F) → Bool
is_empty [] = true
is_empty (d ∷ ds) = false

-- The anchor's part of `verify_audit_log`.
abbrev pub check_anchor :
    {L : Type 0} → Option Anchor → List L → String → Result LogError (ℕ × String)
check_anchor none [] head = ok (0, genesis)
check_anchor none (line ∷ lines) head = err missing_anchor
check_anchor (some anchor) lines head = do
  fail_if (not (is_sha256 anchor.head_event_hash)) bad_anchor
  fail_if (not (nat_beq anchor.event_count (length lines)) || not (anchor.head_event_hash == head))
      wrong_anchor
  ok (length lines, head)

module _ {F L : Type 0} ⦃line_eq : Eq L⦄ (lib : Library F L) where
  open lib use {
    encode, decode, sha256_canonical, sha256, is_utc, is_finite, in_unit, non_negative, round_3,
  }

  -- `_validate_event`, after the tests that `decode` makes.
  unfoldable pub validate_event : LoggedEvent F → Result LogError (Unit {0})
  unfolding is_event_id is_request_id is_sha256
  validate_event event = do
    let e = event.evidence
    fail_if (not (e.schema_version == "1.0") || not (e.api_schema_version == "1.0")) bad_schema
    fail_if (not (is_event_id e.event_id)) bad_event_id
    fail_if (not (is_request_id e.request_id)) bad_request_id
    fail_if (not (is_utc e.occurred_at_utc)) bad_timestamp
    fail_if
        (not (
          is_sha256 e.idempotency_key_sha256
          && is_sha256 e.input_digest_sha256
          && is_sha256 e.model_fingerprint_sha256
          && is_sha256 e.previous_hash
          && is_sha256 event.event_hash))
        bad_digest
    fail_if (e.model_version == "") bad_model_version
    fail_if (not (is_finite e.score && is_finite e.threshold && is_finite e.latency_ms)) not_finite
    fail_if (not (in_unit e.score) || not (in_unit e.threshold)) out_of_range
    fail_if (not (non_negative e.latency_ms)) negative_latency
    fail_if (not (e.decision == "human_review") && not (e.decision == "below_review_threshold"))
        bad_decision
    fail_if (not (e.status == "succeeded")) bad_status
    ok tt

  -- The body of the loop over the lines, with the ids and the request indexes seen so far.
  unfoldable pub check_line :
      String → List String → List (String × ℕ) → L → Result LogError (LoggedEvent F)
  unfolding validate_event contains
  check_line previous ids indexes line = do
    event ← of_option (decode line) bad_line
    validate_event event
    fail_if (not (encode event == line)) not_canonical
    fail_if (contains ids event.evidence.event_id) reused_event_id
    fail_if (contains indexes (event.evidence.request_id, event.evidence.event_index)) reused_index
    fail_if (not (event.evidence.previous_hash == previous)) broken_chain
    fail_if (not (event.event_hash == sha256_canonical event.evidence)) wrong_hash
    ok event

  unfoldable pub check_lines :
      String → List String → List (String × ℕ) → List L → Result LogError String
  unfolding check_line
  check_lines previous ids indexes [] = ok previous
  check_lines previous ids indexes (line ∷ lines) = do
    event ← check_line previous ids indexes line
    check_lines event.event_hash (event.evidence.event_id ∷ ids)
        ((event.evidence.request_id, event.evidence.event_index) ∷ indexes) lines

  abbrev pub verify_files : Option (List L) → Option Anchor → Result LogError (ℕ × String)
  verify_files none none = ok (0, genesis)
  verify_files none (some anchor) = err missing_log
  verify_files (some lines) anchor = do
    head ← check_lines genesis [] [] lines
    check_anchor anchor lines head

  -- `verify_audit_log`: the number of events and the last hash.
  unfoldable pub verify_audit_log : Files L → Result LogError (ℕ × String)
  unfolding check_lines
  verify_audit_log files = verify_files files.log files.anchor
