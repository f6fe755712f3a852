-- ===== src/AuditLog.antt =====
-- The append-only audit log of api/audit.py: one canonical JSON line for each decision, chained by
-- hashes, and an anchor with the count and the head. A file is its list of lines, of a type `L`
-- with a test of equality, each with its newline; the anchor is its fields. Reading, writing, locking and syncing files is
-- left out, and so is the decoding of a line to an event's typed fields: it is a parameter.
pub mod Check
pub mod Lines
pub mod Append
pub mod Reuse
mod Tests
use secure_swipe.Prelude.{
  ◌≡◌, ℕ, suc, ◌+◌, ◌&&◌, ◌||◌, not, String, Bool, true, false, Option, none, some, List, [], ◌∷◌,
  ◌++◌, map, length, Eq, ◌==◌, string_eq, nat_eq, pair_eq, if◌then◌else◌, nat_beq, contains,
}
use secure_swipe.Prelude.Result.{Result, ok, err, ◌>>=◌, ◌>>◌, fail_if, of_option}
use secure_swipe.Prelude.Text.{is_sha256, is_lower_hex, codes, every}
use secure_swipe.Registry.{is_request_id}
use secure_swipe.AuditLog.Check.{
  Anchor, AuditDecision, AuditLog, Evidence, Files, Inference, Library, LogError, LoggedEvent,
  bad_anchor, bad_api_version, bad_decision, bad_digest, bad_event_id, bad_fingerprint, bad_latency,
  bad_line, bad_model_version, bad_request_id, bad_schema, bad_status, bad_timestamp, broken_chain,
  changed, check_anchor, check_line, check_lines, genesis, is_empty, is_event_id, lines_of,
  missing_anchor, missing_log, negative_latency, no_decisions, not_canonical, not_finite,
  out_of_range, reused_event_id, reused_index, validate_event, verify_audit_log, verify_files,
  wrong_anchor, wrong_hash,
}

module _ {F L : Type 0} ⦃line_eq : Eq L⦄ (lib : Library F L) where
  open lib use {encode, sha256_canonical, sha256, is_finite, non_negative, round_3}

  -- `AuditLog.__init__`
  unfoldable pub open_log : Files L → Result LogError AuditLog
  unfolding verify_audit_log
  open_log files = do
    (count, head) ← verify_audit_log lib files
    ok (record { event_count = count; head_event_hash = head })

  abbrev pub unsigned : Inference F → String → ℕ → String → AuditDecision F → Evidence F
  unsigned inference idempotency_digest event_index previous_hash d = record {
    schema_version = "1.0";
    api_schema_version = inference.api_schema_version;
    event_id = d.event_id;
    event_index = event_index;
    request_id = inference.request_id;
    occurred_at_utc = inference.occurred_at;
    idempotency_key_sha256 = idempotency_digest;
    input_digest_sha256 = inference.input_digest_sha256;
    model_fingerprint_sha256 = d.model_fingerprint_sha256;
    model_version = d.model_version;
    score = d.score;
    threshold = d.threshold;
    decision = d.decision;
    latency_ms = round_3 inference.latency_ms;
    status = "succeeded";
    previous_hash = previous_hash;
  }

  abbrev pub signed : Evidence F → LoggedEvent F
  signed e = record { evidence = e; event_hash = sha256_canonical e }

  -- The loop over the decisions.
  unfoldable pub build_events :
      Inference F
      → String
      → ℕ
      → String
      → List (AuditDecision F)
      → Result LogError (List (LoggedEvent F))
  unfolding validate_event
  build_events inference idempotency_digest event_index previous_hash [] = ok []
  build_events inference idempotency_digest event_index previous_hash (d ∷ ds) = do
    fail_if (not (is_sha256 d.model_fingerprint_sha256)) bad_fingerprint
    let event = signed (unsigned inference idempotency_digest event_index previous_hash d)
    validate_event lib event
    events ← build_events inference idempotency_digest (suc event_index) event.event_hash ds
    ok (event ∷ events)

  unfoldable pub last_hash : String → List (LoggedEvent F) → String
  last_hash previous [] = previous
  last_hash previous (e ∷ es) = last_hash e.event_hash es

  -- The files and the writer once the lines and the anchor are written, and the new hashes.
  abbrev pub written : AuditLog → Files L → List (LoggedEvent F) → Files L × AuditLog × List String
  written writer files events =
      let count = writer.event_count + length events in
      let last = last_hash writer.head_event_hash events in
      (
        record {
          log = some (lines_of files.log ++ map encode events);
          anchor = some (record { event_count = count; head_event_hash = last });
        },
        record { event_count = count; head_event_hash = last },
        map (λ e. e.event_hash) events,
      )

  -- `append_inference`: the files and the writer after it, and the hashes that it returns.
  unfoldable pub append_inference :
      Inference F
      → List (AuditDecision F)
      → AuditLog
      → Files L
      → Result LogError (Files L × AuditLog × List String)
  unfolding verify_audit_log build_events last_hash
  append_inference inference decisions writer files = do
    fail_if (is_empty decisions) no_decisions
    fail_if (not (inference.api_schema_version == "1.0")) bad_api_version
    fail_if (not (is_sha256 inference.input_digest_sha256)) bad_digest
    fail_if (not (is_request_id inference.request_id)) bad_request_id
    fail_if (not (is_finite inference.latency_ms) || not (non_negative inference.latency_ms))
        bad_latency
    (count, head) ← verify_audit_log lib files
    fail_if (not (nat_beq count writer.event_count) || not (head == writer.head_event_hash)) changed
    events ← build_events inference (sha256 inference.request_id) 0 writer.head_event_hash decisions
    ok (written writer files events)
