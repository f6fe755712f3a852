-- ===== src/AuditLog/Tests.antt =====
-- The audit log with lines that are the lists of the fields, and one digest for all.
use secure_swipe.Prelude.{
  ◌≡◌, refl, ℕ, String, true, false, Option, none, some, List, [], ◌∷◌, string_eq, nat_eq, list_eq,
  pair_eq, contains,
}
use secure_swipe.Prelude.Result.{ok}
use secure_swipe.Prelude.Text.{is_sha256}
use secure_swipe.AuditLog.Check.{
  LoggedEvent, Files, AuditDecision, Inference, AuditLog, Library, genesis, lines_of,
  verify_audit_log,
}
use secure_swipe.AuditLog.{signed, unsigned, written, append_inference}
use secure_swipe.AuditLog.Lines.{seen_ids, seen_indexes, AllNew}
use secure_swipe.AuditLog.Append.{append_inference-verify}
use secure_swipe.AuditLog.Reuse.{IsErr, append_inference-reuse}

abbrev Line : Type 0
Line = List String × ℕ

abbrev ones : String
ones = "1111111111111111111111111111111111111111111111111111111111111111"

abbrev encode : LoggedEvent String → Line
encode e = (
  e.evidence.schema_version ∷ e.evidence.api_schema_version ∷ e.evidence.event_id
      ∷ e.evidence.request_id ∷ e.evidence.occurred_at_utc ∷ e.evidence.idempotency_key_sha256
      ∷ e.evidence.input_digest_sha256 ∷ e.evidence.model_fingerprint_sha256
      ∷ e.evidence.model_version ∷ e.evidence.score ∷ e.evidence.threshold ∷ e.evidence.decision
      ∷ e.evidence.latency_ms ∷ e.evidence.status ∷ e.evidence.previous_hash ∷ e.event_hash ∷ [],
  e.evidence.event_index,
)

abbrev decode : Line → Option (LoggedEvent String)
decode (a ∷ b ∷ c ∷ d ∷ e ∷ f ∷ g ∷ h ∷ i ∷ j ∷ k ∷ l ∷ m ∷ n ∷ o ∷ p ∷ [], index) = some (record {
  evidence = record {
    schema_version = a;
    api_schema_version = b;
    event_id = c;
    event_index = index;
    request_id = d;
    occurred_at_utc = e;
    idempotency_key_sha256 = f;
    input_digest_sha256 = g;
    model_fingerprint_sha256 = h;
    model_version = i;
    score = j;
    threshold = k;
    decision = l;
    latency_ms = m;
    status = n;
    previous_hash = o;
  };
  event_hash = p;
})
decode _ = none

ones-is_sha256 : is_sha256 ones ≡ true
unfolding is_sha256
ones-is_sha256 = refl

abbrev library : Library String Line
library = record {
  encode = encode;
  decode = decode;
  decode_encode = λ e. refl;
  sha256_canonical = λ e. ones;
  canonical_digest = λ e. ones-is_sha256;
  sha256 = λ s. ones;
  is_utc = λ s. true;
  is_finite = λ x. true;
  in_unit = λ x. true;
  non_negative = λ x. true;
  round_3 = λ x. x;
}

abbrev inference : Inference String
inference = record {
  request_id = "order-1";
  api_schema_version = "1.0";
  input_digest_sha256 = ones;
  latency_ms = "1.5";
  occurred_at = "2026-01-01T00:00:00.000000Z";
}

abbrev decision : String → AuditDecision String
decision event_id = record {
  event_id = event_id;
  model_fingerprint_sha256 = ones;
  model_version = "v1";
  score = "0.7";
  threshold = "0.5";
  decision = "human_review";
}

abbrev decisions : List (AuditDecision String)
decisions =
    decision "00000000000000000000000000000001" ∷ decision "00000000000000000000000000000002" ∷ []

abbrev no_files : Files Line
no_files = record { log = none; anchor = none }

abbrev writer : AuditLog
writer = record { event_count = 0; head_event_hash = genesis }

abbrev events : List (LoggedEvent String)
events =
    signed library
      (unsigned library inference ones 0 genesis (decision "00000000000000000000000000000001"))
    ∷ signed library
        (unsigned library inference ones 1 ones (decision "00000000000000000000000000000002"))
    ∷ []

abbrev after : Files Line × AuditLog × List String
after = written library writer no_files events

first_append : append_inference library inference decisions writer no_files ≡ ok after
unfolding append_inference
first_append = refl

new_ids : AllNew library (seen_ids library [] (lines_of no_files.log)) decisions
unfolding seen_ids contains
new_ids = (refl, (refl, tt))

new_request :
    (j : ℕ) → contains (seen_indexes library [] (lines_of no_files.log)) ("order-1", j) ≡ false
unfolding seen_indexes contains
new_request j = refl

append_inference-verify_example :
    verify_audit_log library after.0 ≡ ok (after.1.event_count, after.1.head_event_hash)
append_inference-verify_example =
    append_inference-verify library inference decisions writer after.1 no_files after.0 after.2
      first_append new_ids new_request

-- The same request id after a restart of the service.
abbrev retry : List (AuditDecision String)
retry = decision "00000000000000000000000000000003" ∷ []

abbrev poisoned : Files Line × AuditLog × List String
poisoned = written library after.1 after.0 (
    signed library
      (unsigned library inference ones 0 ones (decision "00000000000000000000000000000003"))
    ∷ [])

second_append : append_inference library inference retry after.1 after.0 ≡ ok poisoned
unfolding append_inference
second_append = refl

used_request : contains (seen_indexes library [] (lines_of after.0.log)) ("order-1", 0) ≡ true
unfolding seen_indexes contains
used_request = refl

append_inference-reuse_example :
    IsErr (verify_audit_log library poisoned.0)
    × ((next : Inference String) (ds : List (AuditDecision String)) (other : AuditLog)
        → IsErr (append_inference library next ds other poisoned.0))
append_inference-reuse_example =
    append_inference-reuse library inference retry after.1 after.0 poisoned second_append
      used_request
