-- ===== src/Scale/Tests.antt =====
-- The postgres-scale store on a small environment: texts of the right form in place of digests,
-- and a reader for the documents that `dump` writes.
use secure_swipe.Prelude.{
  ◌≡◌, ◌≢◌, ◌⊎◌, refl, ap, eq_iff, String, Bool, true, false, Option, none, some, List, [], ◌∷◌,
  ◌==◌, string_eq, if◌then◌else◌, map, length,
}
use secure_swipe.Prelude.HashChain.{Collision}
use secure_swipe.Prelude.Int.{ℤ, pos}
use secure_swipe.Prelude.Json.{Json, boolean, real, text, object, end, field}
use secure_swipe.Prelude.Dict
use secure_swipe.Prelude.Result.{ok, err}
use secure_swipe.Prelude.Text.{is_sha256}
use secure_swipe.Scale.Response.{
  Decision, human_review, below_review_threshold, decision_text, ModelProvenance, PolicyProvenance,
  Response, dump, Environment,
}
use secure_swipe.Scale.Audit.{
  Head, every_event, Database, genesis_hash, audit_chain_id, verify_audit_chain,
  canonical_event_bytes,
}
use secure_swipe.Scale.Stored.{conflict, owner, bare, new_row}
use secure_swipe.Scale.Store.{reserve}
use secure_swipe.Scale.Machine.{Operation, reserve_op, complete_op, fail_op, step, run}
use secure_swipe.Scale.Verifiable.{seeded}
use secure_swipe.Scale.Verify.{verify_audit_chain-run}
use secure_swipe.Scale.Transition.{Transition, step-Transition}
use secure_swipe.Scale.Lifecycle.{owns, IsRefusal, reserve-one_owner, reserve-expired}
use secure_swipe.Scale.Client.{Call, ExecutionResult, execute_detailed}
use secure_swipe.Scale.Replay.{execute_detailed-replay, execute_detailed-conflict}
use secure_swipe.Scale.Completion.{is_unseen, next_event}
use secure_swipe.Scale.Progress.{at_commit, owned, execute_detailed-owner}
use secure_swipe.Scale.Tamper.{chain_events, verify_audit_chain-tamper}

abbrev ones : String
ones = "1111111111111111111111111111111111111111111111111111111111111111"

abbrev twos : String
twos = "2222222222222222222222222222222222222222222222222222222222222222"

abbrev threes : String
threes = "3333333333333333333333333333333333333333333333333333333333333333"

-- `previous_hash` of an event document, by its place.
abbrev canonical : Json String → String
canonical
      (object (
        field _ _ (
          field _ _ (
            field _ _
              (field _ _ (field _ _ (field _ _ (field _ _ (field _ (text previous) _))))))))) =
    previous
canonical _ = ""

abbrev digest_of : String → String
digest_of s = if s == genesis_hash then ones else if s == ones then twos else threes

if-is_sha256 :
    (b : Bool) (s t : String)
    → is_sha256 s ≡ true
    → is_sha256 t ≡ true
    → is_sha256 (if b then s else t) ≡ true
if-is_sha256 true s t h k = h
if-is_sha256 false s t h k = k

digest_of-is_sha256 : (s : String) → is_sha256 (digest_of s) ≡ true
unfolding is_sha256
digest_of-is_sha256 s =
    if-is_sha256 (s == genesis_hash) ones (if s == ones then twos else threes) refl
      (if-is_sha256 (s == ones) twos threes refl refl)

abbrev key_of : String → String
key_of s = if s == "order-1" then ones else twos

key_of-is_sha256 : (s : String) → is_sha256 (key_of s) ≡ true
unfolding is_sha256
key_of-is_sha256 s = if-is_sha256 (s == "order-1") ones twos refl refl

-- Floats are texts.
abbrev read_model : Json String → Option ModelProvenance
read_model
      (object (
        field _ (text a) (
          field _ (text b) (
            field _ (text c) (
              field _ (text d) (
                field _ (text e) (
                  field _
                    (boolean f)
                    (field _ (boolean g) (field _ (boolean h) (field _ (boolean i) end)))))))))) =
    some (record {
      model_version = a;
      bundle_format_version = b;
      model_artifact_sha256 = c;
      training_data_fingerprint = d;
      evidence_category = e;
      historical_taint = f;
      decision_eligible = g;
      historical_metrics_claimed = h;
      evaluation_performed = i;
    })
read_model _ = none

abbrev read_policy : Json String → Option (PolicyProvenance String)
read_policy
      (object (
        field _ (text a) (
          field _ (text b) (
            field _ (real c) (
              field _ (text d) (
                field _ (text e) (
                  field _ (text f) (
                    field _ (boolean g) (
                      field _ (boolean h) (field _ (boolean i) (field _ (boolean j) end))))))))))) =
    some (record {
      producer_policy = a;
      producer_policy_sha256 = b;
      operating_threshold = c;
      threshold_source = d;
      threshold_model_linkage = e;
      threshold_purpose = f;
      threshold_calibrated = g;
      threshold_cost_optimal = h;
      threshold_razorpay_approved = i;
      threshold_production_approved = j;
    })
read_policy _ = none

abbrev assembled :
    Decision
    → Option ModelProvenance
    → Option (PolicyProvenance String)
    → String
    → Option (Response String)
assembled d none policy schema = none
assembled d (some model) none schema = none
assembled d (some model) (some policy) schema =
    some (record { decision = d; model = model; policy = policy; feature_schema_sha256 = schema })

abbrev model_validate : Json String → Option (Response String)
model_validate
      (object (
        field _ _ (
          field _ _ (
            field _ _ (
              field _ (text d) (
                field _ model (
                  field _ policy
                    (field _ (object (field _ _ (field _ (text schema) end))) end)))))))) =
    assembled (if d == "human_review" then human_review else below_review_threshold)
      (read_model model) (read_policy policy) schema
model_validate _ = none

read_decision :
    (d : Decision)
    → (if decision_text d == "human_review" then human_review else below_review_threshold) ≡ d
read_decision human_review = refl
read_decision below_review_threshold = refl

model_validate-dump : (r : Response String) → model_validate (dump r) ≡ some r
unfolding dump
model_validate-dump r = ap (λ d. some (record r { decision = d })) (read_decision r.decision)

abbrev environment : Environment String
environment = record {
  model_validate = model_validate;
  validate_dump = model_validate-dump;
  canonical = canonical;
  sha256 = digest_of;
  sha256_digest = digest_of-is_sha256;
  hmac_key = key_of;
  hmac_digest = key_of-is_sha256;
  isoformat = λ t. "2026-01-01T00:00:00+00:00";
  is_uuid = λ s. true;
  jsonb_eq = λ a b. true;
  jsonb_refl = λ a. refl;
}

abbrev ttl : ℤ
ttl = pos 100

abbrev answer : Response String
answer = record {
  decision = human_review;
  model = record {
    model_version = "v1";
    bundle_format_version = "2";
    model_artifact_sha256 = ones;
    training_data_fingerprint = twos;
    evidence_category = "synthetic";
    historical_taint = true;
    decision_eligible = false;
    historical_metrics_claimed = false;
    evaluation_performed = false;
  };
  policy = record {
    producer_policy = "policy";
    producer_policy_sha256 = threes;
    operating_threshold = "0.5";
    threshold_source = "config";
    threshold_model_linkage = "none";
    threshold_purpose = "demo";
    threshold_calibrated = false;
    threshold_cost_optimal = false;
    threshold_razorpay_approved = false;
    threshold_production_approved = false;
  };
  feature_schema_sha256 = twos;
}

abbrev first : Call String
first = record {
  request_id = "order-1";
  request_digest = ones;
  now = pos 0;
  polls = [];
  others = reserve_op (pos 0) "order-2" twos ∷ [];
  response = some answer;
  commit_now = pos 1;
  identifier = "event-1";
  occurred_at = pos 1;
  meanwhile = [];
}

-- The same request later, with an operation that raises.
abbrev again : Call String
again = record first { now = pos 500; response = none }

abbrev changed : Call String
changed = record again { request_digest = twos }

abbrev result : ExecutionResult String
result = record { response = answer; audit_receipt_sha256 = ones; replayed = false }

abbrev others : List (Operation String)
others = fail_op (bare owner twos twos) ∷ reserve_op (pos 2) "order-1" twos ∷ []

abbrev served : Database String
served = (execute_detailed environment ttl first seeded).0

first_answer : (execute_detailed environment ttl first seeded).1 ≡ ok result
unfolding execute_detailed is_sha256
first_answer = refl

served_chain : verify_audit_chain environment served ≡ ok (1, ones)
unfolding verify_audit_chain execute_detailed is_sha256
served_chain = refl

execute_detailed-replay_example :
    execute_detailed environment ttl again (run environment ttl others served)
    ≡ (run environment ttl others served, ok (record result { replayed = true }))
execute_detailed-replay_example =
    execute_detailed-replay environment ttl first again seeded others result first_answer refl refl

twos_not_ones : twos ≢ ones
twos_not_ones h = cc ((eq_iff twos ones).1 h)

twos-is_sha256 : is_sha256 twos ≡ true
unfolding is_sha256
twos-is_sha256 = refl

execute_detailed-conflict_example :
    execute_detailed environment ttl changed (run environment ttl others served)
    ≡ (run environment ttl others served, err conflict)
execute_detailed-conflict_example =
    execute_detailed-conflict environment ttl first changed seeded others result first_answer refl
      twos_not_ones twos-is_sha256

abbrev operations : List (Operation String)
operations =
    reserve_op (pos 0) "order-1" ones
    ∷ complete_op (pos 1) "event-1" (pos 1) (bare owner ones ones) answer
    ∷ others

verify_audit_chain-run_example :
    let db = run environment ttl operations seeded in
    (hash : String) × (verify_audit_chain environment db ≡ ok (length db.audit_events, hash))
    × (Dict.get db.audit_chain_heads audit_chain_id
        ≡ some (record { last_sequence = length db.audit_events; last_hash = hash }))
verify_audit_chain-run_example = verify_audit_chain-run environment ttl operations

-- The same request, answered with another decision by an event with another id.
abbrev elsewhere : Database String
elsewhere =
    (execute_detailed environment ttl
      (record first {
        identifier = "event-2";
        response = some (record answer { decision = below_review_threshold });
      })
      seeded).0

elsewhere_chain : verify_audit_chain environment elsewhere ≡ ok (1, ones)
unfolding verify_audit_chain execute_detailed is_sha256
elsewhere_chain = refl

verify_audit_chain-tamper_example :
    (map (canonical_event_bytes environment) (chain_events environment served)
      ≡ map (canonical_event_bytes environment) (chain_events environment elsewhere))
    ⊎ Collision digest_of
        (map (canonical_event_bytes environment) (chain_events environment served))
        (map (canonical_event_bytes environment) (chain_events environment elsewhere))
verify_audit_chain-tamper_example =
    verify_audit_chain-tamper environment (λ e f h. h) served elsewhere 1 ones served_chain
      elsewhere_chain

step-Transition_example :
    Transition environment ttl ones
      (reserve_op (pos 0) "order-1" ones)
      (Dict.get seeded.idempotency ones)
      (Dict.get (step environment ttl (reserve_op (pos 0) "order-1" ones) seeded).idempotency ones)
step-Transition_example =
    step-Transition environment ttl ones (reserve_op (pos 0) "order-1" ones) seeded

first_owner : owns (reserve environment ttl (pos 0) "order-1" ones seeded).1 ≡ true
unfolding reserve is_sha256
first_owner = refl

reserve-one_owner_example :
    owns
      (reserve environment ttl
        (pos 5)
        "order-1"
        ones
        (run environment ttl others (reserve environment ttl (pos 0) "order-1" ones seeded).0)).1
    ≡ false
reserve-one_owner_example =
    reserve-one_owner environment ttl (pos 0) (pos 5) "order-1" ones ones seeded others first_owner

abbrev waiting : Database String
waiting = record seeded { idempotency = (ones, new_row ones (pos 100)) ∷ [] }

waiting_row : Dict.get waiting.idempotency (key_of "order-1") ≡ some (new_row ones (pos 100))
unfolding Dict.get
waiting_row = refl

abbrev late : List (Operation String)
late =
    complete_op (pos 120) "event-1" (pos 1) (bare owner ones ones) answer
    ∷ reserve_op (pos 2) "order-2" twos
    ∷ []

reserve-expired_example :
    let answer =
      reserve environment ttl (pos 130) "order-1" ones (run environment ttl late waiting) in
    IsRefusal answer.1 × (answer.0 ≡ run environment ttl late waiting)
reserve-expired_example =
    reserve-expired environment ttl (pos 110) (pos 130) "order-1" ones (new_row ones (pos 100))
      waiting late waiting_row refl refl (refl, (tt, tt)) refl

abbrev start : Head
start = record { last_sequence = 0; last_hash = genesis_hash }

ones-is_sha256 : is_sha256 ones ≡ true
unfolding is_sha256
ones-is_sha256 = refl

-- The tables after another client's reservation.
abbrev before : List (Operation String)
before = reserve_op (pos 0) "order-2" twos ∷ []

abbrev used : Database String
used = run environment ttl before seeded

no_row : Dict.get used.idempotency ones ≡ none
unfolding Dict.get run reserve is_sha256
no_row = refl

open_row :
    Dict.get (at_commit environment ttl first used).idempotency ones ≡ some (new_row ones ttl)
unfolding Dict.get run reserve is_sha256
open_row = refl

first_head :
    Dict.get (at_commit environment ttl first used).audit_chain_heads audit_chain_id ≡ some start
unfolding Dict.get run reserve is_sha256
first_head = refl

first_event :
    every_event
      (is_unseen environment
        (next_event environment "event-1" start (owned environment ttl first) answer (pos 1)))
      (at_commit environment ttl first used).audit_events
    ≡ true
unfolding every_event run reserve is_sha256
first_event = refl

execute_detailed-owner_example :
    (execute_detailed environment ttl first used).1
    ≡ ok (record {
      response = answer;
      audit_receipt_sha256 =
          (next_event environment "event-1" start
            (owned environment ttl first)
            answer
            (pos 1)).event_hash;
      replayed = false;
    })
execute_detailed-owner_example =
    execute_detailed-owner environment ttl first answer (new_row ones ttl) start before used refl
      ones-is_sha256 no_row refl refl open_row refl refl first_head first_event
