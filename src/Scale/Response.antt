-- ===== src/Scale/Response.antt =====
-- The bounded response (api/scale_response.py) and its check for forbidden keys
-- (api/postgres_idempotency.py). Floats are the parameter `F`.
use secure_swipe.Prelude.{
  ◌≡◌, refl, ◌&&◌, not, String, Bool, true, Option, some, List, [], ◌∷◌, contains, string_eq,
}
use secure_swipe.Prelude.Int.{ℤ}
use secure_swipe.Prelude.Json.{
  Json, null, boolean, number, real, text, array, object, Items, none_left, item, Fields, end,
  field,
}
use secure_swipe.Prelude.Text.{is_sha256}

pub data Decision : Type 0 where
  human_review below_review_threshold : Decision

abbrev pub decision_text : Decision → String
decision_text human_review = "human_review"
decision_text below_review_threshold = "below_review_threshold"

pub record ModelProvenance : Type 0 where
  pub model_version : String
  pub bundle_format_version : String
  pub model_artifact_sha256 : String
  pub training_data_fingerprint : String
  pub evidence_category : String
  pub historical_taint : Bool
  pub decision_eligible : Bool
  pub historical_metrics_claimed : Bool
  pub evaluation_performed : Bool

pub record PolicyProvenance (F : Type 0) : Type 0 where
  pub producer_policy : String
  pub producer_policy_sha256 : String
  pub operating_threshold : F
  pub threshold_source : String
  pub threshold_model_linkage : String
  pub threshold_purpose : String
  pub threshold_calibrated : Bool
  pub threshold_cost_optimal : Bool
  pub threshold_razorpay_approved : Bool
  pub threshold_production_approved : Bool

-- The literal fields (`schema_version`, `response_profile`, `status`, `api_schema_version`) have
-- one value each, and `dump` writes it.
pub record Response (F : Type 0) : Type 0 where
  pub decision : Decision
  pub model : ModelProvenance
  pub policy : PolicyProvenance F
  pub feature_schema_sha256 : String

module _ {F : Type 0} where
  unfoldable pub dump_model : ModelProvenance → Json F
  dump_model m = object (
      field "model_version" (text m.model_version) (
        field "bundle_format_version" (text m.bundle_format_version) (
          field "model_artifact_sha256" (text m.model_artifact_sha256) (
            field "training_data_fingerprint" (text m.training_data_fingerprint) (
              field "evidence_category" (text m.evidence_category) (
                field "historical_taint" (boolean m.historical_taint) (
                  field "decision_eligible" (boolean m.decision_eligible) (
                    field "historical_metrics_claimed" (boolean m.historical_metrics_claimed)
                      (field "evaluation_performed" (boolean m.evaluation_performed) end)))))))))

  unfoldable pub dump_policy : PolicyProvenance F → Json F
  dump_policy p = object (
      field "producer_policy" (text p.producer_policy) (
        field "producer_policy_sha256" (text p.producer_policy_sha256) (
          field "operating_threshold" (real p.operating_threshold) (
            field "threshold_source" (text p.threshold_source) (
              field "threshold_model_linkage" (text p.threshold_model_linkage) (
                field "threshold_purpose" (text p.threshold_purpose) (
                  field "threshold_calibrated" (boolean p.threshold_calibrated) (
                    field "threshold_cost_optimal" (boolean p.threshold_cost_optimal) (
                      field "threshold_razorpay_approved" (boolean p.threshold_razorpay_approved) (
                        field "threshold_production_approved"
                          (boolean p.threshold_production_approved) end))))))))))

  -- `response.model_dump(mode="json", by_alias=True)`
  unfoldable pub dump : Response F → Json F
  unfolding dump_model dump_policy
  dump r = object (
      field "schema_version" (text "2.0") (
        field "response_profile" (text "postgres-scale-bounded-v1") (
          field "status" (text "completed") (
            field "decision" (text (decision_text r.decision)) (
              field "model" (dump_model r.model) (
                field "policy" (dump_policy r.policy) (
                  field "schema"
                    (object (
                      field "api_schema_version" (text "2.0")
                        (field "feature_schema_sha256" (text r.feature_schema_sha256) end)))
                    end)))))))

abbrev pub forbidden_response_keys : List String
forbidden_response_keys =
    "raw_score" ∷ "decision_score" ∷ "calibrated_probability" ∷ "score" ∷ "score_type"
    ∷ "request_id" ∷ "features" ∷ "payload" ∷ []

-- `_validate_response_keys`: no forbidden key at any depth.
unfoldable mutual
  unfolding contains

  pub clean : {F : Type 0} → Json F → Bool
  clean null = true
  clean (boolean b) = true
  clean (number n) = true
  clean (real x) = true
  clean (text s) = true
  clean (array xs) = clean_items xs
  clean (object fs) = clean_fields fs

  pub clean_items : {F : Type 0} → Items F → Bool
  clean_items none_left = true
  clean_items (item x xs) = clean x && clean_items xs

  pub clean_fields : {F : Type 0} → Fields F → Bool
  clean_fields end = true
  clean_fields (field k x fs) =
      not (contains forbidden_response_keys k) && (clean x && clean_fields fs)

-- What the code takes from libraries, with what their documentation says of it: a strict model
-- reads back what it dumps, a SHA-256 or HMAC digest is 64 lowercase hexadecimal digits, and
-- `jsonb` equality is reflexive. `canonical` is `json.dumps` with sorted keys and no spaces.
pub record Environment (F : Type 0) : Type 0 where
  pub model_validate : Json F → Option (Response F)
  pub validate_dump : (r : Response F) → model_validate (dump r) ≡ some r
  pub canonical : Json F → String
  pub sha256 : String → String
  pub sha256_digest : (s : String) → is_sha256 (sha256 s) ≡ true
  pub hmac_key : String → String
  pub hmac_digest : (s : String) → is_sha256 (hmac_key s) ≡ true
  pub isoformat : ℤ → String
  pub is_uuid : String → Bool
  pub jsonb_eq : Json F → Json F → Bool
  pub jsonb_refl : (d : Json F) → jsonb_eq d d ≡ true

-- A dumped response has no forbidden key.
pub dump-clean : {F : Type 0} (r : Response F) → clean (dump r) ≡ true
unfolding dump clean
dump-clean r = refl
