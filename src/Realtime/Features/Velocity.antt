-- ===== src/Realtime/Features/Velocity.antt =====
-- How many events of each entity the last minute, hour and day held (features/velocity.py).
use secure_swipe.Prelude.{ℕ, String, List, [], ◌∷◌, ◌++◌, keep, string_eq, ltb}
use secure_swipe.Prelude.Dict.{Dict}
use secure_swipe.Prelude.Result.{Result, ok, ◌>>=◌}
use secure_swipe.Realtime.Event.{SyntheticEvent}
use secure_swipe.Realtime.Store.{EventStore, StoreError}
use secure_swipe.Realtime.Windows.{
  WindowSize, window_1m, window_1h, window_24h, WindowCounts, window_counts,
}
use secure_swipe.Realtime.Features.{
  Features, FeatureValue, TriggeredSignal, number, signal_if, candidates, sharing,
}

pub data EntityLabel : Type 0 where
  account device payment_method merchant : EntityLabel

abbrev pub extractor : EntityLabel → SyntheticEvent → String
extractor account e = e.account_id
extractor device e = e.device_id
extractor payment_method e = e.payment_method_id
extractor merchant e = e.merchant_id

abbrev pub count_threshold : WindowSize → ℕ
count_threshold window_1m = 3
count_threshold window_1h = 10
count_threshold window_24h = 50

-- f"velocity_{entity_label}_{window}_count"
abbrev pub count_name : EntityLabel → WindowSize → String
count_name account window_1m = "velocity_account_1m_count"
count_name account window_1h = "velocity_account_1h_count"
count_name account window_24h = "velocity_account_24h_count"
count_name device window_1m = "velocity_device_1m_count"
count_name device window_1h = "velocity_device_1h_count"
count_name device window_24h = "velocity_device_24h_count"
count_name payment_method window_1m = "velocity_payment_method_1m_count"
count_name payment_method window_1h = "velocity_payment_method_1h_count"
count_name payment_method window_24h = "velocity_payment_method_24h_count"
count_name merchant window_1m = "velocity_merchant_1m_count"
count_name merchant window_1h = "velocity_merchant_1h_count"
count_name merchant window_24h = "velocity_merchant_24h_count"

-- f"velocity_{entity_label}_{window}_count_high"
abbrev pub high_code : EntityLabel → WindowSize → String
high_code account window_1m = "velocity_account_1m_count_high"
high_code account window_1h = "velocity_account_1h_count_high"
high_code account window_24h = "velocity_account_24h_count_high"
high_code device window_1m = "velocity_device_1m_count_high"
high_code device window_1h = "velocity_device_1h_count_high"
high_code device window_24h = "velocity_device_24h_count_high"
high_code payment_method window_1m = "velocity_payment_method_1m_count_high"
high_code payment_method window_1h = "velocity_payment_method_1h_count_high"
high_code payment_method window_24h = "velocity_payment_method_24h_count_high"
high_code merchant window_1m = "velocity_merchant_1m_count_high"
high_code merchant window_1h = "velocity_merchant_1h_count_high"
high_code merchant window_24h = "velocity_merchant_24h_count_high"

abbrev pub count_of : WindowCounts → WindowSize → ℕ
count_of counts window_1m = counts.count_1m
count_of counts window_1h = counts.count_1h
count_of counts window_24h = counts.count_24h

-- The inner loop's body.
abbrev pub window_signal : EntityLabel → WindowCounts → WindowSize → List TriggeredSignal
window_signal label counts window =
    signal_if (ltb (count_threshold window) (count_of counts window)) (high_code label window) 25

-- The outer loop's body: the counts of one entity.
unfoldable pub entity_counts : EntityLabel → SyntheticEvent → List SyntheticEvent → WindowCounts
unfolding window_counts keep
entity_counts label e events = window_counts (sharing (extractor label) e events) e.event_time

unfoldable pub entity_signals :
    EntityLabel → SyntheticEvent → List SyntheticEvent → List TriggeredSignal
unfolding entity_counts
entity_signals label e events =
    let counts = entity_counts label e events in
    window_signal label counts window_1m
    ++ window_signal label counts window_1h
    ++ window_signal label counts window_24h

unfoldable pub entity_features :
    EntityLabel → SyntheticEvent → List SyntheticEvent → Dict String FeatureValue
unfolding entity_counts
entity_features label e events =
    let counts = entity_counts label e events in
    (count_name label window_1m, number counts.count_1m)
    ∷ (count_name label window_1h, number counts.count_1h)
    ∷ (count_name label window_24h, number counts.count_24h)
    ∷ []

unfoldable pub velocity_features : SyntheticEvent → List SyntheticEvent → Features
unfolding entity_signals entity_features
velocity_features e events = record {
  triggered_signals =
      entity_signals account e events
      ++ entity_signals device e events
      ++ entity_signals payment_method e events
      ++ entity_signals merchant e events;
  window_features =
      entity_features account e events
      ++ entity_features device e events
      ++ entity_features payment_method e events
      ++ entity_features merchant e events;
}

unfoldable pub compute_velocity_features : EventStore → SyntheticEvent → Result StoreError Features
unfolding candidates velocity_features
compute_velocity_features store e = do
  events ← candidates store e window_24h
  ok (velocity_features e events)
