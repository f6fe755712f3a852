-- ===== src/Realtime/Features/Context.antt =====
-- The families that watch the event's network and its retries: features/geography.py and
-- features/retry.py.
use secure_swipe.Prelude.{
  ℕ, String, Bool, true, false, Option, none, some, List, [], ◌∷◌, ◌++◌, length, keep, ◌==◌,
  string_eq, option_eq, ltb, ◌&&◌, not, if◌then◌else◌,
}
use secure_swipe.Prelude.Result.{Result, ok, ◌>>=◌}
use secure_swipe.Realtime.Event.{SyntheticEvent}
use secure_swipe.Realtime.Store.{EventStore, StoreError}
use secure_swipe.Realtime.Windows.{window_1h, window_24h, distinct_count}
use secure_swipe.Realtime.Features.{
  Features, number, flag, signal_if, is_failure, candidates, sharing,
}
use secure_swipe.Realtime.Features.Entities.{fan_out_threshold}

unfoldable pub geography_features : SyntheticEvent → List SyntheticEvent → Features
unfolding distinct_count keep
geography_features e events =
    let ip_events = sharing (λ c. c.ip_id) e events in
    let distinct_accounts = distinct_count (λ c. c.account_id) ip_events in
    let country_mismatch = not (e.account_country == e.event_country) in
    record {
      triggered_signals =
          signal_if country_mismatch "geography_country_mismatch" 20
          ++ signal_if e.vpn_or_proxy "geography_vpn_or_proxy" 25
          ++ signal_if (ltb fan_out_threshold distinct_accounts) "geography_ip_fan_out_high" 30;
      window_features =
          ("geography_country_mismatch", flag country_mismatch)
          ∷ ("geography_vpn_or_proxy", flag e.vpn_or_proxy)
          ∷ ("geography_ip_fan_out_distinct_accounts_24h", number distinct_accounts)
          ∷ [];
    }

unfoldable pub compute_geography_features : EventStore → SyntheticEvent → Result StoreError Features
unfolding candidates geography_features
compute_geography_features store e = do
  events ← candidates store e window_24h
  ok (geography_features e events)

abbrev pub retry_group_size_threshold : ℕ
retry_group_size_threshold = 3

abbrev pub account_failure_count_threshold : ℕ
account_failure_count_threshold = 3

abbrev has_group : Option String → Bool
has_group none = false
has_group (some g) = true

unfoldable pub retry_features : SyntheticEvent → List SyntheticEvent → Features
unfolding keep
retry_features e events =
    let has_retry_group = has_group e.retry_group_id in
    let retry_group_size =
      if has_retry_group
      then length (keep (λ c. c.retry_group_id == e.retry_group_id) events)
      else 0 in
    let account_failure_count =
      length (keep (λ c. c.account_id == e.account_id && is_failure c.outcome) events) in
    record {
      triggered_signals =
          signal_if (has_retry_group && ltb retry_group_size_threshold retry_group_size)
            "retry_group_size_high" 25
          ++ signal_if (ltb account_failure_count_threshold account_failure_count)
              "retry_account_failure_count_high" 25;
      window_features =
          ("retry_has_group", flag has_retry_group)
          ∷ ("retry_group_size_1h", number retry_group_size)
          ∷ ("retry_account_failure_count_1h", number account_failure_count)
          ∷ [];
    }

unfoldable pub compute_retry_features : EventStore → SyntheticEvent → Result StoreError Features
unfolding candidates retry_features
compute_retry_features store e = do
  events ← candidates store e window_1h
  ok (retry_features e events)
