-- ===== src/Realtime/Features/Entities.antt =====
-- The families that watch one entity of the event: features/device.py, features/address.py,
-- features/payment_method.py and features/merchant.py.
use secure_swipe.Prelude.{ℕ, ◌*◌, List, [], ◌∷◌, ◌++◌, length, keep, string_eq, ltb, leb, ◌&&◌, not}
use secure_swipe.Prelude.Result.{Result, ok, ◌>>=◌}
use secure_swipe.Realtime.Event.{SyntheticEvent}
use secure_swipe.Realtime.Store.{EventStore, StoreError}
use secure_swipe.Realtime.Windows.{window_24h, distinct_count}
use secure_swipe.Realtime.Features.{
  Features, number, ratio, flag, signal_if, is_failure, candidates, sharing, is_new,
}

abbrev pub fan_out_threshold : ℕ
fan_out_threshold = 3

unfoldable pub device_features : SyntheticEvent → List SyntheticEvent → Features
unfolding distinct_count keep
device_features e events =
    let device_events = sharing (λ c. c.device_id) e events in
    let is_new_device_for_account = is_new e device_events in
    let distinct_accounts = distinct_count (λ c. c.account_id) device_events in
    record {
      triggered_signals =
          signal_if is_new_device_for_account "device_new_to_account" 20
          ++ signal_if (ltb fan_out_threshold distinct_accounts) "device_fan_out_high" 30;
      window_features =
          ("device_new_to_account", flag is_new_device_for_account)
          ∷ ("device_fan_out_distinct_accounts_24h", number distinct_accounts)
          ∷ [];
    }

unfoldable pub compute_device_features : EventStore → SyntheticEvent → Result StoreError Features
unfolding candidates device_features
compute_device_features store e = do
  events ← candidates store e window_24h
  ok (device_features e events)

unfoldable pub address_features : SyntheticEvent → List SyntheticEvent → Features
unfolding distinct_count keep
address_features e events =
    let address_events = sharing (λ c. c.address_id) e events in
    let is_new_address_for_account = is_new e address_events in
    let distinct_accounts = distinct_count (λ c. c.account_id) address_events in
    record {
      triggered_signals =
          signal_if is_new_address_for_account "address_new_to_account" 20
          ++ signal_if (ltb fan_out_threshold distinct_accounts) "address_fan_out_high" 30
          ++ signal_if (not e.billing_shipping_match) "address_billing_shipping_mismatch" 15;
      window_features =
          ("address_new_to_account", flag is_new_address_for_account)
          ∷ ("address_fan_out_distinct_accounts_24h", number distinct_accounts)
          ∷ ("address_billing_shipping_mismatch", flag (not e.billing_shipping_match))
          ∷ [];
    }

unfoldable pub compute_address_features : EventStore → SyntheticEvent → Result StoreError Features
unfolding candidates address_features
compute_address_features store e = do
  events ← candidates store e window_24h
  ok (address_features e events)

unfoldable pub payment_method_features : SyntheticEvent → List SyntheticEvent → Features
unfolding distinct_count keep
payment_method_features e events =
    let payment_method_events = sharing (λ c. c.payment_method_id) e events in
    let is_new_payment_method_for_account = is_new e payment_method_events in
    let distinct_accounts = distinct_count (λ c. c.account_id) payment_method_events in
    record {
      triggered_signals =
          signal_if is_new_payment_method_for_account "payment_method_new_to_account" 20
          ++ signal_if (ltb fan_out_threshold distinct_accounts) "payment_method_fan_out_high" 30;
      window_features =
          ("payment_method_new_to_account", flag is_new_payment_method_for_account)
          ∷ ("payment_method_fan_out_distinct_accounts_24h", number distinct_accounts)
          ∷ [];
    }

unfoldable pub compute_payment_method_features :
    EventStore → SyntheticEvent → Result StoreError Features
unfolding candidates payment_method_features
compute_payment_method_features store e = do
  events ← candidates store e window_24h
  ok (payment_method_features e events)

abbrev pub merchant_min_sample_size : ℕ
merchant_min_sample_size = 5

-- The failure rate is above one half when twice the failures exceed the transactions.
unfoldable pub merchant_features : SyntheticEvent → List SyntheticEvent → Features
unfolding keep
merchant_features e events =
    let merchant_events = sharing (λ c. c.merchant_id) e events in
    let is_new_merchant_for_account = is_new e merchant_events in
    let total_count = length merchant_events in
    let failure_count = length (keep (λ c. is_failure c.outcome) merchant_events) in
    let has_sufficient_sample = leb merchant_min_sample_size total_count in
    record {
      triggered_signals =
          signal_if is_new_merchant_for_account "merchant_new_to_account" 20
          ++ signal_if (has_sufficient_sample && ltb total_count (2 * failure_count))
              "merchant_failure_rate_high" 30;
      window_features =
          ("merchant_new_to_account", flag is_new_merchant_for_account)
          ∷ ("merchant_transaction_count_24h", number total_count)
          ∷ ("merchant_failure_rate_24h", ratio failure_count total_count)
          ∷ [];
    }

unfoldable pub compute_merchant_features : EventStore → SyntheticEvent → Result StoreError Features
unfolding candidates merchant_features
compute_merchant_features store e = do
  events ← candidates store e window_24h
  ok (merchant_features e events)
