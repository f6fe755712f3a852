-- ===== src/Realtime/Features/Signals.antt =====
-- When the families' signals fire.
use secure_swipe.Prelude.{◌≡◌, refl, List, keep, string_eq, arith}
use secure_swipe.Prelude.Sorting.{sort}
use secure_swipe.Realtime.Event.{SyntheticEvent}
use secure_swipe.Realtime.Store.{EventStore, time_leb}
use secure_swipe.Realtime.Windows.{window_24h}
use secure_swipe.Realtime.Features.{sharing, is_new}
use secure_swipe.Realtime.Features.Entities.{
  compute_device_features, compute_address_features, compute_payment_method_features,
  compute_merchant_features, device_features, address_features, payment_method_features,
  merchant_features,
}
use secure_swipe.Realtime.Features.Pairing.{
  fires, contains-codes-append, contains-signal_if, in_window, stored, candidates_lem, IsFirst,
  is_new_iff, Triggers,
}

abbrev events_before : EventStore → SyntheticEvent → List SyntheticEvent
events_before store e = sort time_leb (keep (in_window window_24h e) (stored store))

device_code :
    (e : SyntheticEvent) (events : List SyntheticEvent)
    → fires "device_new_to_account" (device_features e events)
      ≡ is_new e (sharing (λ c. c.device_id) e events)
unfolding device_features
device_code e events = simp (contains-codes-append, contains-signal_if) (ground arith)

new_device : Triggers compute_device_features "device_new_to_account" (IsFirst (λ c. c.device_id))
unfolding compute_device_features
new_device store e = (
  device_features e (events_before store e),
  rw (candidates_lem store e window_24h) refl,
  rw (device_code e (events_before store e)) (is_new_iff (λ c. c.device_id) store e),
)

address_code :
    (e : SyntheticEvent) (events : List SyntheticEvent)
    → fires "address_new_to_account" (address_features e events)
      ≡ is_new e (sharing (λ c. c.address_id) e events)
unfolding address_features
address_code e events = simp (contains-codes-append, contains-signal_if) (ground arith)

new_address :
    Triggers compute_address_features "address_new_to_account" (IsFirst (λ c. c.address_id))
unfolding compute_address_features
new_address store e = (
  address_features e (events_before store e),
  rw (candidates_lem store e window_24h) refl,
  rw (address_code e (events_before store e)) (is_new_iff (λ c. c.address_id) store e),
)

payment_method_code :
    (e : SyntheticEvent) (events : List SyntheticEvent)
    → fires "payment_method_new_to_account" (payment_method_features e events)
      ≡ is_new e (sharing (λ c. c.payment_method_id) e events)
unfolding payment_method_features
payment_method_code e events = simp (contains-codes-append, contains-signal_if) (ground arith)

new_payment_method :
    Triggers compute_payment_method_features "payment_method_new_to_account"
      (IsFirst (λ c. c.payment_method_id))
unfolding compute_payment_method_features
new_payment_method store e = (
  payment_method_features e (events_before store e),
  rw (candidates_lem store e window_24h) refl,
  rw (payment_method_code e (events_before store e))
      (is_new_iff (λ c. c.payment_method_id) store e),
)

merchant_code :
    (e : SyntheticEvent) (events : List SyntheticEvent)
    → fires "merchant_new_to_account" (merchant_features e events)
      ≡ is_new e (sharing (λ c. c.merchant_id) e events)
unfolding merchant_features
merchant_code e events = simp (contains-codes-append, contains-signal_if) (ground arith)

new_merchant :
    Triggers compute_merchant_features "merchant_new_to_account" (IsFirst (λ c. c.merchant_id))
unfolding compute_merchant_features
new_merchant store e = (
  merchant_features e (events_before store e),
  rw (candidates_lem store e window_24h) refl,
  rw (merchant_code e (events_before store e)) (is_new_iff (λ c. c.merchant_id) store e),
)

-- For any store and event, the device, address, payment method and merchant families answer
-- without an error, and each triggers its `new_to_account` signal exactly when every stored event
-- of the 24 hours up to the event with the same account and the same device (address, payment
-- method, merchant) has the event's own identifier.
pub new_to_account-IsFirst :
    Triggers compute_device_features "device_new_to_account" (IsFirst (λ c. c.device_id))
    × Triggers compute_address_features "address_new_to_account" (IsFirst (λ c. c.address_id))
    × Triggers compute_payment_method_features "payment_method_new_to_account"
        (IsFirst (λ c. c.payment_method_id))
    × Triggers compute_merchant_features "merchant_new_to_account" (IsFirst (λ c. c.merchant_id))
new_to_account-IsFirst = (new_device, new_address, new_payment_method, new_merchant)
