-- ===== src/Realtime/Features/FanOut.antt =====
-- When the fan-out signals of features/device.py, features/address.py, features/payment_method.py
-- and features/geography.py fire.
use secure_swipe.Prelude.{
  ◌≡◌, ◌↔◌, refl, subst, ◌<◌, String, true, List, [], ◌∷◌, length, keep, contains, ◌==◌, string_eq,
  eq_iff, ltb, All, arith, inl, inr, Bool-cases,
}
use secure_swipe.Prelude.Int.{pos, ◌-ℤ◌}
use secure_swipe.Prelude.Distinct.{
  Any, Any-map, Any-keep, Any-keep_of, Any-sort, Any-sort_of, NoRepeat, length-NoRepeat,
}
use secure_swipe.Prelude.Sorting.{sort}
use secure_swipe.Realtime.Event.{SyntheticEvent}
use secure_swipe.Realtime.Store.{EventStore, time_leb}
use secure_swipe.Realtime.Store.Range.{Within}
use secure_swipe.Realtime.Windows.{window_24h, distinct, distinct_count}
use secure_swipe.Realtime.Features.{sharing}
use secure_swipe.Realtime.Features.Entities.{
  fan_out_threshold, compute_device_features, compute_address_features,
  compute_payment_method_features, device_features, address_features, payment_method_features,
}
use secure_swipe.Realtime.Features.Context.{compute_geography_features, geography_features}
use secure_swipe.Realtime.Features.Pairing.{
  fires, contains-codes-append, contains-signal_if, in_window, in_window_iff, stored,
  candidates_lem, Triggers,
}

-- Some stored event of the 24 hours up to the event shares the entity with it and has this account.
abbrev pub IsUser : (SyntheticEvent → String) → EventStore → SyntheticEvent → String → Type 0
IsUser key store e account =
    Any
      (λ c.
        Within (e.event_time -ℤ pos 86400000000) e.event_time c
        × (key c ≡ key e)
        × (c.account_id ≡ account))
      (stored store)

-- More than three different accounts use the entity.
abbrev pub HasFanOut : (SyntheticEvent → String) → EventStore → SyntheticEvent → Type 0
HasFanOut key store e =
    (accounts : List String) × NoRepeat accounts
    × All (IsUser key store e) accounts
    × (3 < length accounts)

contains-distinct :
    (key : SyntheticEvent → String) (es : List SyntheticEvent) (a : String)
    → (contains (distinct key es) a ≡ true) ↔ Any (λ c. key c ≡ a) es
unfolding distinct contains
contains-distinct key [] a = (λ h. cc, λ h. absurd h)
contains-distinct key (e ∷ es) a =
    let rest = contains-distinct key es a in
    (
      λ h. elim (Bool-cases (key e == a)) [
        | inl q ↦ inl ((eq_iff (key e) a).0 q)
        | inr q ↦ inr (rest.0 (ground arith))
      ],
      λ h. elim h [
        | inl p ↦ ground (arith, eq_iff (key e) a)
        | inr b ↦ let k = rest.1 b in ground arith
      ],
    )

distinct-NoRepeat :
    (key : SyntheticEvent → String) (es : List SyntheticEvent) → NoRepeat (distinct key es)
unfolding distinct
distinct-NoRepeat key [] = tt
distinct-NoRepeat key (e ∷ es) = elim (Bool-cases (contains (distinct key es) (key e))) [
  | inl h ↦ rw h (distinct-NoRepeat key es)
  | inr h ↦ rw h (h, distinct-NoRepeat key es)
]

All-contains :
    (P : String → Type 0) (xs : List String)
    → ((a : String) → contains xs a ≡ true → P a)
    → All P xs
unfolding contains
All-contains P [] h = tt
All-contains P (x ∷ xs) h =
    (h x (ground (arith, eq_iff x x)), All-contains P xs (λ a k. h a (ground arith)))

contains-All :
    (P : String → Type 0) (xs : List String) (a : String) → All P xs → contains xs a ≡ true → P a
unfolding contains
contains-All P [] a h k = cc
contains-All P (x ∷ xs) a h k = elim (Bool-cases (x == a)) [
  | inl q ↦ subst P ((eq_iff x a).0 q) h.0
  | inr q ↦ contains-All P xs a h.1 (ground arith)
]

abbrev events_before : EventStore → SyntheticEvent → List SyntheticEvent
events_before store e = sort time_leb (keep (in_window window_24h e) (stored store))

abbrev users : (SyntheticEvent → String) → EventStore → SyntheticEvent → List String
users key store e = distinct (λ c. c.account_id) (sharing key e (events_before store e))

users_iff :
    (key : SyntheticEvent → String) (store : EventStore) (e : SyntheticEvent) (a : String)
    → (contains (users key store e) a ≡ true) ↔ IsUser key store e a
users_iff key store e a =
    let same = λ (c : SyntheticEvent). key c == key e in
    let owned = λ (c : SyntheticEvent). c.account_id ≡ a in
    let inside = keep (in_window window_24h e) (stored store) in
    let found = contains-distinct (λ c. c.account_id) (sharing key e (events_before store e)) a in
    (
      λ h.
          Any-map _ _ (stored store)
            (λ c (w, (s, o)). ((in_window_iff e c).0 w, (eq_iff _ _).0 s, o))
            (Any-keep_of (λ c. (same c ≡ true) × owned c) (in_window window_24h e) (stored store)
              (Any-sort_of time_leb (λ c. (same c ≡ true) × owned c) inside
                (Any-keep_of owned same (sort time_leb inside) (found.0 h)))),
      λ h. found.1 (
          Any-keep owned same (sort time_leb inside) (
            Any-sort time_leb (λ c. (same c ≡ true) × owned c) inside
              (Any-keep (λ c. (same c ≡ true) × owned c) (in_window window_24h e) (stored store)
                (Any-map _ _ (stored store)
                  (λ c (w, s, o). ((in_window_iff e c).1 w, ((eq_iff _ _).1 s, o))) h)))),
    )

distinct_count_iff :
    (key : SyntheticEvent → String) (store : EventStore) (e : SyntheticEvent)
    → (ltb fan_out_threshold
          (distinct_count (λ c. c.account_id) (sharing key e (events_before store e)))
        ≡ true)
      ↔ HasFanOut key store e
unfolding distinct_count
distinct_count_iff key store e = (
  λ h. (
    users key store e,
    distinct-NoRepeat _ (sharing key e (events_before store e)),
    All-contains (IsUser key store e) (users key store e) (λ a. (users_iff key store e a).0),
    ground arith,
  ),
  λ (accounts, apart, used, many).
      let fit = length-NoRepeat accounts (users key store e) apart (λ a k.
        (users_iff key store e a).1 (contains-All (IsUser key store e) accounts a used k)) in
      ground arith,
)

device_code :
    (e : SyntheticEvent) (events : List SyntheticEvent)
    → fires "device_fan_out_high" (device_features e events)
      ≡ ltb fan_out_threshold
          (distinct_count (λ c. c.account_id) (sharing (λ c. c.device_id) e events))
unfolding device_features
device_code e events = simp (contains-codes-append, contains-signal_if) (ground arith)

device_fan_out :
    Triggers compute_device_features "device_fan_out_high" (HasFanOut (λ c. c.device_id))
unfolding compute_device_features
device_fan_out store e = (
  device_features e (events_before store e),
  rw (candidates_lem store e window_24h) refl,
  rw (device_code e (events_before store e)) (distinct_count_iff (λ c. c.device_id) store e),
)

address_code :
    (e : SyntheticEvent) (events : List SyntheticEvent)
    → fires "address_fan_out_high" (address_features e events)
      ≡ ltb fan_out_threshold
          (distinct_count (λ c. c.account_id) (sharing (λ c. c.address_id) e events))
unfolding address_features
address_code e events = simp (contains-codes-append, contains-signal_if) (ground arith)

address_fan_out :
    Triggers compute_address_features "address_fan_out_high" (HasFanOut (λ c. c.address_id))
unfolding compute_address_features
address_fan_out store e = (
  address_features e (events_before store e),
  rw (candidates_lem store e window_24h) refl,
  rw (address_code e (events_before store e)) (distinct_count_iff (λ c. c.address_id) store e),
)

payment_method_code :
    (e : SyntheticEvent) (events : List SyntheticEvent)
    → fires "payment_method_fan_out_high" (payment_method_features e events)
      ≡ ltb fan_out_threshold
          (distinct_count (λ c. c.account_id) (sharing (λ c. c.payment_method_id) e events))
unfolding payment_method_features
payment_method_code e events = simp (contains-codes-append, contains-signal_if) (ground arith)

payment_method_fan_out :
    Triggers compute_payment_method_features "payment_method_fan_out_high"
      (HasFanOut (λ c. c.payment_method_id))
unfolding compute_payment_method_features
payment_method_fan_out store e = (
  payment_method_features e (events_before store e),
  rw (candidates_lem store e window_24h) refl,
  rw (payment_method_code e (events_before store e))
      (distinct_count_iff (λ c. c.payment_method_id) store e),
)

geography_code :
    (e : SyntheticEvent) (events : List SyntheticEvent)
    → fires "geography_ip_fan_out_high" (geography_features e events)
      ≡ ltb fan_out_threshold (distinct_count (λ c. c.account_id) (sharing (λ c. c.ip_id) e events))
unfolding geography_features
geography_code e events = simp (contains-codes-append, contains-signal_if) (ground arith)

geography_fan_out :
    Triggers compute_geography_features "geography_ip_fan_out_high" (HasFanOut (λ c. c.ip_id))
unfolding compute_geography_features
geography_fan_out store e = (
  geography_features e (events_before store e),
  rw (candidates_lem store e window_24h) refl,
  rw (geography_code e (events_before store e)) (distinct_count_iff (λ c. c.ip_id) store e),
)

-- For any store and event, the device, address, payment method and geography families answer
-- without an error, and each triggers its fan-out signal exactly when more than three different
-- accounts appear on the stored events of the 24 hours up to the event that have the event's
-- device (address, payment method, IP).
pub fan_out-HasFanOut :
    Triggers compute_device_features "device_fan_out_high" (HasFanOut (λ c. c.device_id))
    × Triggers compute_address_features "address_fan_out_high" (HasFanOut (λ c. c.address_id))
    × Triggers compute_payment_method_features "payment_method_fan_out_high"
        (HasFanOut (λ c. c.payment_method_id))
    × Triggers compute_geography_features "geography_ip_fan_out_high" (HasFanOut (λ c. c.ip_id))
fan_out-HasFanOut = (device_fan_out, address_fan_out, payment_method_fan_out, geography_fan_out)
