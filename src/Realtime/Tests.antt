-- ===== src/Realtime/Tests.antt =====
-- Runs of the synthetic real-time layer, and its theorems at concrete inputs.
use secure_swipe.Prelude.{
  ◌≡◌, ◌≢◌, ◌↔◌, refl, ℕ, ◌<◌, ◌≤◌, ◌+◌, ◌*◌, ◌++◌, String, true, false, none, List, [], ◌∷◌,
  length, keep, All, map, contains, string_eq, arith,
}
use secure_swipe.Prelude.Int.{ℤ, pos, leb_ℤ, ◌≤ℤ◌, ◌-ℤ◌}
use secure_swipe.Prelude.Dict
use secure_swipe.Prelude.Result.{ok, err}
use secure_swipe.Prelude.Sorting.{sort, IsSorted}
use secure_swipe.Realtime.Event.{
  SyntheticEvent, event_beq, texts, success, new, duplicate, in_order, late,
}
use secure_swipe.Realtime.Clock.{
  now, get_elem?, new_sequence, answers, repeat, answers-new_sequence,
}
use secure_swipe.Realtime.Store.{
  EventStore, new_store, evict_expired, expired_ids, remove_all, enforce_capacity, record_new,
  record_event, call, run, events_in_range, event_of, Call, record_call, evict_call, reset,
  RecordResult, duplicate_conflict,
}
use secure_swipe.Realtime.Store.Invariant.{IsWellFormed, run-IsWellFormed}
use secure_swipe.Realtime.Store.Replay.{record_event-idempotent}
use secure_swipe.Realtime.Store.Range.{at_time, Within, events_in_range-IsSorted}
use secure_swipe.Realtime.Windows.{
  window_1m, window_bounds, select_window_events, window_counts, distinct, distinct_count,
}
use secure_swipe.Realtime.Windows.Nested.{
  count_between, window_counts-count_between, select_window_events-events_in_range,
}
use secure_swipe.Realtime.Features.{Features, candidates}
use secure_swipe.Realtime.Features.Velocity.{
  account, high_code, entity_counts, entity_signals, entity_features, velocity_features,
  compute_velocity_features,
}
use secure_swipe.Realtime.Features.Entities.{device_features, compute_device_features}
use secure_swipe.Realtime.Features.Pairing.{fires}
use secure_swipe.Realtime.Features.Counts.{entity_count, compute_velocity_features-Triggers}

program : Unit {0}
unfolding Dict.get Dict.put Dict.remove contains keep sort ◌-ℤ◌ event_beq texts now get_elem?
    new_sequence answers repeat new_store evict_expired expired_ids remove_all enforce_capacity
    record_new record_event call run events_in_range reset window_bounds select_window_events
    window_counts distinct distinct_count candidates entity_counts entity_signals entity_features
    velocity_features compute_velocity_features device_features compute_device_features
program = tt

abbrev noon : ℕ
noon = 1700000000000000

abbrev event : String → ℕ → SyntheticEvent
event id seconds = record {
  event_id = id;
  event_time = pos (noon + seconds * 1000000);
  account_id = "syn_acct_1";
  device_id = "syn_dev_1";
  payment_method_id = "syn_pm_1";
  merchant_id = "syn_mer_1";
  address_id = "syn_addr_1";
  ip_id = "syn_ip_1";
  amount = 10;
  currency = "INR";
  outcome = success;
  account_country = "IN";
  event_country = "IN";
  event_region = "KA";
  billing_shipping_match = true;
  vpn_or_proxy = false;
  retry_group_id = none;
}

abbrev at : ℕ → ℤ
at seconds = pos (noon + seconds * 1000000)

abbrev day : ℤ
day = pos 86400000000

abbrev empty_store : ℕ → EventStore
empty_store n = record { retention = day; max_events = n; records = []; watermark = none }

abbrev calls : List Call
calls =
    record_call (at 1) (event "evt_a" 1)
    ∷ record_call (at 9) (event "evt_b" 9)
    ∷ record_call (at 9) (event "evt_c" 5)
    ∷ []

abbrev store : EventStore
unfolding program
store = run calls (empty_store 10)

late_event :
    (record_event (at 9) (event "evt_d" 5) store).1
    ≡ ok (record { duplicate_status = new; ordering_status = late; stored_event = event "evt_d" 5 })
unfolding program store
late_event = refl

capacity : map (λ x. x.0) (run calls (empty_store 2)).records ≡ "evt_b" ∷ "evt_c" ∷ []
unfolding program
capacity = refl

run-IsWellFormed_example :
    (length (run calls (empty_store 2)).records ≤ 2) × IsWellFormed (run calls (empty_store 2))
unfolding program
run-IsWellFormed_example = run-IsWellFormed day 2 (empty_store 2) calls refl

abbrev first : RecordResult
first = record {
  duplicate_status = new;
  ordering_status = in_order;
  stored_event = event "evt_a" 1;
}

record_event-idempotent_example :
    (event "evt_a" 1 ≡ event "evt_a" 1
      → (record_event (at 20) (event "evt_a" 1) (
          run
            (evict_call (at 9) ∷ record_call (at 9) (event "evt_b" 9) ∷ [])
            (record_event (at 1) (event "evt_a" 1) (empty_store 3)).0)).1
        ≡ ok (record first { duplicate_status = duplicate }))
    × (event "evt_a" 1 ≢ event "evt_a" 1
        → (record_event (at 20) (event "evt_a" 1) (
            run
              (evict_call (at 9) ∷ record_call (at 9) (event "evt_b" 9) ∷ [])
              (record_event (at 1) (event "evt_a" 1) (empty_store 3)).0)).1
          ≡ err duplicate_conflict)
unfolding program
record_event-idempotent_example =
    record_event-idempotent (at 1) (event "evt_a" 1) (empty_store 3) first
      (evict_call (at 9) ∷ record_call (at 9) (event "evt_b" 9) ∷ []) (at 20) (event "evt_a" 1)
      (tt, tt, omega arith) refl refl (refl, (refl, tt)) (omega arith) refl refl

events_in_range-IsSorted_example :
    (es : List SyntheticEvent) × (events_in_range (at 2) (at 9) store ≡ ok es)
    × IsSorted (λ a b. leb_ℤ a.event_time b.event_time) es
    × All (Within (at 2) (at 9)) es
    × ((t : ℤ)
        → (at 2 ≤ℤ t) × (t ≤ℤ at 9)
        → keep (at_time t) es ≡ keep (at_time t) (map event_of store.records))
events_in_range-IsSorted_example = events_in_range-IsSorted (at 2) (at 9) store (omega arith)

abbrev minutes : List SyntheticEvent
minutes = event "evt_a" 1 ∷ event "evt_b" 100 ∷ event "evt_c" 130 ∷ []

window_counts-count_between_example :
    ((window_counts minutes (at 130)).count_1m
      ≡ count_between (at 130 -ℤ pos 60000000) (at 130) minutes)
    × ((window_counts minutes (at 130)).count_1h
        ≡ count_between (at 130 -ℤ pos 3600000000) (at 130) minutes)
    × ((window_counts minutes (at 130)).count_24h
        ≡ count_between (at 130 -ℤ pos 86400000000) (at 130) minutes)
    × ((window_counts minutes (at 130)).count_1m ≤ (window_counts minutes (at 130)).count_1h)
    × ((window_counts minutes (at 130)).count_1h ≤ (window_counts minutes (at 130)).count_24h)
window_counts-count_between_example = window_counts-count_between minutes (at 130)

select_window_events-events_in_range_example :
    events_in_range
      (window_bounds (at 9) window_1m).start
      (window_bounds (at 9) window_1m).end
      store
    ≡ ok (
        select_window_events
          (event "evt_a" 1 ∷ event "evt_c" 5 ∷ event "evt_b" 9 ∷ [])
          (at 9)
          window_1m)
unfolding program store
select_window_events-events_in_range_example =
    select_window_events-events_in_range store (at 9) window_1m
      (event "evt_a" 1 ∷ event "evt_c" 5 ∷ event "evt_b" 9 ∷ []) refl

compute_velocity_features-Triggers_example :
    (f : Features) × (compute_velocity_features store (event "evt_b" 9) ≡ ok f)
    × ((fires (high_code account window_1m) f ≡ true)
        ↔ (3 < entity_count account window_1m store (event "evt_b" 9)))
compute_velocity_features-Triggers_example =
    compute_velocity_features-Triggers account window_1m store (event "evt_b" 9)

answers-new_sequence_example :
    answers (2 + 1) (record { instants = at 1 ∷ at 0 ∷ []; index = 0 })
    ≡ map ok (at 1 ∷ at 0 ∷ []) ++ repeat 1
unfolding program
answers-new_sequence_example = answers-new_sequence (at 1 ∷ at 0 ∷ []) 1 _ refl
