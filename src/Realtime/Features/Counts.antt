-- ===== src/Realtime/Features/Counts.antt =====
-- The velocity signals count the store's own records.
use secure_swipe.Prelude.{
  ◌≡◌, refl, ◌∙◌, ℕ, ◌<◌, Bool, true, false, List, [], ◌∷◌, length, keep, ◌==◌, string_eq, ltb,
  ◌&&◌, ◌||◌, arith,
}
use secure_swipe.Prelude.Int.{◌-ℤ◌}
use secure_swipe.Prelude.Sorting.{sort}
use secure_swipe.Realtime.Event.{SyntheticEvent}
use secure_swipe.Realtime.Store.{EventStore, time_leb}
use secure_swipe.Realtime.Windows.{
  WindowSize, window_duration, window_1m, window_1h, window_24h, window_counts,
  select_window_events,
}
use secure_swipe.Realtime.Windows.Nested.{
  in-Narrower, Narrower-24h, length-select, length-keep-in_range, count_between,
}
use secure_swipe.Realtime.Features.{sharing}
use secure_swipe.Realtime.Features.Velocity.{
  EntityLabel, account, device, payment_method, merchant, extractor, count_threshold, high_code,
  count_of, entity_counts, entity_signals, velocity_features, compute_velocity_features,
}
use secure_swipe.Realtime.Features.Pairing.{
  fires, contains-codes-append, contains-signal_if, in_window, stored, candidates_lem,
  length-keep-keep-sort, Triggers,
}

-- How many stored events of the window that ends with the event share the entity with it.
abbrev pub entity_count : EntityLabel → WindowSize → EventStore → SyntheticEvent → ℕ
entity_count label w store e =
    count_between (e.event_time -ℤ window_duration w) e.event_time
      (keep (λ c. extractor label c == extractor label e) (stored store))

length-keep-three :
    (p q r : SyntheticEvent → Bool) (xs : List SyntheticEvent)
    → ((x : SyntheticEvent) → p x ≡ true → r x ≡ true)
    → length (keep p (keep q (keep r xs))) ≡ length (keep p (keep q xs))
unfolding keep
length-keep-three p q r [] h = refl
length-keep-three p q r (x ∷ xs) h = ground (arith, length-keep-three p q r xs h, h x)

abbrev events_before : EventStore → SyntheticEvent → List SyntheticEvent
events_before store e = sort time_leb (keep (in_window window_24h e) (stored store))

length-select-sharing :
    (label : EntityLabel) (w : WindowSize) (store : EventStore) (e : SyntheticEvent)
    → length
        (select_window_events (sharing (extractor label) e (events_before store e)) e.event_time w)
      ≡ entity_count label w store e
length-select-sharing label w store e =
    let same = λ (c : SyntheticEvent). extractor label c == extractor label e in
    length-select (sharing (extractor label) e (events_before store e)) e.event_time w
    ∙ length-keep-keep-sort (in_window w e) same (keep (in_window window_24h e) (stored store))
    ∙ length-keep-three (in_window w e) same (in_window window_24h e) (stored store)
        (in-Narrower w window_24h e.event_time (Narrower-24h w))
    ∙ length-keep-in_range _ e.event_time (keep same (stored store))

count_of-entity_counts :
    (label : EntityLabel) (w : WindowSize) (store : EventStore) (e : SyntheticEvent)
    → count_of (entity_counts label e (events_before store e)) w ≡ entity_count label w store e
unfolding entity_counts window_counts
count_of-entity_counts label window_1m store e = length-select-sharing label window_1m store e
count_of-entity_counts label window_1h store e = length-select-sharing label window_1h store e
count_of-entity_counts label window_24h store e = length-select-sharing label window_24h store e

and_true : (b : Bool) → (b && true) ≡ b
and_true true = refl
and_true false = refl

and_false : (b : Bool) → (b && false) ≡ false
and_false true = refl
and_false false = refl

or_false : (b : Bool) → (b || false) ≡ b
or_false true = refl
or_false false = refl

false_or : (b : Bool) → (false || b) ≡ b
false_or b = refl

ruleset bool_laws = (and_true, and_false, or_false, false_or)

velocity_code :
    (label : EntityLabel) (w : WindowSize) (e : SyntheticEvent) (events : List SyntheticEvent)
    → fires (high_code label w) (velocity_features e events)
      ≡ ltb (count_threshold w) (count_of (entity_counts label e events) w)
unfolding velocity_features entity_signals
velocity_code account window_1m e events =
    simp (contains-codes-append, contains-signal_if, bool_laws)
velocity_code account window_1h e events =
    simp (contains-codes-append, contains-signal_if, bool_laws)
velocity_code account window_24h e events =
    simp (contains-codes-append, contains-signal_if, bool_laws)
velocity_code device window_1m e events =
    simp (contains-codes-append, contains-signal_if, bool_laws)
velocity_code device window_1h e events =
    simp (contains-codes-append, contains-signal_if, bool_laws)
velocity_code device window_24h e events =
    simp (contains-codes-append, contains-signal_if, bool_laws)
velocity_code payment_method window_1m e events =
    simp (contains-codes-append, contains-signal_if, bool_laws)
velocity_code payment_method window_1h e events =
    simp (contains-codes-append, contains-signal_if, bool_laws)
velocity_code payment_method window_24h e events =
    simp (contains-codes-append, contains-signal_if, bool_laws)
velocity_code merchant window_1m e events =
    simp (contains-codes-append, contains-signal_if, bool_laws)
velocity_code merchant window_1h e events =
    simp (contains-codes-append, contains-signal_if, bool_laws)
velocity_code merchant window_24h e events =
    simp (contains-codes-append, contains-signal_if, bool_laws)

-- For each entity of an event (its account, device, payment method and merchant) and each window
-- (a minute, an hour, a day), the velocity family answers without an error and triggers that
-- entity's signal for that window exactly when the stored events of the window that share the
-- entity with the event outnumber the window's threshold.
pub compute_velocity_features-Triggers :
    (label : EntityLabel) (w : WindowSize)
    → Triggers compute_velocity_features
        (high_code label w)
        (λ store e. count_threshold w < entity_count label w store e)
unfolding compute_velocity_features
compute_velocity_features-Triggers label w store e =
    let count = count_of-entity_counts label w store e in
    (
      velocity_features e (events_before store e),
      rw (candidates_lem store e window_24h) refl,
      rw (velocity_code label w e (events_before store e), count)
          (λ h. ground arith, λ h. ground arith),
    )
