-- ===== src/Realtime/Features/Retries.antt =====
-- When the signals of features/retry.py fire.
use secure_swipe.Prelude.{
  ◌≡◌, ◌↔◌, refl, sym, subst, ◌∙◌, ℕ, ◌<◌, String, Bool, true, false, Option, none, some, List, [],
  ◌∷◌, length, keep, ◌==◌, ◌&&◌, string_eq, option_eq, ltb, arith,
}
use secure_swipe.Prelude.Int.{pos, ◌-ℤ◌}
use secure_swipe.Prelude.Sorting.{sort}
use secure_swipe.Realtime.Event.{SyntheticEvent}
use secure_swipe.Realtime.Store.{EventStore, time_leb}
use secure_swipe.Realtime.Windows.{window_1h}
use secure_swipe.Realtime.Windows.Nested.{count_between, length-keep-in_range}
use secure_swipe.Realtime.Features.{is_failure}
use secure_swipe.Realtime.Features.Context.{
  retry_group_size_threshold, account_failure_count_threshold, compute_retry_features,
  retry_features,
}
use secure_swipe.Realtime.Features.Pairing.{
  fires, contains-codes-append, contains-signal_if, in_window, stored, candidates_lem,
  length-keep-sort, Triggers,
}

-- The number of the stored events of the hour up to the event that a test picks out.
abbrev pub in_last_hour : (SyntheticEvent → Bool) → EventStore → SyntheticEvent → ℕ
in_last_hour p store e =
    count_between (e.event_time -ℤ pos 3600000000) e.event_time (keep p (stored store))

-- The event has a retry group, with more than three attempts in the last hour.
abbrev pub HasManyRetries : EventStore → SyntheticEvent → Type 0
HasManyRetries store e =
    (group : String) × (e.retry_group_id ≡ some group)
    × (3 < in_last_hour (λ c. c.retry_group_id == some group) store e)

-- The account has more than three declined or failed attempts in the last hour.
abbrev pub HasManyFailures : EventStore → SyntheticEvent → Type 0
HasManyFailures store e =
    3 < in_last_hour (λ c. c.account_id == e.account_id && is_failure c.outcome) store e

length-keep_comm :
    (p q : SyntheticEvent → Bool) (xs : List SyntheticEvent)
    → length (keep p (keep q xs)) ≡ length (keep q (keep p xs))
unfolding keep
length-keep_comm p q [] = refl
length-keep_comm p q (x ∷ xs) = ground (arith, length-keep_comm p q xs)

abbrev events_before : EventStore → SyntheticEvent → List SyntheticEvent
events_before store e = sort time_leb (keep (in_window window_1h e) (stored store))

length-in_last_hour :
    (p : SyntheticEvent → Bool) (store : EventStore) (e : SyntheticEvent)
    → length (keep p (events_before store e)) ≡ in_last_hour p store e
length-in_last_hour p store e =
    length-keep-sort p (keep (in_window window_1h e) (stored store))
    ∙ length-keep_comm p (in_window window_1h e) (stored store)
    ∙ length-keep-in_range _ e.event_time (keep p (stored store))

failures_code :
    (e : SyntheticEvent) (events : List SyntheticEvent)
    → fires "retry_account_failure_count_high" (retry_features e events)
      ≡ ltb account_failure_count_threshold
          (length (keep (λ c. c.account_id == e.account_id && is_failure c.outcome) events))
unfolding retry_features
failures_code e events = simp (contains-codes-append, contains-signal_if) (ground arith)

many_failures : Triggers compute_retry_features "retry_account_failure_count_high" HasManyFailures
unfolding compute_retry_features
many_failures store e = (
  retry_features e (events_before store e),
  rw (candidates_lem store e window_1h) refl,
  rw (failures_code e (events_before store e), length-in_last_hour _ store e)
      (λ h. ground arith, λ h. ground arith),
)

group_code :
    (e : SyntheticEvent) (group : Option String) (events : List SyntheticEvent)
    → e.retry_group_id ≡ group
    → fires "retry_group_size_high" (retry_features e events) ≡ elim group [
      | none ↦ false
      | some g ↦
          ltb retry_group_size_threshold (length (keep (λ c. c.retry_group_id == some g) events))
    ]
unfolding retry_features
group_code e none events h = rw h (simp (contains-codes-append, contains-signal_if) (ground arith))
group_code e (some g) events h =
    rw h (simp (contains-codes-append, contains-signal_if) (ground arith))

many_retries_iff :
    (store : EventStore) (e : SyntheticEvent) (group : Option String)
    → e.retry_group_id ≡ group
    → (fires "retry_group_size_high" (retry_features e (events_before store e)) ≡ true)
      ↔ HasManyRetries store e
many_retries_iff store e none h =
    rw (group_code e none (events_before store e) h) (λ k. cc, λ (g, k, _). cc)
many_retries_iff store e (some g) h =
    rw (group_code e (some g) (events_before store e) h, length-in_last_hour _ store e)
      (
        λ k. (g, h, ground arith),
        λ (g', k, many).
            let same =
              subst (λ o. 3 < in_last_hour (λ c. c.retry_group_id == o) store e) (sym k ∙ h) many in
            ground arith,
      )

many_retries : Triggers compute_retry_features "retry_group_size_high" HasManyRetries
unfolding compute_retry_features
many_retries store e = (
  retry_features e (events_before store e),
  rw (candidates_lem store e window_1h) refl,
  many_retries_iff store e e.retry_group_id refl,
)

-- For any store and event, the retry family answers without an error; it triggers the group
-- signal exactly when the event has a retry group that more than three stored events of the hour
-- up to the event have, and the failure signal exactly when more than three declined or failed
-- stored events of that hour are the account's.
pub compute_retry_features-Triggers :
    Triggers compute_retry_features "retry_group_size_high" HasManyRetries
    × Triggers compute_retry_features "retry_account_failure_count_high" HasManyFailures
compute_retry_features-Triggers = (many_retries, many_failures)
