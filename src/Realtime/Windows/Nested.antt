-- ===== src/Realtime/Windows/Nested.antt =====
-- The three windows nest, and a window of the 24-hour range is the store's own shorter range.
use secure_swipe.Prelude.{
  ◌≡◌, refl, sym, ap, ◌∙◌, ℕ, ◌+◌, ◌||◌, if◌then◌else◌, Bool, true, false, List, [], ◌∷◌, length,
  keep, map, arith, ◌≤◌,
}
use secure_swipe.Prelude.Int.{ℤ, pos, ltb_ℤ, ◌-ℤ◌, ◌≤ℤ◌, -ℤ_parts}
use secure_swipe.Prelude.Result.{ok}
use secure_swipe.Prelude.Sorting.{sort, length-sort}
use secure_swipe.Prelude.SortedList.{sort-keep-sort}
use secure_swipe.Realtime.Event.{SyntheticEvent}
use secure_swipe.Realtime.Store.{EventStore, events_in_range, in_range, time_leb, event_of}
use secure_swipe.Realtime.Store.Range.{time_leb_total, time_leb_trans}
use secure_swipe.Realtime.Windows.{
  WindowSize, window_1m, window_1h, window_24h, window_duration, window_bounds,
  select_window_events, window_counts,
}

-- A shorter window.
abbrev pub Narrower : WindowSize → WindowSize → Type 0
Narrower v w = window_duration v ≤ℤ window_duration w

pub in-Narrower :
    (v w : WindowSize) (as_of : ℤ)
    → Narrower v w
    → (e : SyntheticEvent) → in_range (as_of -ℤ window_duration v) as_of e ≡ true
    → in_range (as_of -ℤ window_duration w) as_of e ≡ true
in-Narrower v w as_of h e p =
    ground (arith, -ℤ_parts as_of (window_duration v), -ℤ_parts as_of (window_duration w))

pub Narrower-24h : (w : WindowSize) → Narrower w window_24h
Narrower-24h window_1m = omega arith
Narrower-24h window_1h = omega arith
Narrower-24h window_24h = omega arith

length-keep_mono {ℓ} :
    {A : Type ℓ} (p q : A → Bool) (xs : List A)
    → ((x : A) → p x ≡ true → q x ≡ true)
    → length (keep p xs) ≤ length (keep q xs)
unfolding keep
length-keep_mono p q [] h = omega arith
length-keep_mono p q (x ∷ xs) h = ground (arith, length-keep_mono p q xs h, h x)

pub length-select :
    (events : List SyntheticEvent) (as_of : ℤ) (w : WindowSize)
    → length (select_window_events events as_of w)
      ≡ length (keep (in_range (as_of -ℤ window_duration w) as_of) events)
unfolding select_window_events window_bounds
length-select events as_of w = length-sort time_leb _

select_mono :
    (events : List SyntheticEvent) (as_of : ℤ) (v w : WindowSize)
    → Narrower v w
    → length (select_window_events events as_of v) ≤ length (select_window_events events as_of w)
select_mono events as_of v w h = omega (
  arith,
  length-select events as_of v,
  length-select events as_of w,
  length-keep_mono (in_range (as_of -ℤ window_duration v) as_of)
      (in_range (as_of -ℤ window_duration w) as_of) events (in-Narrower v w as_of h),
)

-- The number of the events of a list that are neither before an instant nor after another.
abbrev pub count_between : ℤ → ℤ → List SyntheticEvent → ℕ
count_between first last [] = 0
count_between first last (e ∷ es) =
    (if ltb_ℤ e.event_time first || ltb_ℤ last e.event_time then 0 else 1)
    + count_between first last es

pub length-keep-in_range :
    (first last : ℤ) (events : List SyntheticEvent)
    → length (keep (in_range first last) events) ≡ count_between first last events
unfolding keep
length-keep-in_range first last [] = refl
length-keep-in_range first last (e ∷ es) = ground (arith, length-keep-in_range first last es)

-- The counts of the last minute, the last hour and the last 24 hours are the numbers of the given
-- events that lie from 60, 3,600 and 86,400 seconds before the instant up to the instant, both
-- ends included; and the first is at most the second, which is at most the third.
pub window_counts-count_between :
    (events : List SyntheticEvent) (as_of : ℤ)
    → ((window_counts events as_of).count_1m ≡ count_between (as_of -ℤ pos 60000000) as_of events)
      × ((window_counts events as_of).count_1h
          ≡ count_between (as_of -ℤ pos 3600000000) as_of events)
      × ((window_counts events as_of).count_24h
          ≡ count_between (as_of -ℤ pos 86400000000) as_of events)
      × ((window_counts events as_of).count_1m ≤ (window_counts events as_of).count_1h)
      × ((window_counts events as_of).count_1h ≤ (window_counts events as_of).count_24h)
unfolding window_counts
window_counts-count_between events as_of = (
  length-select events as_of window_1m ∙ length-keep-in_range _ as_of events,
  length-select events as_of window_1h ∙ length-keep-in_range _ as_of events,
  length-select events as_of window_24h ∙ length-keep-in_range _ as_of events,
  select_mono events as_of window_1m window_1h (omega arith),
  select_mono events as_of window_1h window_24h (omega arith),
)

pub bounds_ordered : (as_of : ℤ) (w : WindowSize) → ltb_ℤ as_of (as_of -ℤ window_duration w) ≡ false
bounds_ordered as_of window_1m = ground (arith, -ℤ_parts as_of (window_duration window_1m))
bounds_ordered as_of window_1h = ground (arith, -ℤ_parts as_of (window_duration window_1h))
bounds_ordered as_of window_24h = ground (arith, -ℤ_parts as_of (window_duration window_24h))

-- Whatever the store answers for the 24 hours before an instant, selecting a window from it gives
-- the store's own answer for that window, in the same order.
pub select_window_events-events_in_range :
    (s : EventStore) (as_of : ℤ) (w : WindowSize) (es : List SyntheticEvent)
    → events_in_range (window_bounds as_of window_24h).start as_of s ≡ ok es
    → events_in_range (window_bounds as_of w).start (window_bounds as_of w).end s
      ≡ ok (select_window_events es as_of w)
unfolding events_in_range window_bounds select_window_events
select_window_events-events_in_range s as_of w es h =
    let found : sort time_leb
          (keep (in_range (as_of -ℤ window_duration window_24h) as_of) (map event_of s.records))
        ≡ es =
      ground (arith, bounds_ordered as_of window_24h) in
    rw (bounds_ordered as_of w, ← found)
      (ap ok (
        sym (
          sort-keep-sort time_leb time_leb_total time_leb_trans
            (in_range (as_of -ℤ window_duration w) as_of)
            (in_range (as_of -ℤ window_duration window_24h) as_of) (map event_of s.records)
            (in-Narrower w window_24h as_of (Narrower-24h w)))))
