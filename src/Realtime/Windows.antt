-- ===== src/Realtime/Windows.antt =====
-- Event-time windows (src/synthetic_realtime/windows.py): bounds, selection, counts. The size is
-- a literal type, so an unknown one does not occur. The amount aggregates are floats, and left
-- out.
use secure_swipe.Prelude.{
  ◌≡◌, ℕ, String, Bool, true, false, List, [], ◌∷◌, length, keep, contains, string_eq,
  if◌then◌else◌,
}
use secure_swipe.Prelude.Int.{ℤ, pos, ◌-ℤ◌}
use secure_swipe.Prelude.Sorting.{sort}
use secure_swipe.Realtime.Event.{SyntheticEvent}
use secure_swipe.Realtime.Store.{in_range, time_leb}
pub mod Nested

pub data WindowSize : Type 0 where
  window_1m window_1h window_24h : WindowSize

-- In microseconds.
abbrev pub window_duration : WindowSize → ℤ
window_duration window_1m = pos 60000000
window_duration window_1h = pos 3600000000
window_duration window_24h = pos 86400000000

pub record WindowBounds : Type 0 where
  pub start : ℤ
  pub end : ℤ

unfoldable pub window_bounds : ℤ → WindowSize → WindowBounds
unfolding ◌-ℤ◌
window_bounds as_of window = record { start = as_of -ℤ window_duration window; end = as_of }

unfoldable pub select_window_events : List SyntheticEvent → ℤ → WindowSize → List SyntheticEvent
unfolding sort keep window_bounds
select_window_events events as_of window =
    let bounds = window_bounds as_of window in
    sort time_leb (keep (in_range bounds.start bounds.end) events)

pub record WindowCounts : Type 0 where
  pub count_1m : ℕ
  pub count_1h : ℕ
  pub count_24h : ℕ

abbrev pub count : List SyntheticEvent → ℕ
count events = length events

unfoldable pub window_counts : List SyntheticEvent → ℤ → WindowCounts
unfolding select_window_events
window_counts events as_of = record {
  count_1m = count (select_window_events events as_of window_1m);
  count_1h = count (select_window_events events as_of window_1h);
  count_24h = count (select_window_events events as_of window_24h);
}

-- The set `{key(event) for event in events}`, without its order.
unfoldable pub distinct : (SyntheticEvent → String) → List SyntheticEvent → List String
unfolding contains
distinct key [] = []
distinct key (e ∷ es) =
    let rest = distinct key es in if contains rest (key e) then rest else key e ∷ rest

unfoldable pub distinct_count : (SyntheticEvent → String) → List SyntheticEvent → ℕ
unfolding distinct
distinct_count key events = length (distinct key events)
