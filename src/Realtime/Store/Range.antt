-- ===== src/Realtime/Store/Range.antt =====
-- The range query returns the stored events of the range, oldest first, those of one instant in
-- the order of arrival.
use secure_swipe.Prelude.{◌≡◌, refl, ◌∙◌, Bool, true, false, List, keep, All, map, ◌==◌, arith}
use secure_swipe.Prelude.Int.{ℤ, leb_ℤ, ltb_ℤ, int_eq, int_beq_iff, ◌≤ℤ◌}
use secure_swipe.Prelude.Result.{ok}
use secure_swipe.Prelude.Sorting.{
  sort, IsSorted, sort-IsSorted, All-sort, All-keep, keep-keep, keep-sort,
}
use secure_swipe.Realtime.Event.{SyntheticEvent}
use secure_swipe.Realtime.Store.{EventStore, events_in_range, in_range, time_leb, event_of}

pub time_leb_total : (a b : SyntheticEvent) → time_leb a b ≡ false → time_leb b a ≡ true
time_leb_total a b h = ground arith

pub time_leb_trans :
    (a b c : SyntheticEvent) → time_leb a b ≡ true → time_leb b c ≡ true → time_leb a c ≡ true
time_leb_trans a b c h k = ground arith

abbrev pub at_time : ℤ → SyntheticEvent → Bool
at_time t e = e.event_time == t

time_leb_level :
    (t : ℤ) (a b : SyntheticEvent) → at_time t a ≡ true → at_time t b ≡ true → time_leb a b ≡ true
time_leb_level t a b h k = ground (arith, int_beq_iff a.event_time t, int_beq_iff b.event_time t)

at_time-in_range :
    (start end t : ℤ)
    → start ≤ℤ t
    → t ≤ℤ end
    → (e : SyntheticEvent) → at_time t e ≡ true
    → in_range start end e ≡ true
at_time-in_range start end t low high e h = ground (arith, int_beq_iff e.event_time t)

-- An event's time lies between the two instants, both included.
abbrev pub Within : ℤ → ℤ → SyntheticEvent → Type 0
Within start end e = (start ≤ℤ e.event_time) × (e.event_time ≤ℤ end)

-- A query whose start is not after its end returns a list that ascends by event time, of events
-- from the start to the end, both included, and that has at each such instant exactly the stored
-- events of the instant, in the order in which the store keeps them.
pub events_in_range-IsSorted :
    (start end : ℤ) (s : EventStore)
    → start ≤ℤ end
    → (es : List SyntheticEvent) × (events_in_range start end s ≡ ok es)
      × IsSorted (λ a b. leb_ℤ a.event_time b.event_time) es
      × All (Within start end) es
      × ((t : ℤ)
          → (start ≤ℤ t) × (t ≤ℤ end)
          → keep (at_time t) es ≡ keep (at_time t) (map event_of s.records))
unfolding events_in_range
events_in_range-IsSorted start end s h =
    let stored = map event_of s.records in
    let xs = keep (in_range start end) stored in
    let ordered : ltb_ℤ end start ≡ false = ground arith in
    (
      sort time_leb xs,
      rw ordered refl,
      sort-IsSorted time_leb time_leb_total time_leb_trans xs,
      All-sort time_leb (Within start end) xs
          (All-keep (Within start end) (in_range start end) stored (λ e p. ground arith)),
      λ t (low, high).
          keep-sort time_leb (at_time t) (time_leb_level t) xs
          ∙ keep-keep (at_time t) (in_range start end) stored
              (at_time-in_range start end t low high),
    )
