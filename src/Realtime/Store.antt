-- ===== src/Realtime/Store.antt =====
-- The bounded in-memory event store (src/synthetic_realtime/store.py): idempotent recording, a
-- watermark that marks late events, eviction by age and by capacity. `self._clock.now()` is the
-- argument `now` of the calls that read the clock.
use secure_swipe.Prelude.{
  ◌≡◌, ℕ, ◌&&◌, not, String, Bool, true, false, Option, none, some, List, [], ◌∷◌, length, keep,
  map, ◌==◌, string_eq, if◌then◌else◌, ltb, leb,
}
use secure_swipe.Prelude.Int.{ℤ, pos, ◌-ℤ◌, ltb_ℤ, leb_ℤ}
use secure_swipe.Prelude.Dict
use secure_swipe.Prelude.Dict.{Dict}
use secure_swipe.Prelude.Sorting.{sort}
use secure_swipe.Prelude.Result.{Result, ok, err}
use secure_swipe.Realtime.Event.{
  SyntheticEvent, event_eq, DuplicateStatus, new, duplicate, OrderingStatus, in_order, late,
}
mod Lookup
pub mod Invariant
pub mod Replay
pub mod Range

pub data StoreError : Type 0 where
  retention_not_positive max_events_too_small start_after_end duplicate_conflict : StoreError

pub record RecordResult : Type 0 where
  pub duplicate_status : DuplicateStatus
  pub ordering_status : OrderingStatus
  pub stored_event : SyntheticEvent

pub record StoredRecord : Type 0 where
  pub event : SyntheticEvent
  pub ordering_status : OrderingStatus

pub record EventStore : Type 0 where
  pub retention : ℤ
  pub max_events : ℕ
  pub records : Dict String StoredRecord
  pub watermark : Option ℤ

unfoldable pub new_store : ℤ → ℕ → Result StoreError EventStore
new_store retention max_events =
    if leb_ℤ retention (pos 0)
    then err retention_not_positive
    else if ltb max_events 1
    then err max_events_too_small
    else ok
        (record { retention = retention; max_events = max_events; records = []; watermark = none })

unfoldable pub get : String → EventStore → Option SyntheticEvent
unfolding Dict.get
get event_id s = elim (Dict.get s.records event_id) [ none ↦ none | some r ↦ some r.event ]

abbrev pub in_range : ℤ → ℤ → SyntheticEvent → Bool
in_range start end e = leb_ℤ start e.event_time && leb_ℤ e.event_time end

abbrev pub time_leb : SyntheticEvent → SyntheticEvent → Bool
time_leb a b = leb_ℤ a.event_time b.event_time

abbrev pub event_of : String × StoredRecord → SyntheticEvent
event_of x = x.1.event

unfoldable pub events_in_range : ℤ → ℤ → EventStore → Result StoreError (List SyntheticEvent)
unfolding keep sort
events_in_range start end s =
    if ltb_ℤ end start
    then err start_after_end
    else ok (sort time_leb (keep (in_range start end) (map event_of s.records)))

unfoldable pub expired_ids : ℤ → Dict String StoredRecord → List String
expired_ids cutoff [] = []
expired_ids cutoff ((event_id, r) ∷ d) =
    let rest = expired_ids cutoff d in
    if ltb_ℤ r.event.event_time cutoff then event_id ∷ rest else rest

unfoldable pub remove_all : List String → Dict String StoredRecord → Dict String StoredRecord
unfolding Dict.remove
remove_all [] d = d
remove_all (event_id ∷ ids) d = remove_all ids (Dict.remove d event_id)

-- The store afterwards, and how many records went.
unfoldable pub evict_expired : ℤ → EventStore → EventStore × ℕ
unfolding expired_ids remove_all ◌-ℤ◌
evict_expired now s =
    let ids = expired_ids (now -ℤ s.retention) s.records in
    (record s { records = remove_all ids s.records }, length ids)

unfoldable pub reset : EventStore → EventStore
reset s = record s { records = []; watermark = none }

-- `popitem(last=False)` while the store is too long.
unfoldable pub enforce_capacity : ℕ → Dict String StoredRecord → Dict String StoredRecord
enforce_capacity max_events [] = []
enforce_capacity max_events (x ∷ d) =
    let rest = enforce_capacity max_events d in
    if ltb max_events (length (x ∷ d)) then rest else x ∷ d

abbrev pub ordering : Option ℤ → ℤ → OrderingStatus
ordering none t = in_order
ordering (some w) t = if ltb_ℤ t w then late else in_order

abbrev pub raise_watermark : Option ℤ → ℤ → Option ℤ
raise_watermark none t = some t
raise_watermark (some w) t = if ltb_ℤ w t then some t else some w

-- The recording of an event whose identifier the store does not hold.
unfoldable pub record_new : SyntheticEvent → EventStore → EventStore × RecordResult
unfolding Dict.put enforce_capacity
record_new e s =
    let status = ordering s.watermark e.event_time in
    let records = Dict.put s.records e.event_id (record { event = e; ordering_status = status }) in
    (
      record s {
        records = enforce_capacity s.max_events records;
        watermark = raise_watermark s.watermark e.event_time;
      },
      record { duplicate_status = new; ordering_status = status; stored_event = e },
    )

-- The answer for an event whose identifier the store holds.
abbrev pub replay : SyntheticEvent → StoredRecord → Result StoreError RecordResult
replay e r =
    if not (r.event == e)
    then err duplicate_conflict
    else ok (record {
      duplicate_status = duplicate;
      ordering_status = r.ordering_status;
      stored_event = r.event;
    })

-- The store after the call, raised or not, and its answer.
unfoldable pub record_event :
    ℤ → SyntheticEvent → EventStore → EventStore × Result StoreError RecordResult
unfolding evict_expired Dict.get record_new
record_event now e s =
    let s = (evict_expired now s).0 in
    elim (Dict.get s.records e.event_id) [
      | some r ↦ (s, replay e r)
      | none ↦ ((record_new e s).0, ok (record_new e s).1)
    ]

-- What a client does to the store: records at an instant, evictions at an instant, a reset.
pub data Call : Type 0 where
  record_call : ℤ → SyntheticEvent → Call
  evict_call : ℤ → Call
  reset_call : Call

unfoldable pub call : Call → EventStore → EventStore
unfolding record_event evict_expired reset
call (record_call now e) s = (record_event now e s).0
call (evict_call now) s = (evict_expired now s).0
call reset_call s = reset s

unfoldable pub run : List Call → EventStore → EventStore
unfolding call
run [] s = s
run (c ∷ cs) s = run cs (call c s)
