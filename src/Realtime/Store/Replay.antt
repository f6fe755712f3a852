-- ===== src/Realtime/Store/Replay.antt =====
-- Idempotency: an event recorded once answers a resubmission with its first classification, as
-- long as its age and the store's capacity leave it there.
use secure_swipe.Prelude.{
  ◌≡◌, ◌≢◌, refl, sym, ◌∙◌, ap, ℕ, suc, ◌+◌, ◌≤◌, ◌<◌, String, false, none, some, List, [], ◌∷◌,
  length, arith, eq_iff, All, Bool-cases, Option-cases, inl, inr, ◌==◌, string_eq,
}
use secure_swipe.Prelude.Int.{ℤ, ltb_ℤ, ◌-ℤ◌}
use secure_swipe.Prelude.Dict
use secure_swipe.Prelude.Dict.{get-put}
use secure_swipe.Prelude.Result.{ok, err}
use secure_swipe.Realtime.Event.{SyntheticEvent, event_eq, event_beq_iff, new, duplicate}
use secure_swipe.Realtime.Store.{
  EventStore, StoredRecord, evict_expired, record_new, record_event, replay, ordering, RecordResult,
  duplicate_conflict, Call, record_call, evict_call, reset_call, call, run,
}
use secure_swipe.Realtime.Store.Lookup.{
  expired, get-evict, behind, behind-evict, behind-put, behind-put_new, enforce_capacity-behind,
}
use secure_swipe.Realtime.Store.Invariant.{
  IsWellFormed, record_event-IsWellFormed, call-IsWellFormed, call-max_events, call-retention,
}

-- The store holds the record `r` under `k`, with at most `b` records behind it.
abbrev IsKept : String → StoredRecord → ℕ → EventStore → Type 0
IsKept k r b s = (Dict.get s.records k ≡ some r) × (behind s.records k ≤ b)

-- The call is no reset, and its instant leaves an event of the time `t` within the retention.
abbrev pub IsSparing : ℤ → ℤ → Call → Type 0
IsSparing retention t (record_call now e) = ltb_ℤ t (now -ℤ retention) ≡ false
IsSparing retention t (evict_call now) = ltb_ℤ t (now -ℤ retention) ≡ false
IsSparing retention t reset_call = ⊥

evict-IsKept :
    (now : ℤ) (s : EventStore) (k : String) (r : StoredRecord) (b : ℕ)
    → IsWellFormed s
    → ltb_ℤ r.event.event_time (now -ℤ s.retention) ≡ false
    → IsKept k r b s
    → IsKept k r b (evict_expired now s).0
unfolding evict_expired
evict-IsKept now s k r b wf h p =
    let fresh : expired (now -ℤ s.retention) (Dict.get s.records k) ≡ false = rw p.0 h in
    (
      get-evict (now -ℤ s.retention) s.records k wf.0 ∙ (rw fresh p.0),
      omega (arith, p.1, behind-evict (now -ℤ s.retention) s.records k wf.0 fresh),
    )

record_new-IsKept :
    (e : SyntheticEvent) (s : EventStore) (k : String) (r : StoredRecord) (b : ℕ)
    → Dict.get s.records e.event_id ≡ none
    → suc b < s.max_events
    → IsKept k r b s
    → IsKept k r (suc b) (record_new e s).0
unfolding record_new
record_new-IsKept e s k r b q m p =
    let w : StoredRecord = record {
      event = e;
      ordering_status = ordering s.watermark e.event_time;
    } in
    let d = Dict.put s.records e.event_id w in
    let found : Dict.get d k ≡ some r =
      ground (arith, get-put s.records e.event_id k w, eq_iff e.event_id k) in
    let b = behind-put s.records k e.event_id w in
    let rest = enforce_capacity-behind s.max_events d k r found (omega (arith, p.1, b, m)) in
    (rest.0, omega (arith, rest.1, b, p.1))

call-IsKept :
    (c : Call) (s : EventStore) (k : String) (r : StoredRecord) (b : ℕ)
    → IsWellFormed s
    → IsSparing s.retention r.event.event_time c
    → suc b < s.max_events
    → IsKept k r b s
    → IsKept k r (suc b) (call c s)
unfolding call record_event
call-IsKept (evict_call now) s k r b wf h m p =
    let q = evict-IsKept now s k r b wf h p in (q.0, omega (arith, q.1))
call-IsKept reset_call s k r b wf h m p = absurd h
call-IsKept (record_call now e) s k r b wf h m p =
    let q = evict-IsKept now s k r b wf h p in
    let same : (evict_expired now s).0.max_events ≡ s.max_events = unfold evict_expired in refl in
    elim (Option-cases (Dict.get (evict_expired now s).0.records e.event_id)) [
      | inl n ↦
          rw (n, call, record_event)
            (record_new-IsKept e (evict_expired now s).0 k r b n (omega (arith, m, same)) q)
      | inr n ↦ rw (n.1, call, record_event) (q.0, omega (arith, q.1))
    ]

run-IsKept :
    (cs : List Call) (s : EventStore) (k : String) (r : StoredRecord) (b : ℕ)
    → IsWellFormed s
    → All (IsSparing s.retention r.event.event_time) cs
    → b + length cs < s.max_events
    → IsKept k r b s
    → IsKept k r (b + length cs) (run cs s)
      × IsWellFormed (run cs s)
      × ((run cs s).retention ≡ s.retention)
unfolding run
run-IsKept [] s k r b wf h m p = ((p.0, omega (arith, p.1)), wf, refl)
run-IsKept (c ∷ cs) s k r b wf h m p =
    let kept = call-IsKept c s k r b wf h.0 (omega (arith, m)) p in
    let rest =
      run-IsKept cs (call c s) k r (suc b) (call-IsWellFormed c s wf) (rw (call-retention c s) h.1)
        (omega (arith, m, call-max_events c s)) kept in
    ((rest.0.0, omega (arith, rest.0.1)), rest.1, rest.2 ∙ call-retention c s)

-- A recording that answers `new` found no record, and files the event last.
new-record_new :
    (now : ℤ) (e : SyntheticEvent) (s : EventStore) (first : RecordResult)
    → (record_event now e s).1 ≡ ok first
    → first.duplicate_status ≡ new
    → (Dict.get (evict_expired now s).0.records e.event_id ≡ none)
      × ((record_event now e s).0 ≡ (record_new e (evict_expired now s).0).0)
      × (first ≡ (record_new e (evict_expired now s).0).1)
unfolding record_event
new-record_new now e s first h p =
    elim (Option-cases (Dict.get (evict_expired now s).0.records e.event_id)) [
      | inl n ↦ ground arith
      | inr n ↦ absurd (ground arith)
    ]

-- What the store holds under the identifier of an event that is new to it, once it is recorded.
abbrev filed : SyntheticEvent → RecordResult → StoredRecord
filed e first = record { event = e; ordering_status = first.ordering_status }

record_new-IsFirst :
    (e : SyntheticEvent) (s : EventStore)
    → Dict.get s.records e.event_id ≡ none
    → 0 < s.max_events
    → IsKept e.event_id (filed e (record_new e s).1) 0 (record_new e s).0
unfolding record_new
record_new-IsFirst e s n m =
    let w : StoredRecord = record {
      event = e;
      ordering_status = ordering s.watermark e.event_time;
    } in
    let d = Dict.put s.records e.event_id w in
    let found : Dict.get d e.event_id ≡ some w =
      ground (arith, get-put s.records e.event_id e.event_id w, eq_iff e.event_id e.event_id) in
    let last = behind-put_new s.records e.event_id w n in
    let rest = enforce_capacity-behind s.max_events d e.event_id w found (omega (arith, last, m)) in
    (rest.0, omega (arith, rest.1, last))

record_new_stored :
    (e : SyntheticEvent) (s : EventStore)
    → ((record_new e s).1.stored_event ≡ e)
      × ((record_new e s).0.retention ≡ s.retention)
      × ((record_new e s).0.max_events ≡ s.max_events)
unfolding record_new
record_new_stored e s = (refl, refl, refl)

first_IsKept :
    (now : ℤ) (e : SyntheticEvent) (s : EventStore) (first : RecordResult)
    → IsWellFormed s
    → (record_event now e s).1 ≡ ok first
    → first.duplicate_status ≡ new
    → 0 < s.max_events
    → IsKept e.event_id (filed e first) 0 (record_event now e s).0
      × (first.stored_event ≡ e)
      × ((record_event now e s).0.retention ≡ s.retention)
      × ((record_event now e s).0.max_events ≡ s.max_events)
unfolding evict_expired
first_IsKept now e s first wf h fresh m =
    let n = new-record_new now e s first h fresh in
    let kept = record_new-IsFirst e (evict_expired now s).0 n.0 m in
    let facts = record_new_stored e (evict_expired now s).0 in
    (rw (n.1, n.2) kept, rw n.2 facts.0, rw n.1 facts.1, rw n.1 facts.2)

-- The answer to a resubmission of an event that the store still holds.
kept_answer :
    (later : ℤ) (e e' : SyntheticEvent) (r : StoredRecord) (b : ℕ) (s : EventStore)
    → e'.event_id ≡ e.event_id
    → IsWellFormed s
    → ltb_ℤ r.event.event_time (later -ℤ s.retention) ≡ false
    → IsKept e.event_id r b s
    → (record_event later e' s).1 ≡ replay e' r
unfolding record_event
kept_answer later e e' r b s p wf h k =
    let found : Dict.get (evict_expired later s).0.records e'.event_id ≡ some r =
      ap (Dict.get (evict_expired later s).0.records) p
      ∙ (evict-IsKept later s e.event_id r b wf h k).0 in
    rw (found, record_event) refl

replay-same :
    (e : SyntheticEvent) (first : RecordResult)
    → first.stored_event ≡ e
    → replay e (filed e first) ≡ ok (record first { duplicate_status = duplicate })
replay-same e first h = ground (arith, event_beq_iff e e)

replay-other :
    (e e' : SyntheticEvent) (first : RecordResult)
    → e' ≢ e
    → replay e' (filed e first) ≡ err duplicate_conflict
replay-other e e' first h = elim (Bool-cases (e == e')) [
  | inl p ↦ absurd (h (sym ((event_beq_iff e e').0 p)))
  | inr p ↦ rw p refl
]

-- Suppose a well-formed store answers an event `new`. Then, after fewer than `max_events` further
-- recordings and evictions, none at an instant that leaves the event older than the retention,
-- and at such a later instant, an equal event is answered `duplicate` with the stored event and
-- the ordering of the first answer, and a different event with the same identifier is refused as
-- a conflict.
pub record_event-idempotent :
    (now : ℤ) (e : SyntheticEvent) (s : EventStore) (first : RecordResult) (cs : List Call)
    (later : ℤ) (e' : SyntheticEvent)
    → IsWellFormed s
    → (record_event now e s).1 ≡ ok first
    → first.duplicate_status ≡ new
    → All (IsSparing s.retention e.event_time) cs
    → length cs < s.max_events
    → ltb_ℤ e.event_time (later -ℤ s.retention) ≡ false
    → e'.event_id ≡ e.event_id
    → (e' ≡ e
        → (record_event later e' (run cs (record_event now e s).0)).1
          ≡ ok (record first { duplicate_status = duplicate }))
      × (e' ≢ e
          → (record_event later e' (run cs (record_event now e s).0)).1 ≡ err duplicate_conflict)
record_event-idempotent now e s first cs later e' wf h is_new sparing short fresh same =
    let held = first_IsKept now e s first wf h is_new (omega (arith, short)) in
    let rest =
      run-IsKept cs (record_event now e s).0 e.event_id (filed e first) 0
        (record_event-IsWellFormed now e s wf) (rw held.2 sparing) (omega (arith, short, held.3))
        held.0 in
    let answer =
      kept_answer later e e' (filed e first) (0 + length cs) (run cs (record_event now e s).0) same
        rest.1 (rw (rest.2, held.2) fresh) rest.0 in
    (λ p. answer ∙ (rw p (replay-same e first held.1)), λ p. answer ∙ replay-other e e' first p)
