-- ===== src/Realtime/Store/Invariant.antt =====
-- The store's invariant: bounded, one record for each identifier, filed under its own event's
-- identifier, and no event newer than the watermark.
use secure_swipe.Prelude.{
  ◌≡◌, refl, ◌∙◌, ℕ, ◌≤◌, String, Option, none, some, List, [], ◌∷◌, length, arith, All, Bool-cases,
  Option-cases, inl, inr, ◌==◌, string_eq,
}
use secure_swipe.Prelude.Int.{ℤ, ◌≤ℤ◌}
use secure_swipe.Prelude.Dict
use secure_swipe.Prelude.Dict.{Dict, IsDistinct, put-IsDistinct}
use secure_swipe.Prelude.Result.{ok}
use secure_swipe.Realtime.Event.{SyntheticEvent, event_eq}
use secure_swipe.Realtime.Store.{
  EventStore, StoredRecord, expired_ids, new_store, evict_expired, reset, record_new, record_event,
  ordering, raise_watermark, Call, record_call, evict_call, reset_call, call, run,
}
use secure_swipe.Realtime.Store.Lookup.{
  Records, remove_all-keeps, enforce_capacity-keeps, length-enforce_capacity, remove-IsDistinct,
  length-remove-le,
}

-- No event is newer than the watermark.
abbrev pub IsSeen : Option ℤ → SyntheticEvent → Type 0
IsSeen none e = ⊥
IsSeen (some w) e = e.event_time ≤ℤ w

abbrev pub IsFiled : Option ℤ → String × StoredRecord → Type 0
IsFiled w x = (x.0 ≡ x.1.event.event_id) × IsSeen w x.1.event

abbrev pub IsWellFormed : EventStore → Type 0
IsWellFormed s =
    IsDistinct s.records × All (IsFiled s.watermark) s.records × (length s.records ≤ s.max_events)

All-remove {ℓ} :
    (P : String × StoredRecord → Type ℓ) (d : Records) (k : String)
    → All P d
    → All P (Dict.remove d k)
unfolding Dict.remove
All-remove P [] k h = tt
All-remove P ((j, r) ∷ d) k h = elim (Bool-cases (j == k)) [
  | inl p ↦ rw p (All-remove P d k h.1)
  | inr p ↦ rw p (h.0, All-remove P d k h.1)
]

All-put_new {ℓ} :
    (P : String × StoredRecord → Type ℓ) (d : Records) (k : String) (r : StoredRecord)
    → Dict.get d k ≡ none
    → P (k, r)
    → All P d
    → All P (Dict.put d k r)
unfolding Dict.put Dict.get
All-put_new P [] k r h p q = (p, tt)
All-put_new P ((j, w) ∷ d) k r h p q = elim (Bool-cases (j == k)) [
  | inl e ↦ cc
  | inr e ↦ rw e (q.0, All-put_new P d k r (ground arith) p q.1)
]

IsSeen-raise :
    (w : Option ℤ) (t : ℤ) (e : SyntheticEvent) → IsSeen w e → IsSeen (raise_watermark w t) e
IsSeen-raise none t e h = absurd h
IsSeen-raise (some w) t e h = ground arith

IsSeen-new : (w : Option ℤ) (e : SyntheticEvent) → IsSeen (raise_watermark w e.event_time) e
IsSeen-new none e = omega arith
IsSeen-new (some w) e = ground arith

All-IsFiled-raise :
    (w : Option ℤ) (t : ℤ) (d : Records) → All (IsFiled w) d → All (IsFiled (raise_watermark w t)) d
All-IsFiled-raise w t [] h = tt
All-IsFiled-raise w t (x ∷ d) h =
    ((h.0.0, IsSeen-raise w t x.1.event h.0.1), All-IsFiled-raise w t d h.1)

evict-IsWellFormed :
    (now : ℤ) (s : EventStore) → IsWellFormed s → IsWellFormed (evict_expired now s).0
unfolding evict_expired
evict-IsWellFormed now s h =
    remove_all-keeps (λ d. IsDistinct d × All (IsFiled s.watermark) d × (length d ≤ s.max_events))
      (λ d k p. (
        remove-IsDistinct d k p.0,
        All-remove (IsFiled s.watermark) d k p.1,
        omega (arith, p, length-remove-le d k),
      ))
      (expired_ids _ s.records) s.records h

record_new-IsWellFormed :
    (e : SyntheticEvent) (s : EventStore)
    → Dict.get s.records e.event_id ≡ none
    → IsWellFormed s
    → IsWellFormed (record_new e s).0
unfolding record_new
record_new-IsWellFormed e s p h =
    let w = raise_watermark s.watermark e.event_time in
    let r : StoredRecord = record {
      event = e;
      ordering_status = ordering s.watermark e.event_time;
    } in
    let d = Dict.put s.records e.event_id r in
    (
      enforce_capacity-keeps IsDistinct (λ _ _ q. q.1) s.max_events d
          (put-IsDistinct s.records e.event_id r h.0),
      enforce_capacity-keeps (All (IsFiled w)) (λ _ _ q. q.1) s.max_events d
          (All-put_new (IsFiled w) s.records e.event_id r p (refl, IsSeen-new s.watermark e)
            (All-IsFiled-raise s.watermark e.event_time s.records h.1)),
      length-enforce_capacity s.max_events d,
    )

pub record_event-IsWellFormed :
    (now : ℤ) (e : SyntheticEvent) (s : EventStore)
    → IsWellFormed s
    → IsWellFormed (record_event now e s).0
unfolding record_event
record_event-IsWellFormed now e s h =
    let k = evict-IsWellFormed now s h in
    elim (Option-cases (Dict.get (evict_expired now s).0.records e.event_id)) [
      | inl p ↦ rw (p, record_event) (record_new-IsWellFormed e (evict_expired now s).0 p k)
      | inr p ↦ rw (p.1, record_event) k
    ]

pub call-IsWellFormed : (c : Call) (s : EventStore) → IsWellFormed s → IsWellFormed (call c s)
unfolding call reset
call-IsWellFormed (record_call now e) s h = record_event-IsWellFormed now e s h
call-IsWellFormed (evict_call now) s h = evict-IsWellFormed now s h
call-IsWellFormed reset_call s h = (tt, tt, omega arith)

pub call-max_events : (c : Call) (s : EventStore) → (call c s).max_events ≡ s.max_events
unfolding call reset record_event evict_expired record_new
call-max_events (record_call now e) s = ground arith
call-max_events (evict_call now) s = refl
call-max_events reset_call s = refl

pub call-retention : (c : Call) (s : EventStore) → (call c s).retention ≡ s.retention
unfolding call reset record_event evict_expired record_new
call-retention (record_call now e) s = ground arith
call-retention (evict_call now) s = refl
call-retention reset_call s = refl

pub run-keeps {ℓ} :
    (P : EventStore → Type ℓ)
    → ((c : Call) (s : EventStore) → P s → P (call c s))
    → (cs : List Call) (s : EventStore) → P s
    → P (run cs s)
unfolding run
run-keeps P h [] s p = p
run-keeps P h (c ∷ cs) s p = run-keeps P h cs (call c s) (h c s p)

-- After any sequence of recordings, evictions and resets of a store that the constructor
-- accepted, the store holds at most `max_events` records, no identifier twice, each record under
-- its own event's identifier, and no event newer than the watermark.
pub run-IsWellFormed :
    (retention : ℤ) (max_events : ℕ) (s : EventStore) (cs : List Call)
    → new_store retention max_events ≡ ok s
    → (length (run cs s).records ≤ max_events) × IsWellFormed (run cs s)
unfolding new_store
run-IsWellFormed retention max_events s cs h =
    let fresh : (s.records ≡ []) × (s.max_events ≡ max_events) = ground arith in
    let start : IsWellFormed s = rw fresh.0 (tt, tt, omega arith) in
    let size =
      run-keeps (λ t. t.max_events ≡ max_events) (λ c t p. call-max_events c t ∙ p) cs s fresh.1 in
    let all = run-keeps IsWellFormed call-IsWellFormed cs s start in
    (omega (arith, size, all.2), all)
