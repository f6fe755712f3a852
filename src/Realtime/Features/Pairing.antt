-- ===== src/Realtime/Features/Pairing.antt =====
-- What the signals mean in terms of the store's own records.
use secure_swipe.Prelude.{
  ◌≡◌, ◌↔◌, refl, ◌∙◌, ap, ℕ, String, Bool, true, List, [], ◌∷◌, ◌++◌, length, keep, map, contains,
  ◌==◌, string_eq, eq_iff, ◌&&◌, ◌||◌, arith, All,
}
use secure_swipe.Prelude.Int.{pos, ◌-ℤ◌}
use secure_swipe.Prelude.Result.{Result, ok}
use secure_swipe.Prelude.Sorting.{sort, length-sort}
use secure_swipe.Prelude.SortedList.{keep_of_sort}
use secure_swipe.Realtime.Event.{SyntheticEvent}
use secure_swipe.Realtime.Store.{
  EventStore, StoreError, events_in_range, in_range, time_leb, event_of,
}
use secure_swipe.Realtime.Store.Range.{Within, time_leb_total, time_leb_trans}
use secure_swipe.Realtime.Windows.{WindowSize, window_24h, window_duration}
use secure_swipe.Realtime.Windows.Nested.{bounds_ordered}
use secure_swipe.Realtime.Features.{
  Features, TriggeredSignal, signal_if, candidates, sharing, is_prior, is_new,
}

abbrev pub codes : List TriggeredSignal → List String
codes signals = map (λ s. s.reason_code) signals

-- A signal with this reason code was triggered.
abbrev pub fires : String → Features → Bool
fires code f = contains (codes f.triggered_signals) code

pub contains-codes-append :
    (xs ys : List TriggeredSignal) (code : String)
    → contains (codes (xs ++ ys)) code ≡ (contains (codes xs) code || contains (codes ys) code)
unfolding contains
contains-codes-append [] ys code = refl
contains-codes-append (x ∷ xs) ys code = ground (arith, contains-codes-append xs ys code)

pub contains-signal_if :
    (b : Bool) (code : String) (n : ℕ) (code' : String)
    → contains (codes (signal_if b code n)) code' ≡ (b && code == code')
unfolding contains
contains-signal_if b code n code' = ground arith

-- The stored events of a window that ends with the event.
abbrev pub in_window : WindowSize → SyntheticEvent → SyntheticEvent → Bool
in_window w e c = in_range (e.event_time -ℤ window_duration w) e.event_time c

abbrev pub stored : EventStore → List SyntheticEvent
stored store = map event_of store.records

-- The query never raises.
pub candidates_lem :
    (store : EventStore) (e : SyntheticEvent) (w : WindowSize)
    → candidates store e w ≡ ok (sort time_leb (keep (in_window w e) (stored store)))
unfolding candidates events_in_range
candidates_lem store e w = rw (bounds_ordered e.event_time w) refl

pub length-keep-sort :
    (p : SyntheticEvent → Bool) (xs : List SyntheticEvent)
    → length (keep p (sort time_leb xs)) ≡ length (keep p xs)
length-keep-sort p xs =
    ap (λ ys. length ys) (keep_of_sort time_leb time_leb_total time_leb_trans p xs)
    ∙ length-sort time_leb (keep p xs)

pub length-keep-keep-sort :
    (p q : SyntheticEvent → Bool) (xs : List SyntheticEvent)
    → length (keep p (keep q (sort time_leb xs))) ≡ length (keep p (keep q xs))
length-keep-keep-sort p q xs =
    ap (λ ys. length (keep p ys)) (keep_of_sort time_leb time_leb_total time_leb_trans q xs)
    ∙ length-keep-sort p (keep q xs)

-- The window's test, by the order of the instants.
pub in_window_iff :
    (e c : SyntheticEvent)
    → (in_window window_24h e c ≡ true) ↔ Within (e.event_time -ℤ pos 86400000000) e.event_time c
in_window_iff e c = (λ h. ground arith, λ (low, high). ground arith)

-- The event is its account's first with this entity: every stored event of the last 24 hours that
-- shares the entity and the account with it carries its identifier.
abbrev pub IsFirst : (SyntheticEvent → String) → EventStore → SyntheticEvent → Type 0
IsFirst key store e =
    All
      (λ c.
        Within (e.event_time -ℤ pos 86400000000) e.event_time c
        → key c ≡ key e
        → c.account_id ≡ e.account_id
        → c.event_id ≡ e.event_id)
      (stored store)

none_prior_iff :
    (key : SyntheticEvent → String) (w : SyntheticEvent → Bool) (W : SyntheticEvent → Type 0)
    (test : (c : SyntheticEvent) → (w c ≡ true) ↔ W c) (e : SyntheticEvent)
    (xs : List SyntheticEvent)
    → (length (keep (is_prior e) (sharing key e (keep w xs))) ≡ 0)
      ↔ All (λ c. W c → key c ≡ key e → c.account_id ≡ e.account_id → c.event_id ≡ e.event_id) xs
unfolding keep
none_prior_iff key w W test e [] = (λ _. tt, λ _. refl)
none_prior_iff key w W test e (c ∷ xs) =
    let rest = none_prior_iff key w W test e xs in
    (
      λ h. (
        λ a b d.
            let inside = (test c).1 a in
            ground (
              arith,
              eq_iff (key c) (key e),
              eq_iff c.account_id e.account_id,
              eq_iff c.event_id e.event_id,
            ),
        rest.0 (ground arith),
      ),
      λ h. ground (
        arith,
        rest.1 h.1,
        h.0,
        test c,
        eq_iff (key c) (key e),
        eq_iff c.account_id e.account_id,
        eq_iff c.event_id e.event_id,
      ),
    )

pub is_new_iff :
    (key : SyntheticEvent → String) (store : EventStore) (e : SyntheticEvent)
    → (is_new e (sharing key e (sort time_leb (keep (in_window window_24h e) (stored store))))
        ≡ true)
      ↔ IsFirst key store e
is_new_iff key store e =
    let n =
      length-keep-keep-sort (is_prior e) (λ c. key c == key e)
        (keep (in_window window_24h e) (stored store)) in
    let rest = none_prior_iff key (in_window window_24h e) _ (in_window_iff e) e (stored store) in
    (λ h. rest.0 (ground arith), λ h. let z = rest.1 h in ground arith)

-- The family always answers, and triggers the code exactly when the condition holds.
abbrev pub Triggers :
    (EventStore → SyntheticEvent → Result StoreError Features)
    → String
    → (EventStore → SyntheticEvent → Type 0)
    → Type 0
Triggers compute code condition =
    (store : EventStore) (e : SyntheticEvent)
    → (f : Features) × (compute store e ≡ ok f) × ((fires code f ≡ true) ↔ condition store e)
