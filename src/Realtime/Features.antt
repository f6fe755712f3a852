-- ===== src/Realtime/Features.antt =====
-- The feature families (src/synthetic_realtime/features): signals and window features of one
-- event, computed from the store that has recorded it. A signal's contribution is in hundredths,
-- its description (prose that quotes the numbers) is left out, and a feature's value is a number
-- or a quotient of two.
use secure_swipe.Prelude.{
  ◌≡◌, ℕ, String, Bool, true, false, List, [], ◌∷◌, ◌++◌, length, keep, map, contains, ◌==◌,
  string_eq, nat_beq, not, ◌&&◌, ◌||◌,
}
use secure_swipe.Prelude.Int.{ℤ, ◌-ℤ◌}
use secure_swipe.Prelude.Dict.{Dict}
use secure_swipe.Prelude.Result.{Result, ok}
use secure_swipe.Realtime.Event.{SyntheticEvent, Outcome, success, declined, failed}
use secure_swipe.Realtime.Store.{EventStore, StoreError, events_in_range}
use secure_swipe.Realtime.Windows.{WindowSize, window_duration}
pub mod Entities
pub mod Velocity
pub mod Pairing
pub mod Context
pub mod Signals
pub mod Counts
pub mod FanOut
pub mod Retries

pub record TriggeredSignal : Type 0 where
  pub reason_code : String
  pub contribution : ℕ

pub data FeatureValue : Type 0 where
  number : ℕ → FeatureValue
  -- A quotient of two counts, 0 when the second is 0.
  ratio : ℕ → ℕ → FeatureValue

pub record Features : Type 0 where
  pub triggered_signals : List TriggeredSignal
  pub window_features : Dict String FeatureValue

-- `1.0 if test else 0.0`
abbrev pub flag : Bool → FeatureValue
flag true = number 1
flag false = number 0

-- `if test: triggered_signals.append(...)`
abbrev pub signal_if : Bool → String → ℕ → List TriggeredSignal
signal_if true code contribution = record { reason_code = code; contribution = contribution } ∷ []
signal_if false code contribution = []

abbrev pub is_failure : Outcome → Bool
is_failure success = false
is_failure declined = true
is_failure failed = true

-- The stored events of a window that ends with the event.
unfoldable pub candidates :
    EventStore → SyntheticEvent → WindowSize → Result StoreError (List SyntheticEvent)
unfolding events_in_range ◌-ℤ◌
candidates store e window =
    events_in_range (e.event_time -ℤ window_duration window) e.event_time store

-- Events of the event's own entity.
abbrev pub sharing :
    (SyntheticEvent → String) → SyntheticEvent → List SyntheticEvent → List SyntheticEvent
sharing key e events = keep (λ c. key c == key e) events

-- Other events of the event's account.
abbrev pub is_prior : SyntheticEvent → SyntheticEvent → Bool
is_prior e c = c.account_id == e.account_id && not (c.event_id == e.event_id)

-- No other event of the account among these.
abbrev pub is_new : SyntheticEvent → List SyntheticEvent → Bool
is_new e events = nat_beq (length (keep (is_prior e) events)) 0
