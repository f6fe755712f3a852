-- ===== src/Order/Ledger.antt =====
-- Outcomes and the confirmation ledger (src/order_integrity/verifier.py).
use secure_swipe.Prelude.{
  ℕ, String, Bool, true, false, Option, some, List, [], ◌∷◌, length, contains, string_eq,
  if◌then◌else◌,
}
use secure_swipe.Prelude.Dict
use secure_swipe.Prelude.Dict.{Dict}
use secure_swipe.Prelude.Int.{ℤ}

-- The four allowed outcomes; being an enumeration, no other can be built.
pub data Outcome : Type 0 where
  verified mismatch unavailable invalid : Outcome

pub record IntegrityResult : Type 0 where
  pub outcome : Outcome
  pub reason_code : String
  pub quote_id : Option String
  -- `detail`: the amount and the currency, on the verified branch alone
  pub detail : Option (ℤ × String)

abbrev pub is_verified : Outcome → Bool
is_verified verified = true
is_verified _ = false

abbrev pub fulfilment_eligible : IntegrityResult → Bool
fulfilment_eligible r = is_verified r.outcome

pub record ConfirmationLedger : Type 0 where
  pub events : Dict String IntegrityResult
  pub settled_quotes : List String

abbrev pub empty_ledger : ConfirmationLedger
empty_ledger = record { events = []; settled_quotes = [] }

unfoldable pub seen : ConfirmationLedger → String → Option IntegrityResult
seen ledger event_id = Dict.get ledger.events event_id

-- `set.add`
abbrev pub add_to_set : List String → String → List String
add_to_set s x = if contains s x then s else x ∷ s

abbrev pub settle : Outcome → Option String → List String → List String
settle verified (some q) settled = add_to_set settled q
settle _ _ settled = settled

unfoldable pub record_event :
    ConfirmationLedger → String → IntegrityResult → ConfirmationLedger × IntegrityResult
record_event ledger event_id result = (
  record {
    events = Dict.put ledger.events event_id result;
    settled_quotes = settle result.outcome result.quote_id ledger.settled_quotes;
  },
  result,
)

unfoldable pub is_settled : ConfirmationLedger → String → Bool
is_settled ledger quote_id = contains ledger.settled_quotes quote_id

unfoldable pub event_count : ConfirmationLedger → ℕ
event_count ledger = length ledger.events
