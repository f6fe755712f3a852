-- ===== src/Order/Verify.antt =====
-- The verification of a confirmation (src/order_integrity/verifier.py, `verify_confirmation`).
pub mod Confirmed
pub mod Amounts
pub mod Replay
use secure_swipe.Prelude.{String, not, Option, none, some, List, Eq, ◌==◌, string_eq, if◌then◌else◌}
use secure_swipe.Prelude.Dict.{Dict}
use secure_swipe.Prelude.Int.{ℤ, ltb_ℤ, int_eq}
use secure_swipe.Prelude.Result.{Result, ok, err}
use secure_swipe.Prelude.Value.{Value, integer}
use secure_swipe.Order.Cart.{OrderIntegrityError, reconstruct_amount_minor}
use secure_swipe.Order.Quote.{Quote, cart_digest}
use secure_swipe.Order.Ledger.{
  Outcome, verified, mismatch, unavailable, invalid, IntegrityResult, ConfirmationLedger, seen,
  record_event, is_settled,
}

abbrev pub plain : Outcome → String → Option String → IntegrityResult
plain outcome reason quote_id = record {
  outcome = outcome;
  reason_code = reason;
  quote_id = quote_id;
  detail = none;
}

module _ {D : Type 0} ⦃d : Eq D⦄ (digest : List (String × ℤ) → D) where
  -- The last three tests, once the amount is recomputed.
  unfoldable pub compare_amounts : Quote D → ℤ → Result OrderIntegrityError ℤ → IntegrityResult
  compare_amounts quote captured (err _) =
      plain unavailable "reconstruction_failed" (some quote.quote_id)
  compare_amounts quote captured (ok recomputed) =
      if not (cart_digest digest quote.lines == quote.cart_digest)
      then plain mismatch "quote_mutated_after_issue" (some quote.quote_id)
      else if not (recomputed == quote.expected_amount_minor)
      then plain mismatch "catalog_amount_changed" (some quote.quote_id)
      else if not (captured == quote.expected_amount_minor)
      then plain mismatch "amount_mismatch" (some quote.quote_id)
      else record {
        outcome = verified;
        reason_code = "expected_quoted_and_captured_amounts_match";
        quote_id = some quote.quote_id;
        detail = some (recomputed, quote.currency);
      }

  -- From `isinstance(captured_amount_minor, …)` on.
  unfoldable pub check_amount : Quote D → Value → Dict String Value → IntegrityResult
  check_amount quote (integer captured) catalog =
      compare_amounts quote captured (reconstruct_amount_minor quote.lines (some catalog))
  check_amount quote _ catalog =
      plain invalid "captured_amount_not_integer_minor_units" (some quote.quote_id)

  -- What is recorded for an event not seen before; each `return ledger.record(event_id, r)` of
  -- the source is a branch with value `r`.
  unfoldable pub judge :
      ConfirmationLedger
      → Option (Quote D)
      → Value
      → String
      → Option (Dict String Value)
      → ℤ
      → String
      → IntegrityResult
  judge ledger none captured currency catalog sequence active = plain mismatch "unknown_quote" none
  judge ledger (some quote) captured currency none sequence active =
      plain unavailable "trusted_catalog_unavailable" (some quote.quote_id)
  judge ledger (some quote) captured currency (some catalog) sequence active =
      if is_settled ledger quote.quote_id
      then plain mismatch "quote_already_settled" (some quote.quote_id)
      else if ltb_ℤ sequence quote.issued_at_sequence
      then plain mismatch "out_of_order_confirmation" (some quote.quote_id)
      else if ltb_ℤ quote.expires_at_sequence sequence
      then plain mismatch "expired_quote" (some quote.quote_id)
      else if not (quote.catalog_version == active)
      then plain mismatch "stale_catalog_version" (some quote.quote_id)
      else if not (currency == quote.currency)
      then plain mismatch "currency_mismatch" (some quote.quote_id)
      else check_amount quote captured catalog

  unfoldable pub verify_confirmation :
      ConfirmationLedger
      → Option (Quote D)
      → String
      → Value
      → String
      → Option (Dict String Value)
      → ℤ
      → String
      → ConfirmationLedger × IntegrityResult
  verify_confirmation ledger quote event_id captured currency catalog sequence active =
      if event_id == ""
      then (ledger, plain invalid "missing_event_id" none)
      else elim (seen ledger event_id) [
        | some previous ↦ (ledger, previous)
        | none ↦
            record_event ledger event_id
              (judge ledger quote captured currency catalog sequence active)
      ]
