-- ===== src/Order/Verify/Confirmed.antt =====
-- When a confirmation is verified, and what it then says.
use secure_swipe.Prelude.{
  ◌≡◌, ◌≢◌, ap, ◌∙◌, ◌↔◌, true, false, String, none, some, List, arith, eq_iff, Eq, string_eq,
}
use secure_swipe.Prelude.Dict.{Dict}
use secure_swipe.Prelude.Int.{ℤ, ◌≤ℤ◌, int_beq_iff}
use secure_swipe.Prelude.Result.{Result, ok, err}
use secure_swipe.Prelude.Value.{Value, integer}
use secure_swipe.Order.Cart.{reconstruct_amount_minor}
use secure_swipe.Order.Quote.{Quote, cart_digest}
use secure_swipe.Order.Ledger.{
  verified, IntegrityResult, ConfirmationLedger, is_verified, seen, record_event, is_settled,
}
use secure_swipe.Order.Verify.{compare_amounts, check_amount, judge, verify_confirmation}

-- The result of a confirmation that passes every test.
abbrev pub confirmed_result : {D : Type 0} → Quote D → IntegrityResult
confirmed_result quote = record {
  outcome = verified;
  reason_code = "expected_quoted_and_captured_amounts_match";
  quote_id = some quote.quote_id;
  detail = some (quote.expected_amount_minor, quote.currency);
}

module _ {D : Type 0} ⦃d : Eq D⦄ (digest : List (String × ℤ) → D) where
  -- Everything that the verifier asks of a confirmation of a quote.
  pub record IsConfirmed (ledger : ConfirmationLedger) (quote : Quote D) (captured : Value)
      (currency : String) (catalog : Dict String Value) (sequence : ℤ) (active : String)
      : Type 0 where
    pub open_quote : is_settled ledger quote.quote_id ≡ false
    pub not_early : quote.issued_at_sequence ≤ℤ sequence
    pub not_late : sequence ≤ℤ quote.expires_at_sequence
    pub fresh : quote.catalog_version ≡ active
    pub same_currency : currency ≡ quote.currency
    pub exact : captured ≡ integer quote.expected_amount_minor
    pub recomputed :
        reconstruct_amount_minor quote.lines (some catalog) ≡ ok quote.expected_amount_minor
    pub unmutated : cart_digest digest quote.lines ≡ quote.cart_digest

  compare_amounts-verified :
      (quote : Quote D) (c : ℤ) (r : Result _ ℤ)
      → is_verified (compare_amounts digest quote c r).outcome ≡ true
      → (r ≡ ok quote.expected_amount_minor)
        × (c ≡ quote.expected_amount_minor)
        × (cart_digest digest quote.lines ≡ quote.cart_digest)
  unfolding compare_amounts
  compare_amounts-verified quote c (err e) h = cc
  compare_amounts-verified quote c (ok r) h = ground (
    arith,
    d.beq_iff (cart_digest digest quote.lines) quote.cart_digest,
    int_beq_iff r quote.expected_amount_minor,
    int_beq_iff c quote.expected_amount_minor,
  )

  check_amount-verified :
      (quote : Quote D) (captured : Value) (catalog : Dict String Value)
      → is_verified (check_amount digest quote captured catalog).outcome ≡ true
      → (reconstruct_amount_minor quote.lines (some catalog) ≡ ok quote.expected_amount_minor)
        × (captured ≡ integer quote.expected_amount_minor)
        × (cart_digest digest quote.lines ≡ quote.cart_digest)
  unfolding check_amount
  check_amount-verified quote (integer c) catalog h =
      let (p, q, r) =
        compare_amounts-verified quote c (reconstruct_amount_minor quote.lines (some catalog)) h in
      (p, ap integer q, r)
  check_amount-verified quote _ catalog h = cc

  module _ (ledger : ConfirmationLedger) (quote : Quote D) (captured : Value) (currency : String)
      (catalog : Dict String Value) (sequence : ℤ) (active : String) where
    pub IsConfirmed-of_verified :
        is_verified
            (judge digest ledger
              (some quote)
              captured
              currency
              (some catalog)
              sequence
              active).outcome
          ≡ true
        → IsConfirmed ledger quote captured currency catalog sequence active
    unfolding judge
    IsConfirmed-of_verified h = record {
      open_quote = ground arith;
      not_early = ground arith;
      not_late = ground arith;
      fresh = ground (arith, eq_iff quote.catalog_version active);
      same_currency = ground (arith, eq_iff currency quote.currency);
      exact = (check_amount-verified quote captured catalog (ground arith)).1;
      recomputed = (check_amount-verified quote captured catalog (ground arith)).0;
      unmutated = (check_amount-verified quote captured catalog (ground arith)).2;
    }

    pub judge-IsConfirmed :
        IsConfirmed ledger quote captured currency catalog sequence active
        → judge digest ledger (some quote) captured currency (some catalog) sequence active
          ≡ confirmed_result quote
    unfolding judge check_amount compare_amounts
    judge-IsConfirmed h =
        let e = quote.expected_amount_minor in
        ground (
          arith,
          h.open_quote,
          h.exact,
          h.recomputed,
          eq_iff quote.catalog_version active,
          eq_iff currency quote.currency,
          d.beq_iff (cart_digest digest quote.lines) quote.cart_digest,
          int_beq_iff e e,
        )

    module _ (event_id : String) (named : event_id ≢ "")
        (unseen : seen ledger event_id ≡ none) where
      abbrev answer : IntegrityResult
      answer =
          (verify_confirmation digest ledger (some quote) event_id captured currency (some catalog)
            sequence active).1

      new_event :
          verify_confirmation digest ledger
            (some quote)
            event_id
            captured
            currency
            (some catalog)
            sequence
            active
          ≡ record_event ledger event_id
              (judge digest ledger (some quote) captured currency (some catalog) sequence active)
      unfolding verify_confirmation
      new_event = ground (arith, unseen, eq_iff event_id "")

      answer-judge :
          answer ≡ judge digest ledger (some quote) captured currency (some catalog) sequence active
      unfolding record_event
      answer-judge = ap (λ r. r.1) new_event

      pub answer-IsConfirmed :
          IsConfirmed ledger quote captured currency catalog sequence active
          → answer ≡ confirmed_result quote
      answer-IsConfirmed c = answer-judge ∙ judge-IsConfirmed c

      -- For an event with a non-empty id that the ledger has not seen, a known quote and a
      -- catalog, the confirmation is verified exactly when it passes every test, and then the
      -- result names the quote, its amount and its currency.
      pub verify_confirmation-verified_iff :
          ((is_verified answer.outcome ≡ true)
            ↔ IsConfirmed ledger quote captured currency catalog sequence active)
          × (IsConfirmed ledger quote captured currency catalog sequence active
              → answer ≡ confirmed_result quote)
      verify_confirmation-verified_iff = (
        (λ h. IsConfirmed-of_verified (rw answer-judge at h), λ c. rw (answer-IsConfirmed c)),
        answer-IsConfirmed,
      )
