-- ===== src/Order/Verify/Amounts.antt =====
-- The amounts on a verified confirmation: captured, quoted and invoiced.
use secure_swipe.Prelude.{
  ◌≡◌, ◌≢◌, refl, sym, ap, subst, ◌∙◌, true, false, String, none, some, List, Eq, ◌==◌, string_eq,
  list_eq, pair_eq, Bool-cases, inl, inr, ◌⊎◌,
}
use secure_swipe.Prelude.Dict.{Dict}
use secure_swipe.Prelude.Int.{ℤ, pos, ◌≤ℤ◌, ◌+ℤ◌, int_eq}
use secure_swipe.Prelude.Result.{ok, fail_if, >>=-eq-ok, ok-injective}
use secure_swipe.Prelude.Value.{Value, integer}
use secure_swipe.Order.Catalog.{max_total_minor}
use secure_swipe.Order.Cart.{CartLine, canonical_cart, quote_id_required, reconstruct_amount_minor}
use secure_swipe.Order.Cart.Amount.{invoice, reconstruct_amount_minor-eq-ok_iff}
use secure_swipe.Order.Cart.Merge.{SameOrder, canonical_cart-eq_iff}
use secure_swipe.Order.Quote.{Quote, cart_digest, build_quote}
use secure_swipe.Order.Ledger.{ConfirmationLedger, is_verified, seen, is_settled}
use secure_swipe.Order.Verify.{verify_confirmation}
use secure_swipe.Order.Verify.Confirmed.{
  IsConfirmed, confirmed_result, answer-IsConfirmed, verify_confirmation-verified_iff,
}

abbrev carts : Eq (List (String × ℤ))
carts = list_eq

module _ {D : Type 0} ⦃d : Eq D⦄ (digest : List (String × ℤ) → D) where
  module _ (id : String) (items : List CartLine) (catalog : Dict String Value)
      (version currency : String) (issued validity : ℤ) where
    abbrev quoted : ℤ → Quote D
    quoted amount = record {
      quote_id = id;
      cart_digest = cart_digest digest items;
      catalog_version = version;
      currency = currency;
      expected_amount_minor = amount;
      lines = items;
      issued_at_sequence = issued;
      expires_at_sequence = issued +ℤ validity;
    }

    build_quote-eq-ok :
        (quote : Quote D)
        → build_quote digest id items (some catalog) version currency issued validity ≡ ok quote
        → (t : ℤ) × (reconstruct_amount_minor items (some catalog) ≡ ok t) × (quoted t ≡ quote)
    unfolding build_quote
    build_quote-eq-ok quote h =
        let (_, _, h1) = >>=-eq-ok (fail_if (id == "") quote_id_required) _ h in
        let (t, e, h2) = >>=-eq-ok (reconstruct_amount_minor items (some catalog)) _ h1 in
        (t, e, ok-injective h2)

    -- A quote that the server issues, confirmed in time by a new event with a non-empty id, for a
    -- quote id that is not settled, with the invoice's amount
    -- and the quote's currency while the catalog is the same, is verified.
    pub build_quote-verify_confirmation :
        (quote : Quote D) (ledger : ConfirmationLedger) (event_id : String) (sequence : ℤ)
        → build_quote digest id items (some catalog) version currency issued validity ≡ ok quote
        → event_id ≢ ""
        → seen ledger event_id ≡ none
        → is_settled ledger id ≡ false
        → issued ≤ℤ sequence
        → sequence ≤ℤ issued +ℤ validity
        → (verify_confirmation digest ledger
            (some quote)
            event_id
            (integer (invoice catalog items))
            currency
            (some catalog)
            sequence
            version).1
          ≡ confirmed_result quote
    build_quote-verify_confirmation quote ledger event_id sequence h named unseen unsettled early
          late =
        let (t, recomputed, q) = build_quote-eq-ok quote h in
        let sum = (reconstruct_amount_minor-eq-ok_iff catalog items t).0 recomputed in
        subst
          (λ (k : Quote D).
            (verify_confirmation digest ledger (some k) event_id (integer (invoice catalog items))
              currency (some catalog) sequence version).1
            ≡ confirmed_result k)
          q
          (answer-IsConfirmed digest ledger (quoted t) (integer (invoice catalog items)) currency
            catalog sequence version event_id named unseen
            (record {
              open_quote = unsettled;
              not_early = early;
              not_late = late;
              fresh = refl;
              same_currency = refl;
              exact = ap integer (sym sum.1);
              recomputed = recomputed;
              unmutated = refl;
            }))

  module _ (ledger : ConfirmationLedger) (quote : Quote D) (captured : Value) (currency : String)
      (catalog : Dict String Value) (sequence : ℤ) (active : String) (event_id : String)
      (named : event_id ≢ "") (unseen : seen ledger event_id ≡ none)
      (passed : is_verified
          (verify_confirmation digest ledger
            (some quote)
            event_id
            captured
            currency
            (some catalog)
            sequence
            active).1.outcome
        ≡ true) where
    confirmed : IsConfirmed digest ledger quote captured currency catalog sequence active
    confirmed =
        (verify_confirmation-verified_iff digest ledger quote captured currency catalog sequence
            active event_id named unseen).0.0
          passed

    -- On a verified confirmation of an event with a non-empty id that the ledger has not seen, the
    -- captured amount is the invoice of the quote's lines at the
    -- active catalog's prices, in integer minor units and within the bound.
    pub verified_amount :
        (captured ≡ integer (invoice catalog quote.lines))
        × (quote.expected_amount_minor ≡ invoice catalog quote.lines)
        × (invoice catalog quote.lines ≤ℤ pos max_total_minor)
    verified_amount =
        let (_, sum, small) =
          (reconstruct_amount_minor-eq-ok_iff catalog quote.lines quote.expected_amount_minor).0
            confirmed.recomputed in
        (confirmed.exact ∙ ap integer sum, sum, subst (λ t. t ≤ℤ pos max_total_minor) sum small)

    -- On such a verified confirmation (of an event with a non-empty id, not seen before), the
    -- quote's lines still order, SKU by SKU, what the lines ordered whose digest the quote
    -- carries, or the canonical carts of the two lists of lines differ and have one digest.
    pub verified_lines :
        (issued : List CartLine)
        → quote.cart_digest ≡ cart_digest digest issued
        → SameOrder quote.lines issued
          ⊎ ((canonical_cart quote.lines ≢ canonical_cart issued)
              × (digest (canonical_cart quote.lines) ≡ digest (canonical_cart issued)))
    unfolding cart_digest
    verified_lines issued bound =
        elim (Bool-cases (canonical_cart quote.lines == canonical_cart issued)) [
          | inl same ↦
              inl ((canonical_cart-eq_iff quote.lines issued).0 ((carts.beq_iff _ _).0 same))
          | inr other ↦
              inr (λ e. absurd (cc (other, (carts.beq_iff _ _).1 e)), confirmed.unmutated ∙ bound)
        ]
