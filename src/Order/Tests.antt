-- ===== src/Order/Tests.antt =====
-- Runs of the order-integrity reference, and its theorems at concrete inputs. The digest is the
-- canonical cart itself.
use secure_swipe.Prelude.{
  ◌≡◌, ◌≢◌, ◌⊎◌, ◌↔◌, refl, true, false, String, none, some, List, [], ◌∷◌, arith, eq_iff, contains,
  string_eq, list_eq, pair_eq,
}
use secure_swipe.Prelude.Dict
use secure_swipe.Prelude.Int.{ℤ, pos, ◌+ℤ◌, ◌*ℤ◌, ◌≤ℤ◌, int_eq}
use secure_swipe.Prelude.Result.{ok, err, traverse}
use secure_swipe.Prelude.Sorting.{sort}
use secure_swipe.Prelude.TextOrder.{str_leb}
use secure_swipe.Prelude.Value.{integer, text}
use secure_swipe.Order.Catalog.{catalog, catalog_version, catalog_currency, max_total_minor}
use secure_swipe.Order.Cart.{
  CartLine, RawLine, object, lines, forbidden_field, merged_quantity_exceeds_bound, parse_line,
  any_key, merge_lines, item_leb, canonical_cart, check_merged, parse_client_lines, add_items,
  reconstruct_amount_minor,
}
use secure_swipe.Order.Cart.Merge.{SameOrder, canonical_cart-eq_iff}
use secure_swipe.Order.Cart.Amount.{invoice, Accepted, reconstruct_amount_minor-eq-ok_iff}
use secure_swipe.Order.Cart.Parse.{IsAcceptable, parse_client_lines-eq-ok_iff}
use secure_swipe.Order.Quote.{Quote, cart_digest, build_quote}
use secure_swipe.Order.Ledger.{
  ConfirmationLedger, empty_ledger, is_verified, seen, is_settled, record_event,
}
use secure_swipe.Order.Verify.{compare_amounts, check_amount, judge, verify_confirmation}
use secure_swipe.Order.Verify.Confirmed.{
  IsConfirmed, confirmed_result, verify_confirmation-verified_iff,
}
use secure_swipe.Order.Verify.Amounts.{
  verified_amount, verified_lines, build_quote-verify_confirmation,
}
use secure_swipe.Order.Verify.Replay.{
  Confirmation, submit, submit_all, eligible_events, IsConsistent, submit_again,
  submit_all-IsConsistent, empty_ledger-IsConsistent,
}

program : Unit {0}
unfolding Dict.get Dict.put contains sort str_leb traverse ◌+ℤ◌ ◌*ℤ◌ parse_line any_key merge_lines
    item_leb canonical_cart check_merged parse_client_lines add_items reconstruct_amount_minor
    cart_digest build_quote seen is_settled record_event compare_amounts check_amount judge
    verify_confirmation
program = tt

abbrev Cart : Type 0
Cart = List (String × ℤ)

abbrev same : Cart → Cart
same c = c

abbrev raw : String → ℤ → RawLine
raw sku q = object (("sku", text sku) ∷ ("quantity", integer q) ∷ [])

abbrev line : String → ℤ → CartLine
line sku q = record { sku = sku; quantity = q }

abbrev raws : List RawLine
raws = raw "SKU_BETA" (pos 2) ∷ raw "SKU_ALPHA" (pos 1) ∷ raw "SKU_BETA" (pos 1) ∷ []

abbrev cart : List CartLine
cart = line "SKU_BETA" (pos 2) ∷ line "SKU_ALPHA" (pos 1) ∷ line "SKU_BETA" (pos 1) ∷ []

abbrev regrouped : List CartLine
regrouped = line "SKU_ALPHA" (pos 1) ∷ line "SKU_BETA" (pos 3) ∷ []

parse_raws : parse_client_lines (lines raws) ≡ ok cart
unfolding program
parse_raws = refl

-- A client-supplied total is rejected, and so is a quantity split to pass the bound.
parse_total :
    parse_client_lines
      (lines (object (("sku", text "SKU_BETA") ∷ ("total", integer (pos 1)) ∷ []) ∷ []))
    ≡ err forbidden_field
unfolding program
parse_total = refl

parse_split :
    parse_client_lines (lines (raw "SKU_BETA" (pos 60) ∷ raw "SKU_BETA" (pos 60) ∷ []))
    ≡ err merged_quantity_exceeds_bound
unfolding program
parse_split = refl

canonical : canonical_cart cart ≡ ("SKU_ALPHA", pos 1) ∷ ("SKU_BETA", pos 3) ∷ []
unfolding program
canonical = refl

amount : reconstruct_amount_minor cart (some catalog) ≡ ok (pos 143550)
unfolding program
amount = refl

abbrev quote : Quote Cart
quote = record {
  quote_id = "q1";
  cart_digest = ("SKU_ALPHA", pos 1) ∷ ("SKU_BETA", pos 3) ∷ [];
  catalog_version = catalog_version;
  currency = catalog_currency;
  expected_amount_minor = pos 143550;
  lines = cart;
  issued_at_sequence = pos 1;
  expires_at_sequence = pos 11;
}

quote_built :
    build_quote same "q1" cart (some catalog) catalog_version catalog_currency (pos 1) (pos 10)
    ≡ ok quote
unfolding program
quote_built = refl

e1_named : ◌≢◌ {A = String} "e1" ""
e1_named = ground (arith, eq_iff "e1" "")

nothing_seen : seen empty_ledger "e1" ≡ none
unfolding program
nothing_seen = refl

passes :
    is_verified
      (verify_confirmation same empty_ledger
        (some quote)
        "e1"
        (integer (pos 143550))
        "XTS"
        (some catalog)
        (pos 5)
        catalog_version).1.outcome
    ≡ true
unfolding program
passes = refl

abbrev confirm : String → Confirmation Cart
confirm event_id = record {
  quote = some quote;
  event_id = event_id;
  captured = integer (pos 143550);
  currency = "XTS";
  catalog = some catalog;
  sequence = pos 5;
  active = catalog_version;
}

-- The second event finds the quote settled; the repeated one is replayed.
one_eligible :
    eligible_events "q1"
      (submit_all same empty_ledger (confirm "e1" ∷ confirm "e2" ∷ confirm "e1" ∷ [])).events
    ≡ 1
unfolding program submit_all eligible_events
one_eligible = refl

canonical_cart-eq_iff_example :
    (canonical_cart cart ≡ canonical_cart regrouped) ↔ SameOrder cart regrouped
canonical_cart-eq_iff_example = canonical_cart-eq_iff cart regrouped

reconstruct_amount_minor-eq-ok_iff_example :
    (reconstruct_amount_minor cart (some catalog) ≡ ok (pos 143550))
    ↔ Accepted catalog cart (pos 143550)
reconstruct_amount_minor-eq-ok_iff_example =
    reconstruct_amount_minor-eq-ok_iff catalog cart (pos 143550)

parse_client_lines-eq-ok_iff_example :
    (parse_client_lines (lines raws) ≡ ok cart) ↔ IsAcceptable raws cart
parse_client_lines-eq-ok_iff_example = parse_client_lines-eq-ok_iff raws cart

abbrev Verdict : Type 0
Verdict =
    ((is_verified
          (verify_confirmation same empty_ledger (some quote) "e1" (integer (pos 143550)) "XTS"
            (some catalog) (pos 5) catalog_version).1.outcome
        ≡ true)
      ↔ (IsConfirmed same empty_ledger quote (integer (pos 143550)) "XTS" catalog (pos 5)
          catalog_version))
    × (IsConfirmed same empty_ledger quote (integer (pos 143550)) "XTS" catalog (pos 5)
          catalog_version
        → ((verify_confirmation same empty_ledger (some quote) "e1" (integer (pos 143550)) "XTS"
              (some catalog) (pos 5) catalog_version).1
            ≡ confirmed_result quote))

verify_confirmation-verified_iff_example : Verdict
verify_confirmation-verified_iff_example =
    verify_confirmation-verified_iff same empty_ledger quote (integer (pos 143550)) "XTS" catalog
      (pos 5) catalog_version "e1" e1_named nothing_seen

verified_amount_example :
    (integer (pos 143550) ≡ integer (invoice catalog cart))
    × (pos 143550 ≡ invoice catalog cart)
    × (invoice catalog cart ≤ℤ pos max_total_minor)
verified_amount_example =
    verified_amount same empty_ledger quote (integer (pos 143550)) "XTS" catalog (pos 5)
      catalog_version "e1" e1_named nothing_seen passes

digest_bound : quote.cart_digest ≡ cart_digest same regrouped
unfolding program
digest_bound = refl

verified_lines_example :
    SameOrder cart regrouped
    ⊎ ((canonical_cart cart ≢ canonical_cart regrouped)
        × (canonical_cart cart ≡ canonical_cart regrouped))
verified_lines_example =
    verified_lines same empty_ledger quote (integer (pos 143550)) "XTS" catalog (pos 5)
      catalog_version "e1" e1_named nothing_seen passes regrouped digest_bound

q1_open : is_settled empty_ledger "q1" ≡ false
unfolding program
q1_open = refl

in_time : pos 5 ≤ℤ pos 1 +ℤ pos 10
unfolding program
in_time = omega arith

build_quote-verify_confirmation_example :
    (verify_confirmation same empty_ledger
      (some quote)
      "e1"
      (integer (invoice catalog cart))
      catalog_currency
      (some catalog)
      (pos 5)
      catalog_version).1
    ≡ confirmed_result quote
build_quote-verify_confirmation_example =
    build_quote-verify_confirmation same "q1" cart catalog catalog_version catalog_currency (pos 1)
      (pos 10) quote empty_ledger "e1" (pos 5) quote_built e1_named nothing_seen q1_open
      (omega arith) in_time

abbrev after_e1 : ConfirmationLedger
after_e1 = (submit same empty_ledger (confirm "e1")).0

submit_again_example :
    submit same (submit_all same after_e1 (confirm "e2" ∷ confirm "e3" ∷ [])) (confirm "e1") ≡ (
      submit_all same after_e1 (confirm "e2" ∷ confirm "e3" ∷ []),
      (submit same empty_ledger (confirm "e1")).1,
    )
submit_again_example =
    submit_again same empty_ledger (confirm "e1") (confirm "e1") (confirm "e2" ∷ confirm "e3" ∷ [])
      e1_named refl

submit_all-IsConsistent_example :
    IsConsistent (submit_all same empty_ledger (confirm "e1" ∷ confirm "e2" ∷ confirm "e1" ∷ []))
submit_all-IsConsistent_example =
    submit_all-IsConsistent same empty_ledger (confirm "e1" ∷ confirm "e2" ∷ confirm "e1" ∷ [])
      empty_ledger-IsConsistent
