-- ===== src/Order/Quote.antt =====
-- Server-issued quotes (src/order_integrity/verifier.py). SHA-256 over the canonical cart's JSON
-- is the parameter `digest`, with digests of any type that has an equality test.
use secure_swipe.Prelude.{String, ◌==◌, Option, List, string_eq}
use secure_swipe.Prelude.Dict.{Dict}
use secure_swipe.Prelude.Int.{ℤ, ◌+ℤ◌}
use secure_swipe.Prelude.Result.{Result, ok, ◌>>=◌, ◌>>◌, fail_if}
use secure_swipe.Prelude.Value.{Value}
use secure_swipe.Order.Cart.{
  CartLine, OrderIntegrityError, quote_id_required, canonical_cart, reconstruct_amount_minor,
}

pub record Quote (D : Type 0) : Type 0 where
  pub quote_id : String
  pub cart_digest : D
  pub catalog_version : String
  pub currency : String
  pub expected_amount_minor : ℤ
  pub lines : List CartLine
  pub issued_at_sequence : ℤ
  pub expires_at_sequence : ℤ

module _ {D : Type 0} (digest : List (String × ℤ) → D) where
  unfoldable pub cart_digest : List CartLine → D
  cart_digest items = digest (canonical_cart items)

  unfoldable pub build_quote :
      String
      → List CartLine
      → Option (Dict String Value)
      → String
      → String
      → ℤ
      → ℤ
      → Result OrderIntegrityError (Quote D)
  unfolding cart_digest
  build_quote quote_id items catalog version currency issued_at validity = do
    fail_if (quote_id == "") quote_id_required
    expected ← reconstruct_amount_minor items catalog
    ok (record {
      quote_id = quote_id;
      cart_digest = cart_digest items;
      catalog_version = version;
      currency = currency;
      expected_amount_minor = expected;
      lines = items;
      issued_at_sequence = issued_at;
      expires_at_sequence = issued_at +ℤ validity;
    })
