-- ===== src/Order/Cart.antt =====
-- Client carts (src/order_integrity/verifier.py): parsing, the canonical form and the
-- server-side amount.
pub mod Merge
pub mod Amount
pub mod Parse
use secure_swipe.Prelude.{
  String, Bool, false, ◌||◌, not, Option, none, some, List, [], ◌∷◌, length, contains, ltb, ◌==◌,
  string_eq, if◌then◌else◌,
}
use secure_swipe.Prelude.Dict
use secure_swipe.Prelude.Dict.{Dict}
use secure_swipe.Prelude.Int.{ℤ, pos, ◌+ℤ◌, ◌*ℤ◌, ltb_ℤ, leb_ℤ}
use secure_swipe.Prelude.Result.{Result, ok, err, ◌>>=◌, ◌>>◌, fail_if, traverse}
use secure_swipe.Prelude.Sorting.{sort}
use secure_swipe.Prelude.TextOrder.{str_leb}
use secure_swipe.Prelude.Value.{Value, integer, text}
use secure_swipe.Order.Catalog.{max_quantity_per_line, max_lines_per_cart, max_total_minor}

-- `OrderIntegrityError`, a constructor for each message that the source raises.
pub data OrderIntegrityError : Type 0 where
  not_a_list empty_cart too_many_lines line_not_an_object : OrderIntegrityError
  forbidden_field unexpected_field sku_not_text : OrderIntegrityError
  quantity_not_integer quantity_not_positive quantity_exceeds_bound : OrderIntegrityError
  merged_quantity_exceeds_bound : OrderIntegrityError
  catalog_unavailable unknown_sku bad_catalog_price : OrderIntegrityError
  quantity_outside_bound total_exceeds_bound quote_id_required : OrderIntegrityError

pub record CartLine : Type 0 where
  pub sku : String
  pub quantity : ℤ

abbrev pub allowed_client_line_fields : List String
allowed_client_line_fields = "sku" ∷ "quantity" ∷ []

abbrev pub forbidden_client_fields : List String
forbidden_client_fields =
    "price" ∷ "unit_price" ∷ "unitPrice" ∷ "amount" ∷ "amount_minor" ∷ "total" ∷ "total_amount"
    ∷ "totalAmount" ∷ "subtotal" ∷ "grand_total" ∷ "discount" ∷ "discount_amount" ∷ "tax"
    ∷ "tax_amount" ∷ "shipping" ∷ "shipping_cost" ∷ "currency" ∷ "payment_status" ∷ "paymentStatus"
    ∷ "status" ∷ "paid" ∷ "captured" ∷ "captured_amount" ∷ "fulfilment_status"
    ∷ "fulfillment_status" ∷ []

-- What the client sends: a list of lines or something else, and a line that is a mapping or not.
pub data RawLine : Type 0 where
  object : Dict String Value → RawLine
  not_an_object : RawLine

pub data Payload : Type 0 where
  lines : List RawLine → Payload
  not_lines : Payload

-- Whether some key of the mapping passes the test.
unfoldable pub any_key : (String → Bool) → Dict String Value → Bool
any_key p [] = false
any_key p ((k, _) ∷ d) = p k || any_key p d

abbrev pub parse_sku : Option Value → Result OrderIntegrityError String
parse_sku (some (text s)) = if s == "" then err sku_not_text else ok s
parse_sku _ = err sku_not_text

abbrev pub parse_quantity : Option Value → Result OrderIntegrityError ℤ
parse_quantity (some (integer q)) =
    if ltb_ℤ q (pos 1)
    then err quantity_not_positive
    else if ltb_ℤ (pos max_quantity_per_line) q
    then err quantity_exceeds_bound
    else ok q
parse_quantity _ = err quantity_not_integer

-- One round of the loop of `parse_client_lines`.
unfoldable pub parse_line : RawLine → Result OrderIntegrityError CartLine
unfolding any_key contains Dict.get
parse_line not_an_object = err line_not_an_object
parse_line (object raw) = do
  fail_if (any_key (contains forbidden_client_fields) raw) forbidden_field
  fail_if (any_key (λ k. not (contains allowed_client_line_fields k)) raw) unexpected_field
  sku ← parse_sku (Dict.get raw "sku")
  quantity ← parse_quantity (Dict.get raw "quantity")
  ok (record { sku = sku; quantity = quantity })

-- `merged[line.sku] = merged.get(line.sku, 0) + line.quantity`
abbrev pub plus_old : Option ℤ → ℤ → ℤ
plus_old none q = pos 0 +ℤ q
plus_old (some old) q = old +ℤ q

unfoldable pub merge_lines : Dict String ℤ → List CartLine → Dict String ℤ
merge_lines merged [] = merged
merge_lines merged (line ∷ rest) =
    merge_lines (Dict.put merged line.sku (plus_old (Dict.get merged line.sku) line.quantity)) rest

-- The order of Python's tuples of a text and a number.
unfoldable pub item_leb : String × ℤ → String × ℤ → Bool
item_leb (s, q) (t, r) = if s == t then leb_ℤ q r else str_leb s t

unfoldable pub canonical_cart : List CartLine → List (String × ℤ)
unfolding merge_lines
canonical_cart items = sort item_leb (merge_lines [] items)

-- The second loop of `parse_client_lines`.
unfoldable pub check_merged : List (String × ℤ) → Result OrderIntegrityError (Unit {0})
check_merged [] = ok tt
check_merged ((_, merged_quantity) ∷ rest) = do
  fail_if (ltb_ℤ (pos max_quantity_per_line) merged_quantity) merged_quantity_exceeds_bound
  check_merged rest

unfoldable pub parse_client_lines : Payload → Result OrderIntegrityError (List CartLine)
unfolding parse_line check_merged traverse
parse_client_lines not_lines = err not_a_list
parse_client_lines (lines []) = err empty_cart
parse_client_lines (lines (raw ∷ more)) = do
  fail_if (ltb max_lines_per_cart (length (raw ∷ more))) too_many_lines
  parsed ← traverse parse_line (raw ∷ more)
  check_merged (canonical_cart parsed)
  ok parsed

-- The catalog's unit price, which must be a non-negative `int` and not a `bool`.
abbrev pub as_price : Option Value → Result OrderIntegrityError ℤ
as_price none = err unknown_sku
as_price (some (integer p)) = if ltb_ℤ p (pos 0) then err bad_catalog_price else ok p
as_price (some _) = err bad_catalog_price

-- The loop of `reconstruct_amount_minor`.
unfoldable pub add_items : Dict String Value → ℤ → List (String × ℤ) → Result OrderIntegrityError ℤ
add_items catalog total [] = ok total
add_items catalog total ((sku, quantity) ∷ rest) = do
  unit_minor ← as_price (Dict.get catalog sku)
  fail_if (ltb_ℤ quantity (pos 1) || ltb_ℤ (pos max_quantity_per_line) quantity)
      quantity_outside_bound
  let sum = total +ℤ unit_minor *ℤ quantity
  fail_if (ltb_ℤ (pos max_total_minor) sum) total_exceeds_bound
  add_items catalog sum rest

unfoldable pub reconstruct_amount_minor :
    List CartLine → Option (Dict String Value) → Result OrderIntegrityError ℤ
reconstruct_amount_minor items none = err catalog_unavailable
reconstruct_amount_minor items (some catalog) = add_items catalog (pos 0) (canonical_cart items)
