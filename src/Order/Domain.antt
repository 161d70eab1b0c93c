-- ===== src/Order/Domain.antt =====
-- services/order/internal/domain/order.go. A method that mutates its receiver returns the new
-- record; the identifiers that `uuid.New` returns are arguments, one for the order and one for each
-- item by its place; timestamps are left out.
use Prim.Native.String.{String}
use eventflow_commerce.Common.{ℕ, ◌+◌, Bool, true, false, List, [], ◌∷◌, ◌==◌, if◌then◌else◌}
use eventflow_commerce.Common.Int.{ℤ, pos, ◌+ℤ◌, ◌*ℤ◌, leb_ℤ, ltb_ℤ, wrap64}
use eventflow_commerce.Errors.{Result, ok, err, validation, order_already_processed}

pub data Status : Type 0 where
  pending pending_payment payment_failed confirmed processing shipped delivered cancelled : Status

pub record OrderItem : Type 0 where
  pub item_id : ℕ
  pub product_id : ℕ
  pub product_name : String
  pub product_sku : String
  pub item_quantity : ℤ
  pub unit_price_cents : ℤ
  pub total_price_cents : ℤ

pub record Order : Type 0 where
  pub id : ℕ
  pub customer_id : ℕ
  pub status : Status
  pub total_amount_cents : ℤ
  pub currency : String
  pub items : List OrderItem
  pub version : ℕ

abbrev pub is_empty : String → Bool
is_empty String.[] = true
is_empty (String.◌∷◌ c s) = false

-- The checks of the loop of `NewOrder`, then the item with its identifier and its price.
unfoldable pub priced : ℕ → OrderItem → Result OrderItem
priced fresh i =
    if i.product_id == 0
    then err (validation "product_id")
    else if is_empty i.product_name
    then err (validation "product_name")
    else if leb_ℤ i.item_quantity (pos 0)
    then err (validation "quantity")
    else if ltb_ℤ i.unit_price_cents (pos 0)
    then err (validation "unit_price_cents")
    else ok (record i {
      item_id = fresh;
      total_price_cents = wrap64 (i.unit_price_cents *ℤ i.item_quantity);
    })

abbrev pub add_item : OrderItem → Result (List OrderItem × ℤ) → Result (List OrderItem × ℤ)
add_item i (ok (items, total)) = ok (i ∷ items, total)
add_item i (err e) = err e

abbrev pub price_rest :
    (ℤ → Result (List OrderItem × ℤ)) → ℤ → Result OrderItem → Result (List OrderItem × ℤ)
price_rest rest total (ok i) = add_item i (rest (wrap64 (total +ℤ i.total_price_cents)))
price_rest rest total (err e) = err e

-- The loop of `NewOrder`, from a place and the total so far.
unfoldable pub price_all : (ℕ → ℕ) → ℕ → ℤ → List OrderItem → Result (List OrderItem × ℤ)
price_all fresh place total [] = ok ([], total)
price_all fresh place total (i ∷ items) =
    price_rest (λ sum. price_all fresh (place + 1) sum items) total (priced (fresh place) i)

abbrev pub no_items : List OrderItem → Bool
no_items [] = true
no_items (i ∷ items) = false

abbrev pub built : ℕ → ℕ → String → Result (List OrderItem × ℤ) → Result Order
built fresh customer cur (ok (items, total)) = ok (record {
  id = fresh;
  customer_id = customer;
  status = pending;
  total_amount_cents = total;
  currency = cur;
  items = items;
  version = 1;
})
built fresh customer cur (err e) = err e

-- `NewOrder`
unfoldable pub new_order : ℕ → (ℕ → ℕ) → ℕ → List OrderItem → String → Result Order
new_order fresh fresh_item customer items cur =
    if customer == 0
    then err (validation "customer_id")
    else if no_items items
    then err (validation "items")
    else if is_empty cur
    then err (validation "currency")
    else built fresh customer cur (price_all fresh_item 0 (pos 0) items)

abbrev pub is_pending : Status → Bool
is_pending pending = true
is_pending _ = false

abbrev pub is_pending_payment : Status → Bool
is_pending_payment pending_payment = true
is_pending_payment _ = false

-- `transition`, by the test for the status that it starts from
abbrev pub move : (Status → Bool) → Status → Order → Result Order
move from to o =
    if from o.status then ok (record o { status = to }) else err (order_already_processed o.id)

-- `MarkPendingPayment`
unfoldable pub mark_pending : Order → Result Order
mark_pending o = move is_pending pending_payment o

-- `Confirm`
unfoldable pub confirm : Order → Result Order
confirm o = move is_pending_payment confirmed o

-- `Fail`
unfoldable pub fail_order : Order → Result Order
fail_order o = move is_pending_payment payment_failed o

-- `Cancel`
unfoldable pub cancel_order : Order → Result Order
cancel_order o = move (λ s. if is_pending s then true else is_pending_payment s) cancelled o
