-- ===== src/Order/Handler.antt =====
-- services/order/internal/handler/orders.go. A request is what the handler reads of it: the header
-- X-User-ID, the decoded body, the path and the query; identifiers come parsed, `none` where
-- `uuid.Parse` or the decoder returns an error. What the other services reply is a parameter, as
-- for the lifecycle of an order. `get` reads the repository, as the service does without a cache; Reads
-- has it with one.
pub mod Marking
pub mod Create
pub mod Owner
use Prim.Native.String.{String}
use eventflow_commerce.Common.{
  ℕ, ◌==◌, ltb, Bool, true, false, Option, none, some, List, [], ◌∷◌, map, if◌then◌else◌,
}
use eventflow_commerce.Common.Int.{ℤ, pos, negsuc, ltb_ℤ}
use eventflow_commerce.Errors.{
  Error, Result, ok, err, code, http_code, is_app_error, unauthorized, bad_request, validation,
  forbidden, internal,
}
use eventflow_commerce.Database.{World}
use eventflow_commerce.Database.Actions.{◌>>=◌, ◌>>◌, lift, return}
use eventflow_commerce.Order.Domain.{Status, pending_payment, Order, OrderItem, is_empty, new_order}
use eventflow_commerce.Order.Rows.{Tables}
use eventflow_commerce.Order.Orders.{save_order, list_by_customer}
use eventflow_commerce.Order.Service.{
  Remote, reserve_stock, release_stock, Step, get_by_id, mark_pending_after_create, call_remote,
}

-- A value of a header, the path or the query: absent, not readable, or read.
pub data Raw (A : Type 0) : Type 0 where
  absent unreadable : Raw A
  read : A → Raw A

-- `createOrderItemRequest`
pub record CreateOrderItemRequest : Type 0 where
  pub requested_product : Option ℕ
  pub requested_name : String
  pub requested_sku : String
  pub requested_quantity : ℤ
  pub requested_price : ℤ

-- `createOrderRequest`
pub record CreateOrderRequest : Type 0 where
  pub requested_items : List CreateOrderItemRequest
  pub requested_currency : String

-- What is written to the client: `createOrderResponse`, `orderResponse`, `listOrdersResponse`, or an
-- error by its status and its code.
pub data Response : Type 0 where
  created : ℕ → Status → Response
  found : Order → Response
  listed : List Order → ℕ → ℕ → Response
  refused : ℕ → String → Response

-- The status of a response.
abbrev pub status_code : Response → ℕ
status_code (created id s) = 202
status_code (found o) = 200
status_code (listed orders limit offset) = 200
status_code (refused status text) = status

-- `writeError`
unfoldable pub write_error : Error → Response
write_error e =
    let shown = if is_app_error e then e else internal in refused (http_code shown) (code shown)

abbrev pub respond {ℓ} : {A : Type ℓ} {W : Type 0} → (A → Response) → Result A × W → Response × W
respond f (ok a, w) = (f a, w)
respond f (err e, w) = (write_error e, w)

-- `customerIDFromHeader`
unfoldable pub customer_id_from_header : Raw ℕ → Result ℕ
customer_id_from_header absent = err (unauthorized "X-User-ID header is required")
customer_id_from_header unreadable = err (unauthorized "X-User-ID header must be a valid uuid")
customer_id_from_header (read id) = ok id

abbrev pub or_bad_request : {A : Type 0} → String → Option A → Result A
or_bad_request text none = err (bad_request text)
or_bad_request text (some a) = ok a

abbrev pub parsed_item : Option ℕ → CreateOrderItemRequest → Result OrderItem
parsed_item none i = err (validation "items.product_id")
parsed_item (some product) i = ok (record {
  item_id = 0;
  product_id = product;
  product_name = i.requested_name;
  product_sku = i.requested_sku;
  item_quantity = i.requested_quantity;
  unit_price_cents = i.requested_price;
  total_price_cents = pos 0;
})

abbrev pub put_first : Result OrderItem → Result (List OrderItem) → Result (List OrderItem)
put_first (err e) rest = err e
put_first (ok i) (ok items) = ok (i ∷ items)
put_first (ok i) (err e) = err e

-- The loop of `Create` over the items of the request.
unfoldable pub parse_items : List CreateOrderItemRequest → Result (List OrderItem)
parse_items [] = ok []
parse_items (i ∷ items) = put_first (parsed_item i.requested_product i) (parse_items items)

abbrev pub or_usd : String → String
or_usd cur = if is_empty cur then "USD" else cur

-- The lines that `Create` reserves.
abbrev pub lines_of : List OrderItem → List (ℕ × ℤ)
lines_of items = map (λ i. (i.product_id, i.item_quantity)) items

-- The checks of `Create` before anything is called.
unfoldable pub requested_order : ℕ → (ℕ → ℕ) → Raw ℕ → Option CreateOrderRequest → Result Order
requested_order fresh fresh_item user body = elim (customer_id_from_header user) [
  | err e ↦ err e
  | ok customer ↦ elim body [
    | none ↦ err (bad_request "invalid request body")
    | some req ↦ elim (parse_items req.requested_items) [
      | err e ↦ err e
      | ok items ↦ new_order fresh fresh_item customer items (or_usd req.requested_currency)
    ]
  ]
]

module _ (replied : Remote → ℕ → Result (Unit {0})) where
  -- The release of what was reserved for an order that was not saved; its error is only logged.
  abbrev pub give_back :
      ℕ → Result (Unit {0}) × World Tables Remote → Result (Unit {0}) × World Tables Remote
  give_back id (ok a, w) = (ok a, w)
  give_back id (err e, w) = (err e, (call_remote replied (release_stock id) w).1)

  unfoldable pub save_or_release : Order → Step (Unit {0})
  save_or_release o w = give_back o.id (save_order o w)

  -- `Create`, from the order that `NewOrder` built
  unfoldable pub place_order : Order → Step ℕ
  place_order o = do
    call_remote replied (reserve_stock o.id (lines_of o.items))
    save_or_release o
    mark_pending_after_create o.id
    return o.id

  -- `Create`, with the identifiers that `uuid.New` returns
  unfoldable pub create :
      ℕ
      → (ℕ → ℕ)
      → Raw ℕ
      → Option CreateOrderRequest
      → World Tables Remote
      → Response × World Tables Remote
  create fresh fresh_item user body w =
      respond (λ id. created id pending_payment)
        ((lift (requested_order fresh fresh_item user body) >>= place_order) w)

-- The owner of an order may read it.
abbrev pub if_owner : ℕ → Order → Result Order
if_owner customer o = if o.customer_id == customer then ok o else err forbidden

-- `Get`
unfoldable pub get : Raw ℕ → Option ℕ → World Tables Remote → Response × World Tables Remote
get user path w = respond found (
    (do
      customer ← lift (customer_id_from_header user)
      id ← lift (or_bad_request "invalid order id" path)
      o ← get_by_id id
      lift (if_owner customer o))
      w)

abbrev pub not_negative : String → ℕ → Raw ℤ → Result ℕ
not_negative field given absent = ok given
not_negative field given unreadable = err (validation field)
not_negative field given (read (pos n)) = ok n
not_negative field given (read (negsuc n)) = err (validation field)

abbrev pub default_list_limit : ℕ
default_list_limit = 20

abbrev pub max_list_limit : ℕ
max_list_limit = 100

abbrev pub at_most : ℕ → ℕ → ℕ
at_most bound n = if ltb bound n then bound else n

-- `parsePagination`; `strconv.Atoi` of the query's values
unfoldable pub parse_pagination : Raw ℤ → Raw ℤ → Result (ℕ × ℕ)
parse_pagination limit offset = elim (not_negative "limit" default_list_limit limit) [
  | err e ↦ err e
  | ok n ↦ elim (not_negative "offset" 0 offset) [
    | err e ↦ err e
    | ok m ↦ ok (at_most max_list_limit n, m)
  ]
]

-- `List`
unfoldable pub list_orders :
    Raw ℕ → Raw ℤ → Raw ℤ → World Tables Remote → Response × World Tables Remote
list_orders user limit offset w =
    respond (λ (page : List Order × ℕ × ℕ). listed page.0 page.1 page.2)
      ((do
        customer ← lift (customer_id_from_header user)
        page ← lift (parse_pagination limit offset)
        orders ← list_by_customer customer page.0 page.1
        return (orders, page.0, page.1))
        w)
