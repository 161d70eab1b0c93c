-- ===== src/Order/Orders.antt =====
-- services/order/internal/repository/order.go: `Save` and `ListByCustomer`, with the checks that
-- services/order/migrations put on the columns.
use Prim.Native.String.{String}
use eventflow_commerce.Common.{
  ℕ, suc, ◌^◌, Bool, ◌&&◌, ◌==◌, leb, List, [], ◌∷◌, ◌++◌, map, take, drop, where_rows, any_row,
  update_rows, if◌then◌else◌,
}
use eventflow_commerce.Common.Int.{pos, leb_ℤ, ltb_ℤ}
use eventflow_commerce.Errors.{ok, err, driver, statement}
use eventflow_commerce.Database.{Prog, pure, sql, ◌>>◌, select, in_tx}
use eventflow_commerce.Messaging.Outbox.{Message, order_created, orders_topic}
use eventflow_commerce.Order.Domain.{Order, OrderItem}
use eventflow_commerce.Order.Rows.{
  Tables, CreatedItem, has_id, payload_of, order_contents, enqueue, OrderPayload,
}
use eventflow_commerce.Order.Service.{Step}

abbrev pub text_length : String → ℕ
text_length String.[] = 0
text_length (String.◌∷◌ c s) = suc (text_length s)

-- The checks of the table orders that an insert can meet.
abbrev pub order_fits : Order → Bool
order_fits o = leb_ℤ (pos 0) o.total_amount_cents && leb (text_length o.currency) 3

-- The checks of the table order_items.
abbrev pub item_fits : OrderItem → Bool
item_fits i =
    ltb_ℤ (pos 0) i.item_quantity
    && ltb_ℤ i.item_quantity (pos (2 ^ 31))
    && leb_ℤ (pos 0) i.unit_price_cents
    && leb_ℤ (pos 0) i.total_price_cents
    && leb (text_length i.product_name) 255
    && leb (text_length i.product_sku) 100

-- `INSERT INTO orders`; the id is the primary key, and no item stands there yet.
unfoldable pub insert_order : Order → Prog Tables (Unit {0})
insert_order o =
    sql
      (λ t.
        if any_row (has_id o.id) t.orders
        then err (driver statement)
        else if order_fits o
        then ok tt
        else err (driver statement))
      (λ t. record t { orders = t.orders ++ record o { items = [] } ∷ [] })

abbrev pub has_item : ℕ → Order → Bool
has_item id o = any_row (λ i. i.item_id == id) o.items

abbrev pub with_item : OrderItem → Order → Order
with_item i o = record o { items = o.items ++ i ∷ [] }

-- `INSERT INTO order_items`; the id of the item is the primary key.
unfoldable pub insert_item : ℕ → OrderItem → Prog Tables (Unit {0})
insert_item id i =
    sql
      (λ t.
        if any_row (has_item i.item_id) t.orders
        then err (driver statement)
        else if item_fits i
        then ok tt
        else err (driver statement))
      (λ t. record t { orders = update_rows (has_id id) (with_item i) t.orders })

-- The loop of `Save`.
unfoldable pub insert_items : ℕ → List OrderItem → Prog Tables (Unit {0})
insert_items id [] = pure tt
insert_items id (i ∷ items) = insert_item id i >> insert_items id items

abbrev pub created_item : OrderItem → CreatedItem
created_item i = record {
  created_product = i.product_id;
  created_name = i.product_name;
  created_sku = i.product_sku;
  created_quantity = i.item_quantity;
  created_unit_price = i.unit_price_cents;
  created_total = i.total_price_cents;
}

-- `newOrderCreatedPayload`, in the message of `Save`
unfoldable pub created_message : Order → Message OrderPayload
created_message o = record {
  topic = orders_topic;
  event_type = order_created;
  aggregate_id = o.id;
  payload =
      order_contents (record { summary = payload_of o; created_items = map created_item o.items });
}

unfoldable pub save_writes : Order → Prog Tables (Unit {0})
save_writes o = do insert_order o; insert_items o.id o.items; enqueue (created_message o)

-- `Save`
unfoldable pub save_order : Order → Step (Unit {0})
save_order o = in_tx (save_writes o)

-- A row of orders without its items, as `ListByCustomer` scans it.
abbrev pub without_items : Order → Order
without_items o = record o { items = [] }

abbrev pub newest_first : List Order → List Order
newest_first [] = []
newest_first (o ∷ rows) = newest_first rows ++ o ∷ []

abbrev pub is_customers : ℕ → Order → Bool
is_customers customer o = o.customer_id == customer

-- `ListByCustomer`: rows are inserted in the order of `created_at`.
unfoldable pub list_by_customer : ℕ → ℕ → ℕ → Step (List Order)
list_by_customer customer limit offset = select (λ t. ok (
    map without_items
      (take limit (drop offset (newest_first (where_rows (is_customers customer) t.orders))))))
