-- ===== src/Inventory/Rows.antt =====
-- The tables of the inventory service (services/inventory/migrations) and the SQL statements of
-- services/inventory/internal/repository/stock.go. A table is the list of its rows; SQL gives them
-- no order, so an insert puts its row in front. A constraint that a statement would break makes
-- the server refuse the whole statement.
use eventflow_commerce.Common.{
  ℕ, ◌+◌, Bool, true, false, ◌&&◌, List, [], ◌∷◌, ◌==◌, leb, map, length, where_rows, any_row,
  all_rows, update_rows, if◌then◌else◌,
}
use eventflow_commerce.Common.Int.{ℤ, pos, ◌+ℤ◌, pos_part, neg_part, leb_ℤ, ltb_ℤ}
use eventflow_commerce.Errors.{Result, ok, err, driver, statement, product_not_found}
use eventflow_commerce.Database.{Prog, sql, query}
use eventflow_commerce.Messaging.Outbox.{OutboxRow, Message, enqueue_row}
use eventflow_commerce.Messaging.Processed.{was_processed, mark_processed}
use eventflow_commerce.Inventory.Domain.{
  Stock, Reservation, ReserveItem, ReservationStatus, is_reserved,
}

-- The movement types that this code writes.
pub data MovementType : Type 0 where
  reservation release sale : MovementType

pub record Movement : Type 0 where
  pub moved_product : ℕ
  pub kind : MovementType
  pub moved : ℤ
  pub reference : ℕ

-- `inventoryEventPayload`
pub record InventoryPayload : Type 0 where
  pub payload_order : ℕ
  pub payload_items : List ReserveItem

pub record Tables : Type 0 where
  pub inventory : List Stock
  pub reservations : List Reservation
  pub movements : List Movement
  pub outbox : List (OutboxRow InventoryPayload)
  pub processed : List ℕ

-- The largest and smallest values of an INTEGER column, as parts.
abbrev pub max_int4 : ℕ
max_int4 = 2147483647

abbrev pub fits_int4 : ℤ → Bool
fits_int4 a = leb (pos_part a) max_int4 && leb (neg_part a) (max_int4 + 1)

-- The checks on a row of inventory: no counter is negative, and the generated total of the two
-- is an INTEGER.
abbrev pub row_allowed : Stock → Bool
row_allowed s =
    leb_ℤ (pos 0) s.quantity_available
    && leb_ℤ (pos 0) s.quantity_reserved
    && fits_int4 (s.quantity_available +ℤ s.quantity_reserved)

abbrev pub add_counters : ℤ → ℤ → Stock → Stock
add_counters da dr s = record s {
  quantity_available = s.quantity_available +ℤ da;
  quantity_reserved = s.quantity_reserved +ℤ dr;
}

abbrev pub adjusted : (Stock → Bool) → ℤ → ℤ → List Stock → List Stock
adjusted p da dr rows = update_rows p (add_counters da dr) rows

-- `UPDATE inventory SET quantity_available = ..., quantity_reserved = ... WHERE p`, with the
-- number of rows affected.
unfoldable pub update_counters : (Stock → Bool) → ℤ → ℤ → ℤ → Prog Tables ℕ
update_counters p q da dr =
    sql
      (λ t.
        if fits_int4 q && all_rows row_allowed (adjusted p da dr t.inventory)
        then ok (length (where_rows p t.inventory))
        else err (driver statement))
      (λ t.
        if fits_int4 q && all_rows row_allowed (adjusted p da dr t.inventory)
        then record t { inventory = adjusted p da dr t.inventory }
        else t)

-- The row of a product that has at least the quantity asked for.
abbrev pub can_supply : ReserveItem → Stock → Bool
can_supply i s = s.product_id == i.item_product && leb_ℤ i.item_quantity s.quantity_available

abbrev pub of_product : ℕ → Stock → Bool
of_product p s = s.product_id == p

abbrev pub holds_order : ℕ → Reservation → Bool
holds_order order r = r.order_id == order && is_reserved r.status

abbrev pub holds_item : ℕ → ℕ → Reservation → Bool
holds_item order p r = r.order_id == order && (r.product == p && is_reserved r.status)

abbrev pub same_key : Reservation → Reservation → Bool
same_key a b = a.order_id == b.order_id && a.product == b.product

-- `hasReservedRow`
unfoldable pub has_reserved_row : ℕ → ℕ → Prog Tables Bool
has_reserved_row order p = query (λ t. ok (any_row (holds_item order p) t.reservations))

abbrev first_available : ℕ → List Stock → Result ℤ
first_available p [] = err (product_not_found p)
first_available p (s ∷ rows) = ok s.quantity_available

-- `availableQuantity`
unfoldable pub available_quantity : ℕ → Prog Tables ℤ
available_quantity p = query (λ t. first_available p (where_rows (of_product p) t.inventory))

-- `INSERT INTO inventory_reservations`: the quantity is an INTEGER above 0, and an order has one
-- row for a product, in any status.
abbrev pub insertable : Reservation → List Reservation → Bool
insertable r rows =
    if any_row (same_key r) rows then false else ltb_ℤ (pos 0) r.quantity && fits_int4 r.quantity

unfoldable pub insert_reservation : Reservation → Prog Tables (Unit {0})
insert_reservation r =
    sql (λ t. if insertable r t.reservations then ok tt else err (driver statement))
      (λ t.
        if insertable r t.reservations then record t { reservations = r ∷ t.reservations } else t)

-- `INSERT INTO inventory_movements`
unfoldable pub insert_movement : Movement → Prog Tables (Unit {0})
insert_movement m =
    sql (λ t. if fits_int4 m.moved then ok tt else err (driver statement))
      (λ t. if fits_int4 m.moved then record t { movements = m ∷ t.movements } else t)

abbrev pub item_of : Reservation → ReserveItem
item_of r = record { item_product = r.product; item_quantity = r.quantity }

abbrev pub held_items : ℕ → List Reservation → List ReserveItem
held_items order rows = map item_of (where_rows (holds_order order) rows)

-- `reservedItems`
unfoldable pub reserved_items : ℕ → Prog Tables (List ReserveItem)
reserved_items order = query (λ t. ok (held_items order t.reservations))

abbrev pub with_status : ReservationStatus → Reservation → Reservation
with_status to r = record r { status = to }

-- `UPDATE inventory_reservations SET status = ... WHERE order_id = ... AND status = 'reserved'`
unfoldable pub mark_reservations : ℕ → ReservationStatus → Prog Tables (Unit {0})
mark_reservations order to =
    sql (λ t. ok tt)
      (λ t. record t {
        reservations = update_rows (holds_order order) (with_status to) t.reservations;
      })

unfoldable pub enqueue : Message InventoryPayload → Prog Tables (Unit {0})
enqueue m = sql (λ t. ok tt) (λ t. record t { outbox = enqueue_row m t.outbox })

-- `ProcessedStore.MarkProcessed`: whether the event was not yet recorded.
unfoldable pub mark_event : ℕ → Prog Tables Bool
mark_event event_id =
    sql (λ t. ok (if was_processed event_id t.processed then false else true))
      (λ t. record t { processed = mark_processed event_id t.processed })
