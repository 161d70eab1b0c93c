-- ===== src/Inventory/Repository.antt =====
-- services/inventory/internal/repository/stock.go: the transactions of StockRepository.
use eventflow_commerce.Common.{ℕ, List, [], ◌∷◌, ◌++◌, ◌==◌, where_rows, if◌then◌else◌}
use eventflow_commerce.Common.Int.{pos, ◌-ℤ◌}
use eventflow_commerce.Errors.{Result, ok, err, product_not_found, insufficient_inventory}
use eventflow_commerce.Database.{Prog, done, pure, raise, ◌>>=◌, ◌>>◌, Action, in_tx, select}
use eventflow_commerce.Messaging.Outbox.{
  Message, inventory_topic, EventType, inventory_reserved, inventory_released,
}
use eventflow_commerce.Inventory.Domain.{Stock, ReserveItem, released, committed, new_reservation}
use eventflow_commerce.Inventory.Rows.{
  Tables, reservation, release, sale, InventoryPayload, update_counters, can_supply, of_product,
  has_reserved_row, available_quantity, insert_reservation, insert_movement, reserved_items,
  mark_reservations, enqueue,
}

abbrev stock_of : ℕ → List Stock → Result Stock
stock_of p [] = err (product_not_found p)
stock_of p (s ∷ rows) = ok s

-- `GetByProductID`
unfoldable pub get_by_product_id : ℕ → Action Tables (Unit {0}) Stock
get_by_product_id p = select (λ t. stock_of p (where_rows (of_product p) t.inventory))

-- `newInventoryEventPayload` and `enqueueEvent`
unfoldable pub inventory_message : EventType → ℕ → List ReserveItem → Message InventoryPayload
inventory_message kind order items = record {
  topic = inventory_topic;
  event_type = kind;
  aggregate_id = order;
  payload = record { payload_order = order; payload_items = items };
}

-- The end of `Reserve` for a product whose row was not updated.
unfoldable pub shortage : ReserveItem → Prog Tables (List ReserveItem)
shortage i = do
  available ← available_quantity i.item_product
  raise (insufficient_inventory i.item_product i.item_quantity available)

-- The rows that `Reserve` inserts for an item whose stock it has taken.
unfoldable pub record_reservation : ℕ → ReserveItem → Prog Tables (List ReserveItem)
record_reservation order i = do
  r ← done (new_reservation order i.item_product i.item_quantity)
  insert_reservation r
  insert_movement (record {
    moved_product = i.item_product;
    kind = reservation;
    moved = pos 0 -ℤ i.item_quantity;
    reference = order;
  })
  pure (i ∷ [])

-- One round of the loop of `Reserve`; the item is returned if it was reserved now.
unfoldable pub reserve_item : ℕ → ReserveItem → Prog Tables (List ReserveItem)
reserve_item order i = do
  duplicate ← has_reserved_row order i.item_product
  if duplicate then pure [] else do
    rows ← update_counters (can_supply i) i.item_quantity (pos 0 -ℤ i.item_quantity) i.item_quantity
    if rows == 0 then shortage i else record_reservation order i

-- The loop of `Reserve`.
unfoldable pub reserve_items :
    ℕ → List ReserveItem → List ReserveItem → Prog Tables (List ReserveItem)
reserve_items order [] got = pure got
reserve_items order (i ∷ items) got = do
  new ← reserve_item order i
  reserve_items order items (got ++ new)

-- An event is enqueued only if an item stands behind it.
unfoldable pub announce : EventType → ℕ → List ReserveItem → Prog Tables (Unit {0})
announce kind order [] = pure tt
announce kind order (i ∷ items) = enqueue (inventory_message kind order (i ∷ items))

unfoldable pub reserve_body : ℕ → List ReserveItem → Prog Tables (Unit {0})
reserve_body order items = do
  got ← reserve_items order items []
  announce inventory_reserved order got

-- `Reserve`
unfoldable pub reserve : ℕ → List ReserveItem → Action Tables (Unit {0}) (Unit {0})
reserve order items = in_tx (reserve_body order items)

-- The loop of `release`.
unfoldable pub return_items : ℕ → List ReserveItem → Prog Tables (Unit {0})
return_items order [] = pure tt
return_items order (i ∷ items) = do
  update_counters (of_product i.item_product) i.item_quantity i.item_quantity
      (pos 0 -ℤ i.item_quantity)
  insert_movement (record {
    moved_product = i.item_product;
    kind = release;
    moved = i.item_quantity;
    reference = order;
  })
  return_items order items

-- `release`, which is also `ReleaseInTx`
unfoldable pub release_in_tx : ℕ → Prog Tables (List ReserveItem)
release_in_tx order = do
  items ← reserved_items order
  return_items order items
  mark_reservations order released
  pure items

unfoldable pub release_body : ℕ → Prog Tables (Unit {0})
release_body order = do items ← release_in_tx order; announce inventory_released order items

-- `Release`
unfoldable pub release_order : ℕ → Action Tables (Unit {0}) (Unit {0})
release_order order = in_tx (release_body order)

-- The loop of `CommitInTx`.
unfoldable pub sell_items : ℕ → List ReserveItem → Prog Tables (Unit {0})
sell_items order [] = pure tt
sell_items order (i ∷ items) = do
  update_counters (of_product i.item_product) i.item_quantity (pos 0) (pos 0 -ℤ i.item_quantity)
  insert_movement (record {
    moved_product = i.item_product;
    kind = sale;
    moved = pos 0 -ℤ i.item_quantity;
    reference = order;
  })
  sell_items order items

-- `CommitInTx`
unfoldable pub commit_in_tx : ℕ → Prog Tables (List ReserveItem)
commit_in_tx order = do
  items ← reserved_items order
  sell_items order items
  mark_reservations order committed
  pure items
