-- ===== src/Tests/Stock.antt =====
-- Concrete runs of the inventory service.
use eventflow_commerce.Inventory.Service.{handle_order_event}
use eventflow_commerce.Inventory.Rows.{mark_event}
use eventflow_commerce.Inventory.Service.{handle_body}
use eventflow_commerce.Inventory.Rows.{mark_reservations}
use eventflow_commerce.Inventory.Repository.{return_items}
use eventflow_commerce.Inventory.Rows.{reserved_items}
use eventflow_commerce.Inventory.Repository.{release_in_tx}
use eventflow_commerce.Inventory.Repository.{release_body}
use eventflow_commerce.Inventory.Rows.{enqueue}
use eventflow_commerce.Inventory.Repository.{announce}
use eventflow_commerce.Inventory.Rows.{insert_movement}
use eventflow_commerce.Inventory.Rows.{insert_reservation}
use eventflow_commerce.Inventory.Domain.{new_reservation}
use eventflow_commerce.Inventory.Repository.{record_reservation}
use eventflow_commerce.Common.Int.{◌-ℤ◌}
use eventflow_commerce.Inventory.Rows.{update_counters}
use eventflow_commerce.Inventory.Rows.{has_reserved_row}
use eventflow_commerce.Inventory.Repository.{reserve_item}
use eventflow_commerce.Inventory.Repository.{reserve_items}
use eventflow_commerce.Inventory.Repository.{reserve_body}
use eventflow_commerce.Common.Int.{◌+ℤ◌}
use eventflow_commerce.Common.{◌≡◌, inl, refl, some, List, [], ◌∷◌, All, arith}
use eventflow_commerce.Common.Int.{pos}
use eventflow_commerce.Errors.{ok}
use eventflow_commerce.Database.{World, answers, in_tx}
use eventflow_commerce.Messaging.Outbox.{order_cancelled, order_confirmed}
use eventflow_commerce.Inventory.Domain.{ReserveItem, reserved}
use eventflow_commerce.Inventory.Rows.{Tables}
use eventflow_commerce.Inventory.Repository.{reserve, release_order}
use eventflow_commerce.Inventory.Service.{OrderEvent, handle}
use eventflow_commerce.Inventory.Invariant.{IsConsistent}
use eventflow_commerce.Inventory.Invariant.Consumer.{handle-IsConsistent}
use eventflow_commerce.Inventory.Idempotence.{IsHeld, reserve-AllHeld, reserve-reserve}
use eventflow_commerce.Inventory.Settlement.{release_order-release_order}
use eventflow_commerce.Inventory.Redelivery.{handle-handle}
use eventflow_commerce.Inventory.LateEvents.{SameStock, settled_once}
use eventflow_commerce.Inventory.Invariant.Reserve.{reserve-IsConsistent}
use eventflow_commerce.Inventory.Counters.{
  updated, reserve_rows, reservable_rows, update_counters-reserve_stock,
}
use eventflow_commerce.Database.{run}
use eventflow_commerce.Inventory.Rows.{row_allowed, can_supply}
use eventflow_commerce.Common.{all_rows, length}

abbrev shelf : Tables
shelf = record {
  inventory =
      record { product_id = 7; quantity_available = pos 10; quantity_reserved = pos 2; version = 1 }
      ∷ [];
  reservations = record { order_id = 5; product = 7; quantity = pos 2; status = reserved } ∷ [];
  movements = [];
  outbox = [];
  processed = [];
}

abbrev shop : World Tables (Unit {0})
shop = record { committed = shelf; view = shelf; calls = []; clock = 0; replies = λ _. answers }

abbrev wanted : List ReserveItem
wanted = record { item_product = 7; item_quantity = pos 3 } ∷ []

abbrev cancellation : OrderEvent
cancellation = record { event_id = 1; event_type = order_cancelled; order = some 5 }

abbrev confirmation : OrderEvent
confirmation = record { event_id = 2; event_type = order_confirmed; order = some 5 }

shelf-IsConsistent : IsConsistent shelf
unfolding ◌+ℤ◌
shelf-IsConsistent = record {
  counted = (refl, tt);
  nonneg = ((omega arith, omega arith), tt);
  one_row = (tt, tt);
}

reserved_ok : (reserve 9 wanted shop).0 ≡ ok tt
unfolding reserve in_tx reserve_body reserve_items reserve_item has_reserved_row update_counters
    ◌+ℤ◌ ◌-ℤ◌ record_reservation new_reservation insert_reservation insert_movement announce enqueue
reserved_ok = refl

released_ok : (release_order 5 shop).0 ≡ ok tt
unfolding release_order in_tx release_body release_in_tx reserved_items return_items update_counters
    ◌+ℤ◌ ◌-ℤ◌ insert_movement mark_reservations announce enqueue
released_ok = refl

cancelled_ok : (handle cancellation shop).0 ≡ ok tt
unfolding handle in_tx handle_body mark_event handle_order_event release_in_tx reserved_items
    return_items update_counters ◌+ℤ◌ ◌-ℤ◌ insert_movement mark_reservations announce enqueue
cancelled_ok = refl

reserve-IsConsistent_example : IsConsistent (reserve 9 wanted shop).1.committed
reserve-IsConsistent_example = reserve-IsConsistent 9 wanted shop shelf-IsConsistent

handle-IsConsistent_example : IsConsistent (handle cancellation shop).1.committed
handle-IsConsistent_example = handle-IsConsistent cancellation shop shelf-IsConsistent

reserve-AllHeld_example :
    All (λ i. IsHeld 9 i.item_product (reserve 9 wanted shop).1.committed) wanted
reserve-AllHeld_example = reserve-AllHeld 9 wanted shop reserved_ok

reserve-reserve_example :
    (reserve 9 wanted (reserve 9 wanted shop).1).1.committed ≡ (reserve 9 wanted shop).1.committed
reserve-reserve_example = reserve-reserve 9 wanted shop (reserve 9 wanted shop).1 reserved_ok refl

release_order-release_order_example :
    (release_order 5 (release_order 5 shop).1).1.committed ≡ (release_order 5 shop).1.committed
release_order-release_order_example =
    release_order-release_order 5 shop (release_order 5 shop).1 released_ok refl

handle-handle_example :
    (handle cancellation (handle cancellation shop).1).1.committed
    ≡ (handle cancellation shop).1.committed
handle-handle_example =
    handle-handle cancellation shop (handle cancellation shop).1 cancelled_ok refl

settled_once_example :
    SameStock
      (handle cancellation shop).1.committed
      (handle confirmation (handle cancellation shop).1).1.committed
settled_once_example =
    settled_once 5 cancellation confirmation shop (handle cancellation shop).1 refl refl (inl refl)
      refl cancelled_ok refl

abbrev three : ReserveItem
three = record { item_product = 7; item_quantity = pos 3 }

update_counters-reserve_stock_example :
    run (update_counters (can_supply three) (pos 3) (pos 0 -ℤ pos 3) (pos 3)) shelf
    ≡ updated
        (all_rows row_allowed (reserve_rows 7 (pos 3) shelf.inventory))
        shelf
        (reserve_rows 7 (pos 3) shelf.inventory)
        (length (reservable_rows 7 (pos 3) shelf.inventory))
update_counters-reserve_stock_example =
    update_counters-reserve_stock three shelf
      (((omega arith, omega arith), (omega arith, omega arith)), tt) (omega arith, omega arith)
