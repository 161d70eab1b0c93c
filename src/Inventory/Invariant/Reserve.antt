-- ===== src/Inventory/Invariant/Reserve.antt =====
-- `Reserve` keeps the invariant.
use eventflow_commerce.Common.{
  ℕ, ◌≡◌, refl, ◌⊎◌, inl, inr, true, List, [], ◌∷◌, ◌++◌, ◌<◌, length, where_rows, all_rows, arith,
}
use eventflow_commerce.Common.Int.{pos, ◌-ℤ◌}
use eventflow_commerce.Errors.{ok}
use eventflow_commerce.Database.{run, World}
use eventflow_commerce.Inventory.Domain.{Reservation, ReserveItem, reserved, new_reservation}
use eventflow_commerce.Inventory.Rows.{
  Tables, enqueue, row_allowed, adjusted, can_supply, update_counters, has_reserved_row,
  insert_reservation, insert_movement, available_quantity,
}
use eventflow_commerce.Database.Preserves.{
  Preserves, Preserves-done, Preserves-call, Preserves-bind, in_tx-Preserves,
}
use eventflow_commerce.Inventory.Invariant.{
  IsConsistent, supply-IsCounted, all_rows-IsNonneg, HasOneRow-adjusted,
}
use eventflow_commerce.Inventory.Repository.{
  reserve_item, shortage, record_reservation, reserve_items, reserve_body, reserve, announce,
}
use eventflow_commerce.Messaging.Outbox.{EventType, inventory_reserved}

-- The row that `Reserve` inserts for an item.
abbrev hold : ℕ → ReserveItem → Reservation
hold order i = record {
  order_id = order;
  product = i.item_product;
  quantity = i.item_quantity;
  status = reserved;
}

-- What a round of the loop of `Reserve` has done when it returns no error.
record Taken (order : ℕ) (i : ReserveItem) (t u : Tables) : Type 0 where
  took :
      u.inventory ≡ adjusted (can_supply i) (pos 0 -ℤ i.item_quantity) i.item_quantity t.inventory
  wrote : u.reservations ≡ hold order i ∷ t.reservations
  stocked : 0 < length (where_rows (can_supply i) t.inventory)
  admitted : all_rows row_allowed u.inventory ≡ true

reserve_item-Taken :
    (order : ℕ) (i : ReserveItem) (t u : Tables) (new : List ReserveItem)
    → run (reserve_item order i) t ≡ (ok new, u)
    → (u ≡ t) ⊎ Taken order i t u
unfolding reserve_item run has_reserved_row update_counters record_reservation new_reservation
    insert_reservation insert_movement shortage available_quantity
reserve_item-Taken order i t u new h = ground arith

reserve_item-IsConsistent :
    (order : ℕ) (i : ReserveItem) → Preserves IsConsistent (reserve_item order i)
reserve_item-IsConsistent order i = record {
  keep = λ t u new e h. elim (reserve_item-Taken order i t u new e) [
    | inl same ↦ rw same h
    | inr k ↦ record {
      counted =
          rw (k.took, k.wrote)
            (supply-IsCounted i (hold order i) t.reservations t.inventory refl refl refl h.one_row
              k.stocked h.counted);
      nonneg = all_rows-IsNonneg u.inventory k.admitted;
      one_row = rw k.took (HasOneRow-adjusted _ _ _ t.inventory h.one_row);
    }
  ];
}

reserve_items-IsConsistent :
    (order : ℕ) (items got : List ReserveItem)
    → Preserves IsConsistent (reserve_items order items got)
unfolding reserve_items
reserve_items-IsConsistent order [] got = Preserves-done (ok got)
reserve_items-IsConsistent order (i ∷ items) got =
    Preserves-bind (reserve_item order i) _ (reserve_item-IsConsistent order i)
      (λ new. reserve_items-IsConsistent order items (got ++ new))

pub announce-IsConsistent :
    (kind : EventType) (order : ℕ) (items : List ReserveItem)
    → Preserves IsConsistent (announce kind order items)
unfolding announce enqueue
announce-IsConsistent kind order [] = Preserves-done (ok tt)
announce-IsConsistent kind order (i ∷ items) =
    Preserves-call _ _
      (λ t h. record { counted = h.counted; nonneg = h.nonneg; one_row = h.one_row })

reserve_body-IsConsistent :
    (order : ℕ) (items : List ReserveItem) → Preserves IsConsistent (reserve_body order items)
unfolding reserve_body
reserve_body-IsConsistent order items =
    Preserves-bind (reserve_items order items []) _ (reserve_items-IsConsistent order items [])
      (announce-IsConsistent inventory_reserved order)

-- Whatever the items are and whichever calls of the database fail, `Reserve` leaves committed
-- tables in which every reserved counter is the sum of the reservations held, no counter is
-- negative and each product has one row, if they were so before.
pub reserve-IsConsistent :
    (order : ℕ) (items : List ReserveItem) (w : World Tables (Unit {0}))
    → IsConsistent w.committed
    → IsConsistent (reserve order items w).1.committed
unfolding reserve
reserve-IsConsistent order items w =
    in_tx-Preserves (reserve_body order items) w (reserve_body-IsConsistent order items)
