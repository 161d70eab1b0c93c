-- ===== src/Inventory/Idempotence.antt =====
-- Repeated calls: a reservation, a release and a delivered event take effect once.
use eventflow_commerce.Common.{
  ℕ, ◌≡◌, refl, sym, ◌∙◌, ap, true, List, [], ◌∷◌, ◌++◌, ==_refl, any_row, All, All-map, arith,
}
use mathlib.Core.List.{append-nil}
use eventflow_commerce.Errors.{Result, ok}
use eventflow_commerce.Database.{run, World}
use eventflow_commerce.Database.Atomic.{
  Split, bind-Split, in_tx-ok, in_tx-keeps, run-bind, continue,
}
use eventflow_commerce.Database.Preserves.{Preserves, Preserves-done, Preserves-bind}
use eventflow_commerce.Messaging.Outbox.{EventType, inventory_reserved}
use eventflow_commerce.Inventory.Domain.{ReserveItem, new_reservation}
use eventflow_commerce.Inventory.Rows.{
  Tables, holds_item, has_reserved_row, update_counters, insert_reservation, insert_movement,
  available_quantity, enqueue,
}
use eventflow_commerce.Inventory.Repository.{
  reserve_item, reserve_items, record_reservation, shortage, announce, reserve_body, reserve,
}

-- The order holds a reservation of the product.
abbrev pub IsHeld : ℕ → ℕ → Tables → Type 0
IsHeld order p t = any_row (holds_item order p) t.reservations ≡ true

-- After a round without an error the item is held.
reserve_item-IsHeld :
    (order : ℕ) (i : ReserveItem) (t u : Tables) (new : List ReserveItem)
    → run (reserve_item order i) t ≡ (ok new, u)
    → IsHeld order i.item_product u
unfolding reserve_item run has_reserved_row update_counters record_reservation new_reservation
    insert_reservation insert_movement shortage available_quantity
reserve_item-IsHeld order i t u new e = ground (arith, ==_refl order, ==_refl i.item_product)

-- What is held stays held through a round.
reserve_item-keeps_IsHeld :
    (order : ℕ) (i : ReserveItem) (p : ℕ) → Preserves (IsHeld order p) (reserve_item order i)
unfolding reserve_item run has_reserved_row update_counters record_reservation new_reservation
    insert_reservation insert_movement shortage available_quantity
reserve_item-keeps_IsHeld order i p = record { keep = λ t u a e h. ground arith }

AllHeld : ℕ → List ReserveItem → Tables → Type 0
AllHeld order items t = All (λ i. IsHeld order i.item_product t) items

reserve_items-keeps_IsHeld :
    (order : ℕ) (items got : List ReserveItem) (p : ℕ)
    → Preserves (IsHeld order p) (reserve_items order items got)
unfolding reserve_items
reserve_items-keeps_IsHeld order [] got p = Preserves-done (ok got)
reserve_items-keeps_IsHeld order (i ∷ items) got p =
    Preserves-bind (reserve_item order i) _ (reserve_item-keeps_IsHeld order i p)
      (λ new. reserve_items-keeps_IsHeld order items (got ++ new) p)

reserve_items-AllHeld :
    (order : ℕ) (items got all : List ReserveItem) (t u : Tables)
    → run (reserve_items order items got) t ≡ (ok all, u)
    → AllHeld order items u
unfolding reserve_items AllHeld
reserve_items-AllHeld order [] got all t u e = tt
reserve_items-AllHeld order (i ∷ items) got all t u e =
    let a : Split (reserve_item order i) (λ new. reserve_items order items (got ++ new)) t all u =
      bind-Split _ _ t all u e in
    (
      (reserve_items-keeps_IsHeld order items (got ++ a.between) i.item_product).keep a.middle u all
          a.second (reserve_item-IsHeld order i t a.middle a.between a.first),
      reserve_items-AllHeld order items (got ++ a.between) all a.middle u a.second,
    )

announce-reservations :
    (kind : EventType) (order : ℕ) (items : List ReserveItem) (t u : Tables)
    → run (announce kind order items) t ≡ (ok tt, u)
    → u.reservations ≡ t.reservations
unfolding announce run enqueue
announce-reservations kind order [] t u e = ground arith
announce-reservations kind order (i ∷ items) t u e = ground arith

reserve_body-AllHeld :
    (order : ℕ) (items : List ReserveItem) (t u : Tables)
    → run (reserve_body order items) t ≡ (ok tt, u)
    → AllHeld order items u
unfolding reserve_body AllHeld
reserve_body-AllHeld order items t u e =
    let a : Split (reserve_items order items []) (announce inventory_reserved order) t tt u =
      bind-Split _ _ t tt u e in
    All-map items
      (λ i h. rw (announce-reservations inventory_reserved order a.between a.middle u a.second) h)
      (reserve_items-AllHeld order items [] a.between t a.middle a.first)

reserve_item_held :
    (order : ℕ) (i : ReserveItem) (t : Tables)
    → IsHeld order i.item_product t
    → run (reserve_item order i) t ≡ (ok [], t)
unfolding reserve_item has_reserved_row run
reserve_item_held order i t h = ground arith

reserve_items_held :
    (order : ℕ) (items got : List ReserveItem) (t : Tables)
    → AllHeld order items t
    → run (reserve_items order items got) t ≡ (ok got, t)
unfolding reserve_items AllHeld
reserve_items_held order [] got t h = unfold run in refl
reserve_items_held order (i ∷ items) got t h =
    rw (run-bind, reserve_item_held order i t h.0, continue)
      (rw append-nil (reserve_items_held order items got t h.1))

reserve_body_held :
    (order : ℕ) (items : List ReserveItem) (t : Tables)
    → AllHeld order items t
    → run (reserve_body order items) t ≡ (ok tt, t)
unfolding reserve_body
reserve_body_held order items t h =
    rw (run-bind, reserve_items_held order items [] t h, continue) (unfold announce run in refl)

-- When `Reserve` returns no error, the order holds a reservation of every product asked for,
-- whichever replies of the database were lost.
pub reserve-AllHeld :
    (order : ℕ) (items : List ReserveItem) (w : World Tables (Unit {0}))
    → (reserve order items w).0 ≡ ok tt
    → All (λ i. IsHeld order i.item_product (reserve order items w).1.committed) items
unfolding reserve AllHeld
reserve-AllHeld order items w e =
    reserve_body-AllHeld order items w.committed _ (in_tx-ok (reserve_body order items) w tt e)

-- A `Reserve` that returned no error can be repeated: the second call leaves the committed tables
-- as they are, and so takes no stock and enqueues no event, whatever the database answers.
pub reserve-reserve :
    (order : ℕ) (items : List ReserveItem) (w v : World Tables (Unit {0}))
    → (reserve order items w).0 ≡ ok tt
    → v.committed ≡ (reserve order items w).1.committed
    → (reserve order items v).1.committed ≡ v.committed
unfolding reserve
reserve-reserve order items w v e same =
    let held : AllHeld order items v.committed =
      rw same (unfold AllHeld reserve in reserve-AllHeld order items w e) in
    in_tx-keeps (λ t. t ≡ v.committed) (reserve_body order items) v
      (λ a s r.
        ap (λ (o : Result (Unit {0}) × Tables). o.1)
          (sym r ∙ reserve_body_held order items v.committed held))
      refl
