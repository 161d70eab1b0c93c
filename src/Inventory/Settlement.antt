-- ===== src/Inventory/Settlement.antt =====
-- An order is settled once: after its reservations were released or sold, neither a repeated nor a
-- later settlement changes a counter, a reservation or a movement.
use eventflow_commerce.Common.{
  ℕ, ◌≡◌, refl, sym, ◌∙◌, ap, subst, false, List, [], ◌∷◌, update_rows, arith,
}
use eventflow_commerce.Errors.{Result, ok}
use eventflow_commerce.Database.{Prog, run, World, ◌>>=◌, ◌>>◌, pure}
use eventflow_commerce.Database.Atomic.{
  Split, bind-Split, in_tx-ok, in_tx-keeps, run-bind, continue,
}
use eventflow_commerce.Messaging.Outbox.{EventType, inventory_released}
use eventflow_commerce.Inventory.Domain.{
  ReserveItem, Reservation, ReservationStatus, released, committed, is_reserved,
}
use eventflow_commerce.Inventory.Rows.{
  Tables, holds_order, held_items, with_status, reserved_items, mark_reservations, enqueue,
}
use eventflow_commerce.Inventory.Repository.{
  return_items, sell_items, release_in_tx, commit_in_tx, announce, release_body, release_order,
}

-- The order holds no reservation any more.
abbrev pub IsSettled : ℕ → Tables → Type 0
IsSettled order t = held_items order t.reservations ≡ []

held_items-mark :
    (order : ℕ) (to : ReservationStatus) (rows : List Reservation)
    → is_reserved to ≡ false
    → held_items order (update_rows (holds_order order) (with_status to) rows) ≡ []
held_items-mark order to [] h = refl
held_items-mark order to (r ∷ rows) h = ground (arith, held_items-mark order to rows h)

-- Without a held row there is no row to mark.
mark_settled :
    (order : ℕ) (to : ReservationStatus) (rows : List Reservation)
    → held_items order rows ≡ []
    → update_rows (holds_order order) (with_status to) rows ≡ rows
mark_settled order to [] h = refl
mark_settled order to (r ∷ rows) h = ground (arith, mark_settled order to rows)

mark-IsSettled :
    (order : ℕ) (to : ReservationStatus) (t u : Tables) (a : Unit {0})
    → is_reserved to ≡ false
    → run (mark_reservations order to) t ≡ (ok a, u)
    → IsSettled order u
unfolding mark_reservations run
mark-IsSettled order to t u a h e =
    subst (IsSettled order) (ap (λ (o : Result (Unit {0}) × Tables). o.1) e)
      (held_items-mark order to t.reservations h)

module _ (order : ℕ) (to : ReservationStatus)
    (loop : List ReserveItem → Prog Tables (Unit {0})) where
  abbrev settling : Prog Tables (List ReserveItem)
  settling = do items ← reserved_items order; loop items; mark_reservations order to; pure items

  settling-IsSettled :
      (t u : Tables) (got : List ReserveItem)
      → is_reserved to ≡ false
      → run settling t ≡ (ok got, u)
      → IsSettled order u
  unfolding reserved_items run
  settling-IsSettled t u got h e =
      let items = held_items order t.reservations in
      let a : Split (loop items) (λ _. mark_reservations order to >> pure items) t got u =
        bind-Split _ _ t got u e in
      let b : Split (mark_reservations order to) (λ _. pure items) a.middle got u =
        bind-Split _ _ a.middle got u a.second in
      subst (IsSettled order) (ap (λ (o : Result (List ReserveItem) × Tables). o.1) b.second)
        (mark-IsSettled order to a.middle b.middle b.between h b.first)

  settling_settled :
      (t : Tables) → loop [] ≡ pure tt → IsSettled order t → run settling t ≡ (ok [], t)
  unfolding reserved_items mark_reservations run
  settling_settled t nothing h =
      let same : record t {
        reservations = update_rows (holds_order order) (with_status to) t.reservations;
      }
          ≡ t =
        ground (arith, mark_settled order to t.reservations h) in
      subst (λ items. run (loop items >> (mark_reservations order to >> pure items)) t ≡ (ok [], t))
        (sym h) (rw nothing (ap (λ (x : Tables). (ok [], x)) same))

pub release_in_tx-IsSettled :
    (order : ℕ) (t u : Tables) (got : List ReserveItem)
    → run (release_in_tx order) t ≡ (ok got, u)
    → IsSettled order u
unfolding release_in_tx
release_in_tx-IsSettled order t u got e =
    settling-IsSettled order released (return_items order) t u got refl e

pub commit_in_tx-IsSettled :
    (order : ℕ) (t u : Tables) (got : List ReserveItem)
    → run (commit_in_tx order) t ≡ (ok got, u)
    → IsSettled order u
unfolding commit_in_tx
commit_in_tx-IsSettled order t u got e =
    settling-IsSettled order committed (sell_items order) t u got refl e

release_in_tx_settled :
    (order : ℕ) (t : Tables) → IsSettled order t → run (release_in_tx order) t ≡ (ok [], t)
unfolding release_in_tx
release_in_tx_settled order t h =
    settling_settled order released (return_items order) t (unfold return_items in refl) h

pub commit_in_tx_settled :
    (order : ℕ) (t : Tables) → IsSettled order t → run (commit_in_tx order) t ≡ (ok [], t)
unfolding commit_in_tx
commit_in_tx_settled order t h =
    settling_settled order committed (sell_items order) t (unfold sell_items in refl) h

announce-reservations :
    (kind : EventType) (order : ℕ) (items : List ReserveItem) (t u : Tables) (a : Unit {0})
    → run (announce kind order items) t ≡ (ok a, u)
    → u.reservations ≡ t.reservations
unfolding announce run enqueue
announce-reservations kind order [] t u a e = ground arith
announce-reservations kind order (i ∷ items) t u a e = ground arith

pub release_body-IsSettled :
    (order : ℕ) (t u : Tables) → run (release_body order) t ≡ (ok tt, u) → IsSettled order u
unfolding release_body
release_body-IsSettled order t u e =
    let a : Split (release_in_tx order) (announce inventory_released order) t tt u =
      bind-Split _ _ t tt u e in
    rw (announce-reservations inventory_released order a.between a.middle u tt a.second)
      (release_in_tx-IsSettled order t a.middle a.between a.first)

pub release_body_settled :
    (order : ℕ) (t : Tables) → IsSettled order t → run (release_body order) t ≡ (ok tt, t)
unfolding release_body
release_body_settled order t h =
    rw (run-bind, release_in_tx_settled order t h, continue) (unfold announce run in refl)

-- A `Release` that returned no error can be repeated: the second call leaves the committed tables
-- as they are, so no stock is returned twice, whatever the database answers.
pub release_order-release_order :
    (order : ℕ) (w v : World Tables (Unit {0}))
    → (release_order order w).0 ≡ ok tt
    → v.committed ≡ (release_order order w).1.committed
    → (release_order order v).1.committed ≡ v.committed
unfolding release_order
release_order-release_order order w v e same =
    let settled : IsSettled order v.committed =
      rw same (release_body-IsSettled order w.committed _ (in_tx-ok (release_body order) w tt e)) in
    in_tx-keeps (λ t. t ≡ v.committed) (release_body order) v
      (λ a s r.
        ap (λ (o : Result (Unit {0}) × Tables). o.1)
          (sym r ∙ release_body_settled order v.committed settled))
      refl
