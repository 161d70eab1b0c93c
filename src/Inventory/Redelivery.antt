-- ===== src/Inventory/Redelivery.antt =====
-- The consumer of order events handles a redelivered event once.
use eventflow_commerce.Common.{
  ℕ, ◌≡◌, refl, sym, ◌∙◌, ap, Bool, true, false, List, [], ◌∷◌, Option, none, some, ==_refl,
  if◌then◌else◌, arith,
}
use eventflow_commerce.Errors.{Result, ok}
use eventflow_commerce.Database.{run, World, pure}
use eventflow_commerce.Database.Atomic.{
  Split, bind-Split, in_tx-ok, in_tx-keeps, run-bind, continue,
}
use eventflow_commerce.Database.Preserves.{
  Preserves, Preserves-done, Preserves-call, Preserves-bind, Preserves-if,
}
use eventflow_commerce.Messaging.Outbox.{EventType, order_cancelled, order_confirmed}
use eventflow_commerce.Messaging.Processed.{was_processed}
use eventflow_commerce.Common.Int.{ℤ}
use eventflow_commerce.Inventory.Domain.{Stock, ReserveItem, ReservationStatus}
use eventflow_commerce.Inventory.Rows.{
  Tables, Movement, reserved_items, mark_reservations, update_counters, insert_movement, mark_event,
  enqueue,
}
use eventflow_commerce.Inventory.Repository.{
  return_items, sell_items, release_in_tx, commit_in_tx, announce,
}
use eventflow_commerce.Inventory.Service.{
  OrderEvent, handle_order_event, handle_body, handle_parsed, handle,
}

-- The event is recorded as handled.
abbrev pub IsRecorded : ℕ → Tables → Type 0
IsRecorded event_id t = was_processed event_id t.processed ≡ true

module _ (event_id : ℕ) where
  update_counters-IsRecorded :
      (p : Stock → Bool) (q da dr : ℤ) → Preserves (IsRecorded event_id) (update_counters p q da dr)
  unfolding update_counters
  update_counters-IsRecorded p q da dr = Preserves-call _ _ (λ t h. ground arith)

  insert_movement-IsRecorded : (m : Movement) → Preserves (IsRecorded event_id) (insert_movement m)
  unfolding insert_movement
  insert_movement-IsRecorded m = Preserves-call _ _ (λ t h. ground arith)

  return_items-IsRecorded :
      (order : ℕ) (items : List ReserveItem)
      → Preserves (IsRecorded event_id) (return_items order items)
  unfolding return_items
  return_items-IsRecorded order [] = Preserves-done (ok tt)
  return_items-IsRecorded order (i ∷ items) =
      Preserves-bind _ _ (update_counters-IsRecorded _ _ _ _) λ _.
        Preserves-bind _ _ (insert_movement-IsRecorded _) λ _. return_items-IsRecorded order items

  sell_items-IsRecorded :
      (order : ℕ) (items : List ReserveItem)
      → Preserves (IsRecorded event_id) (sell_items order items)
  unfolding sell_items
  sell_items-IsRecorded order [] = Preserves-done (ok tt)
  sell_items-IsRecorded order (i ∷ items) =
      Preserves-bind _ _ (update_counters-IsRecorded _ _ _ _) λ _.
        Preserves-bind _ _ (insert_movement-IsRecorded _) λ _. sell_items-IsRecorded order items

  reserved_items-IsRecorded : (order : ℕ) → Preserves (IsRecorded event_id) (reserved_items order)
  unfolding reserved_items
  reserved_items-IsRecorded order = Preserves-call _ _ (λ t h. h)

  mark_reservations-IsRecorded :
      (order : ℕ) (to : ReservationStatus)
      → Preserves (IsRecorded event_id) (mark_reservations order to)
  unfolding mark_reservations
  mark_reservations-IsRecorded order to = Preserves-call _ _ (λ t h. h)

  release_in_tx-IsRecorded : (order : ℕ) → Preserves (IsRecorded event_id) (release_in_tx order)
  unfolding release_in_tx
  release_in_tx-IsRecorded order = Preserves-bind _ _ (reserved_items-IsRecorded order) λ items.
      Preserves-bind _ _ (return_items-IsRecorded order items) λ _.
        Preserves-bind _ _ (mark_reservations-IsRecorded order _) λ _. Preserves-done (ok items)

  commit_in_tx-IsRecorded : (order : ℕ) → Preserves (IsRecorded event_id) (commit_in_tx order)
  unfolding commit_in_tx
  commit_in_tx-IsRecorded order = Preserves-bind _ _ (reserved_items-IsRecorded order) λ items.
      Preserves-bind _ _ (sell_items-IsRecorded order items) λ _.
        Preserves-bind _ _ (mark_reservations-IsRecorded order _) λ _. Preserves-done (ok items)

  announce-IsRecorded :
      (kind : EventType) (order : ℕ) (items : List ReserveItem)
      → Preserves (IsRecorded event_id) (announce kind order items)
  unfolding announce enqueue
  announce-IsRecorded kind order [] = Preserves-done (ok tt)
  announce-IsRecorded kind order (i ∷ items) = Preserves-call _ _ (λ t h. h)

  handle_order_event-IsRecorded :
      (kind : EventType) (order : ℕ)
      → Preserves (IsRecorded event_id) (handle_order_event kind order)
  unfolding handle_order_event
  handle_order_event-IsRecorded order_cancelled order =
      Preserves-bind _ _ (release_in_tx-IsRecorded order) (announce-IsRecorded _ order)
  handle_order_event-IsRecorded order_confirmed order =
      Preserves-bind _ _ (commit_in_tx-IsRecorded order) (λ _. Preserves-done (ok tt))
  handle_order_event-IsRecorded _ order = Preserves-done (ok tt)

mark_event-IsRecorded :
    (event_id : ℕ) (t u : Tables) (fresh : Bool)
    → run (mark_event event_id) t ≡ (ok fresh, u)
    → IsRecorded event_id u
unfolding mark_event run
mark_event-IsRecorded event_id t u fresh e = ground (arith, ==_refl event_id)

mark_event_again :
    (event_id : ℕ) (t : Tables)
    → IsRecorded event_id t
    → run (mark_event event_id) t ≡ (ok false, t)
unfolding mark_event run
mark_event_again event_id t h = rw h refl

-- A body that returned no error has recorded its event.
handle_body-IsRecorded :
    (e : OrderEvent) (order : ℕ) (t u : Tables)
    → run (handle_body e order) t ≡ (ok tt, u)
    → IsRecorded e.event_id u
unfolding handle_body
handle_body-IsRecorded e order t u r =
    let a : Split (mark_event e.event_id)
        (λ fresh. if fresh then handle_order_event e.event_type order else pure tt) t tt u =
      bind-Split _ _ t tt u r in
    (Preserves-if a.between _ _ (handle_order_event-IsRecorded e.event_id e.event_type order)
        (Preserves-done (ok tt))).keep
      a.middle u tt a.second (mark_event-IsRecorded e.event_id t a.middle a.between a.first)

handle_body_again :
    (e : OrderEvent) (order : ℕ) (t : Tables)
    → IsRecorded e.event_id t
    → run (handle_body e order) t ≡ (ok tt, t)
unfolding handle_body
handle_body_again e order t h =
    rw (run-bind, mark_event_again e.event_id t h, continue) (unfold run in refl)

handle_parsed_again :
    (order : Option ℕ) (e : OrderEvent) (w v : World Tables (Unit {0}))
    → (handle_parsed order e w).0 ≡ ok tt
    → v.committed ≡ (handle_parsed order e w).1.committed
    → (handle_parsed order e v).1.committed ≡ v.committed
handle_parsed_again none e w v h same = refl
handle_parsed_again (some order) e w v h same =
    let recorded : IsRecorded e.event_id v.committed =
      rw same
        (handle_body-IsRecorded e order w.committed _ (in_tx-ok (handle_body e order) w tt h)) in
    in_tx-keeps (λ t. t ≡ v.committed) (handle_body e order) v
      (λ a s r.
        ap (λ (o : Result (Unit {0}) × Tables). o.1)
          (sym r ∙ handle_body_again e order v.committed recorded))
      refl

-- An event that the consumer handled without an error can be delivered again: the committed
-- tables stay as they are, whatever the database answers.
pub handle-handle :
    (e : OrderEvent) (w v : World Tables (Unit {0}))
    → (handle e w).0 ≡ ok tt
    → v.committed ≡ (handle e w).1.committed
    → (handle e v).1.committed ≡ v.committed
unfolding handle
handle-handle e w v h same = handle_parsed_again e.order e w v h same
