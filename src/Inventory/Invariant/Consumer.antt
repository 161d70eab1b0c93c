-- ===== src/Inventory/Invariant/Consumer.antt =====
-- The consumer of order events keeps the invariant.
use eventflow_commerce.Common.{ℕ, Option, none, some}
use eventflow_commerce.Errors.{ok}
use eventflow_commerce.Database.{World}
use eventflow_commerce.Database.Preserves.{
  Preserves, Preserves-done, Preserves-call, Preserves-bind, in_tx-Preserves, Preserves-if,
}
use eventflow_commerce.Inventory.Rows.{Tables}
use eventflow_commerce.Inventory.Repository.{commit_in_tx, release_body}
use eventflow_commerce.Messaging.Outbox.{EventType, order_cancelled, order_confirmed}
use eventflow_commerce.Inventory.Rows.{mark_event}
use eventflow_commerce.Inventory.Service.{
  OrderEvent, handle_order_event, commit_reaction, handle_body, handle, handle_parsed,
}
use eventflow_commerce.Inventory.Invariant.{IsConsistent}
use eventflow_commerce.Inventory.Invariant.Release.{
  commit_in_tx-IsConsistent, release_body-IsConsistent,
}

commit_reaction-IsConsistent : (order : ℕ) → Preserves IsConsistent (commit_reaction order)
unfolding commit_reaction
commit_reaction-IsConsistent order =
    Preserves-bind (commit_in_tx order) _ (commit_in_tx-IsConsistent order)
      (λ _. Preserves-done (ok tt))

handle_order_event-IsConsistent :
    (kind : EventType) (order : ℕ) → Preserves IsConsistent (handle_order_event kind order)
unfolding handle_order_event release_body
handle_order_event-IsConsistent order_cancelled order = release_body-IsConsistent order
handle_order_event-IsConsistent order_confirmed order = commit_reaction-IsConsistent order
handle_order_event-IsConsistent _ order = Preserves-done (ok tt)

handle_body-IsConsistent :
    (e : OrderEvent) (order : ℕ) → Preserves IsConsistent (handle_body e order)
unfolding handle_body mark_event
handle_body-IsConsistent e order =
    Preserves-bind (mark_event e.event_id) _
      (Preserves-call _ _
        (λ t h. record { counted = h.counted; nonneg = h.nonneg; one_row = h.one_row }))
      (λ fresh.
        Preserves-if fresh _ _ (handle_order_event-IsConsistent e.event_type order)
          (Preserves-done (ok tt)))

handle_parsed-IsConsistent :
    (order : Option ℕ) (e : OrderEvent) (w : World Tables (Unit {0}))
    → IsConsistent w.committed
    → IsConsistent (handle_parsed order e w).1.committed
handle_parsed-IsConsistent none e w h = h
handle_parsed-IsConsistent (some order) e w h =
    in_tx-Preserves (handle_body e order) w (handle_body-IsConsistent e order) h

-- Whatever the event says and whichever calls of the database fail, the consumer of order events
-- leaves committed tables in which every reserved counter is the sum of the reservations held, no
-- counter is negative and each product has one row, if they were so before.
pub handle-IsConsistent :
    (e : OrderEvent) (w : World Tables (Unit {0}))
    → IsConsistent w.committed
    → IsConsistent (handle e w).1.committed
unfolding handle
handle-IsConsistent e w h = handle_parsed-IsConsistent e.order e w h
