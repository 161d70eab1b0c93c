-- ===== src/Inventory/Service.antt =====
-- services/inventory/internal/service/stock.go and services/inventory/internal/consumer/orders.go:
-- the reaction to the events of orders, in one transaction with the mark of the handled event.
use eventflow_commerce.Common.{ℕ, Option, none, some, if◌then◌else◌}
use eventflow_commerce.Errors.{ok}
use eventflow_commerce.Database.{Prog, pure, ◌>>=◌, ◌>>◌, Action, in_tx}
use eventflow_commerce.Messaging.Outbox.{
  EventType, order_cancelled, order_confirmed, inventory_released,
}
use eventflow_commerce.Inventory.Rows.{Tables, mark_event}
use eventflow_commerce.Inventory.Repository.{release_in_tx, commit_in_tx, announce}

-- A message as the consumer reads it; `order` is `none` where `orderIDFromEvent` returns an error.
pub record OrderEvent : Type 0 where
  pub event_id : ℕ
  pub event_type : EventType
  pub order : Option ℕ

-- `releaseOrder`
unfoldable pub release_reaction : ℕ → Prog Tables (Unit {0})
release_reaction order = do items ← release_in_tx order; announce inventory_released order items

-- `commitOrder`
unfoldable pub commit_reaction : ℕ → Prog Tables (Unit {0})
commit_reaction order = do commit_in_tx order; pure tt

-- `HandleOrderEvent`
unfoldable pub handle_order_event : EventType → ℕ → Prog Tables (Unit {0})
unfolding release_reaction commit_reaction
handle_order_event order_cancelled order = release_reaction order
handle_order_event order_confirmed order = commit_reaction order
handle_order_event _ order = pure tt

unfoldable pub handle_body : OrderEvent → ℕ → Prog Tables (Unit {0})
handle_body e order = do
  fresh ← mark_event e.event_id
  if fresh then handle_order_event e.event_type order else pure tt

abbrev pub handle_parsed : Option ℕ → OrderEvent → Action Tables (Unit {0}) (Unit {0})
handle_parsed none e w = (ok tt, w)
handle_parsed (some order) e w = in_tx (handle_body e order) w

-- `OrdersConsumer.handle`
unfoldable pub handle : OrderEvent → Action Tables (Unit {0}) (Unit {0})
handle e = handle_parsed e.order e
