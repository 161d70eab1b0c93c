-- ===== src/Messaging/Outbox.antt =====
-- shared/libs/go/outbox/store.go and shared/libs/go/events/topics.go: the outbox rows that a
-- service writes in the transaction of the change they announce. Payloads are typed by the struct
-- that the code marshals. An identifier (a UUID) is a number; the code only compares it, and its
-- nil value is 0.
use eventflow_commerce.Common.{ℕ, Bool, false, List, [], ◌∷◌, ◌++◌}

pub data Topic : Type 0 where
  orders_topic payments_topic inventory_topic : Topic

-- The texts of topics.go; `other` is any other text.
pub data EventType : Type 0 where
  order_created order_ready_for_payment order_confirmed order_cancelled : EventType
  inventory_reserved inventory_released product_updated : EventType
  payment_initiated payment_processed payment_failed payment_refunded payment_cancelled : EventType
  other : ℕ → EventType

pub record Message (P : Type 0) : Type 0 where
  pub topic : Topic
  pub event_type : EventType
  pub aggregate_id : ℕ
  pub payload : P

-- A row of outbox_messages: `published_at IS NOT NULL`, and the failed attempts.
pub record OutboxRow (P : Type 0) : Type 0 where
  pub message : Message P
  pub published : Bool
  pub attempts : ℕ

-- `Store.Enqueue`: the row goes behind the rows that stand there, as the relay reads them by
-- `created_at`.
abbrev pub enqueue_row : {P : Type 0} → Message P → List (OutboxRow P) → List (OutboxRow P)
enqueue_row m rows = rows ++ record { message = m; published = false; attempts = 0 } ∷ []
