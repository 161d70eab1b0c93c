-- ===== src/Order/Service.antt =====
-- services/order/internal/service/order.go and services/order/internal/consumer/payments.go. The
-- releaser of reservations and the refunder of payments are other services, called over HTTP: what
-- they answer is a parameter, by the number of calls of the server made so far. The cached
-- reads stand in Reads; lifecycle transitions read the repository.
use eventflow_commerce.Common.{
  ℕ, Bool, true, false, Option, none, some, List, where_rows, if◌then◌else◌,
}
use eventflow_commerce.Common.Int.{ℤ}
use eventflow_commerce.Errors.{Result, ok, err}
use eventflow_commerce.Database.{Prog, done, ◌>>=◌, ◌>>◌, World, Action, exec, select, in_tx}
use eventflow_commerce.Database.Actions
use eventflow_commerce.Database.Session.{beside, execute, in_session}
use eventflow_commerce.Messaging.Outbox.{
  EventType, order_ready_for_payment, order_confirmed, order_cancelled, payment_processed,
  payment_failed,
}
use eventflow_commerce.Messaging.Processed.{mark_processed}
use eventflow_commerce.Order.Domain.{
  Status, confirmed, cancelled, Order, mark_pending, confirm, fail_order, cancel_order,
}
use eventflow_commerce.Order.Saga.{
  stock_reserved, awaiting_payment, paid, completed, compensating, compensated,
}
use eventflow_commerce.Order.Rows.{
  Tables, has_id, first_order, status_message, enqueue, mark_event, update_status, start_saga,
  transition_saga, with_error,
}

-- The calls of other services.
pub data Remote : Type 0 where
  reserve_stock : ℕ → List (ℕ × ℤ) → Remote
  release_stock : ℕ → Remote
  refund_payment : ℕ → Remote

abbrev pub Step : Type 0 → Type 0
Step A = Action Tables Remote A

-- `isTerminal`
unfoldable pub is_terminal : Status → Bool
is_terminal confirmed = true
is_terminal Status.payment_failed = true
is_terminal cancelled = true
is_terminal _ = false

-- `GetByID`: the order, then its items.
unfoldable pub get_by_id : ℕ → Step Order
get_by_id id = Actions.◌>>=◌ (select (λ t. first_order id (where_rows (has_id id) t.orders))) (λ o.
    Actions.◌>>=◌ (select (λ t. ok o.items)) (λ items. Actions.return (record o { items = items })))

-- `applyTransition`
unfoldable pub apply_transition :
    Order → (Order → Result Order) → EventType → Prog Tables (Unit {0})
apply_transition o step kind = do
  q ← done (step o)
  update_status q.id q.status o.version
  enqueue (status_message kind q)

-- The writes of `MarkPendingPayment`.
unfoldable pub pending_body : Order → Prog Tables (Unit {0})
pending_body o = do
  start_saga o.id
  transition_saga o.id stock_reserved
  apply_transition o mark_pending order_ready_for_payment
  transition_saga o.id awaiting_payment

-- The writes of `ConfirmPayment`.
unfoldable pub confirm_body : Order → Prog Tables (Unit {0})
confirm_body o = do
  transition_saga o.id paid
  apply_transition o confirm order_confirmed
  transition_saga o.id completed

-- The last writes of `FailPayment` and of `FailAfterPayment`.
unfoldable pub compensate_body : Order → (Order → Result Order) → Prog Tables (Unit {0})
compensate_body o step = do
  apply_transition o step order_cancelled
  transition_saga o.id compensated

-- `markCompensating`, in its own transaction
unfoldable pub mark_compensating : ℕ → Step (Unit {0})
mark_compensating id = in_tx (transition_saga id compensating)

-- `MarkPendingPayment`, in a transaction of the caller that wrote `writes`
unfoldable pub mark_pending_payment : (Tables → Tables) → ℕ → Step (Unit {0})
mark_pending_payment writes id =
    Actions.◌>>=◌ (beside writes (get_by_id id)) (λ o. exec (pending_body o))

-- `MarkPendingPaymentAfterCreate`
unfoldable pub mark_pending_after_create : ℕ → Step (Unit {0})
mark_pending_after_create id = in_session (mark_pending_payment (λ t. t) id)

-- `ConfirmPayment`
unfoldable pub confirm_payment : (Tables → Tables) → ℕ → Step (Unit {0})
confirm_payment writes id =
    Actions.◌>>=◌ (beside writes (get_by_id id))
      (λ o. if is_terminal o.status then Actions.return tt else exec (confirm_body o))

-- What the consumer's transaction has written when it reacts.
abbrev pub marked : ℕ → Tables → Tables
marked event_id t = record t { processed = mark_processed event_id t.processed }

module _ (replied : Remote → ℕ → Result (Unit {0})) where
  unfoldable pub call_remote : Remote → Step (Unit {0})
  call_remote r w = (replied r w.clock, Actions.log_call r w)

  abbrev pub noted :
      (Tables → Tables)
      → ℕ
      → Result (Unit {0}) × World Tables Remote
      → Result (Unit {0}) × World Tables Remote
  noted writes id (ok a, w) = (ok a, w)
  noted writes id (err e, w) = (err e, (beside writes (execute (with_error id)) w).1)

  -- A compensating call; its failure is recorded outside the transaction, if it can be.
  unfoldable pub compensate_by : (Tables → Tables) → ℕ → Remote → Step (Unit {0})
  compensate_by writes id r w = noted writes id (call_remote r w)

  -- `FailPayment`
  unfoldable pub fail_payment : (Tables → Tables) → ℕ → Step (Unit {0})
  fail_payment writes id = Actions.◌>>=◌ (beside writes (get_by_id id)) (λ o.
      if is_terminal o.status
      then Actions.return tt
      else Actions.◌>>=◌ (beside writes (mark_compensating id)) (λ _.
        Actions.◌>>=◌ (compensate_by writes id (release_stock id))
          (λ _. exec (compensate_body o fail_order))))

  -- `FailAfterPayment`
  unfoldable pub fail_after_payment : (Tables → Tables) → ℕ → ℕ → Step (Unit {0})
  fail_after_payment writes id payment = Actions.◌>>=◌ (beside writes (get_by_id id)) (λ o.
      if is_terminal o.status
      then Actions.return tt
      else Actions.◌>>=◌ (beside writes (mark_compensating id)) (λ _.
        Actions.◌>>=◌ (compensate_by writes id (refund_payment payment)) (λ _.
          Actions.◌>>=◌ (compensate_by writes id (release_stock id))
            (λ _. exec (compensate_body o cancel_order)))))

  unfoldable pub react : EventType → ℕ → ℕ → Step (Unit {0})
  react payment_processed event_id order = confirm_payment (marked event_id) order
  react payment_failed event_id order = fail_payment (marked event_id) order
  react _ event_id order = Actions.return tt

  unfoldable pub handle_marked : EventType → ℕ → ℕ → Step (Unit {0})
  handle_marked kind event_id order =
      Actions.◌>>=◌ (exec (mark_event event_id))
        (λ fresh. if fresh then react kind event_id order else Actions.return tt)

  abbrev pub with_order : EventType → ℕ → Option ℕ → Step (Unit {0})
  with_order kind event_id none = Actions.return tt
  with_order kind event_id (some order) = in_session (handle_marked kind event_id order)

  -- `PaymentsConsumer.handle`, with `none` where `orderIDFromEvent` returns an error
  unfoldable pub handle_payment : EventType → ℕ → Option ℕ → Step (Unit {0})
  handle_payment payment_processed event_id order = with_order payment_processed event_id order
  handle_payment payment_failed event_id order = with_order payment_failed event_id order
  handle_payment _ event_id order = Actions.return tt
