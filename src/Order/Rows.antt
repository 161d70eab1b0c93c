-- ===== src/Order/Rows.antt =====
-- The tables of the order service (services/order/migrations) and the SQL statements of
-- services/order/internal/repository.
use Prim.Native.String.{String}
use eventflow_commerce.Common.{
  ℕ, ◌+◌, Bool, true, false, ◌&&◌, List, [], ◌∷◌, ◌++◌, ◌==◌, where_rows, any_row, update_rows,
  if◌then◌else◌,
}
use eventflow_commerce.Common.Int.{ℤ}
use eventflow_commerce.Errors.{
  Result, ok, err, driver, statement, conflict, not_found, order_not_found,
}
use eventflow_commerce.Database.{Prog, done, pure, sql, query, ◌>>=◌}
use eventflow_commerce.Messaging.Outbox.{EventType, Message, OutboxRow, enqueue_row, orders_topic}
use eventflow_commerce.Messaging.Processed.{was_processed, mark_processed}
use eventflow_commerce.Order.Domain.{Status, Order}
use eventflow_commerce.Order.Saga.{State, started, can_transition, same_state}

-- `Saga`; the ids of the reservation and the payment are left out, since no code sets them.
pub record SagaRow : Type 0 where
  pub saga_order : ℕ
  pub state : State
  pub last_error : Bool

-- `orderStatusPayload`
pub record StatusPayload : Type 0 where
  pub payload_order : ℕ
  pub payload_customer : ℕ
  pub payload_status : Status
  pub payload_total : ℤ
  pub payload_currency : String

-- `orderCreatedItemPayload`
pub record CreatedItem : Type 0 where
  pub created_product : ℕ
  pub created_name : String
  pub created_sku : String
  pub created_quantity : ℤ
  pub created_unit_price : ℤ
  pub created_total : ℤ

-- `orderCreatedPayload`
pub record CreatedPayload : Type 0 where
  pub summary : StatusPayload
  pub created_items : List CreatedItem

-- What the order service puts into the outbox.
pub data OrderPayload : Type 0 where
  order_status : StatusPayload → OrderPayload
  order_contents : CreatedPayload → OrderPayload

-- An order stands in `orders` with the rows of `order_items` as its items.
pub record Tables : Type 0 where
  pub orders : List Order
  pub sagas : List SagaRow
  pub outbox : List (OutboxRow OrderPayload)
  pub processed : List ℕ

abbrev pub has_id : ℕ → Order → Bool
has_id id o = o.id == id

abbrev pub is_saga_of : ℕ → SagaRow → Bool
is_saga_of id s = s.saga_order == id

abbrev pub first_order : ℕ → List Order → Result Order
first_order id [] = err (order_not_found id)
first_order id (o ∷ rows) = ok o

-- `newOrderStatusPayload`
abbrev pub payload_of : Order → StatusPayload
payload_of o = record {
  payload_order = o.id;
  payload_customer = o.customer_id;
  payload_status = o.status;
  payload_total = o.total_amount_cents;
  payload_currency = o.currency;
}

-- The message of `applyTransition`
unfoldable pub status_message : EventType → Order → Message OrderPayload
status_message kind o = record {
  topic = orders_topic;
  event_type = kind;
  aggregate_id = o.id;
  payload = order_status (payload_of o);
}

unfoldable pub enqueue : Message OrderPayload → Prog Tables (Unit {0})
enqueue m = sql (λ t. ok tt) (λ t. record t { outbox = enqueue_row m t.outbox })

-- `MarkProcessed`: whether the event was not yet recorded.
unfoldable pub mark_event : ℕ → Prog Tables Bool
mark_event event_id =
    sql (λ t. ok (if was_processed event_id t.processed then false else true))
      (λ t. record t { processed = mark_processed event_id t.processed })

abbrev pub at_version : ℕ → ℕ → Order → Bool
at_version id expected o = o.id == id && o.version == expected

abbrev pub set_status : Status → Order → Order
set_status to o = record o { status = to; version = o.version + 1 }

-- `UpdateStatus`; an update that affects no row is a conflict.
unfoldable pub update_status : ℕ → Status → ℕ → Prog Tables (Unit {0})
update_status id to expected =
    sql (λ t. if any_row (at_version id expected) t.orders then ok tt else err conflict)
      (λ t. record t { orders = update_rows (at_version id expected) (set_status to) t.orders })

-- `Start`; the order is the key of order_sagas.
unfoldable pub start_saga : ℕ → Prog Tables (Unit {0})
start_saga id =
    sql (λ t. if any_row (is_saga_of id) t.sagas then err (driver statement) else ok tt)
      (λ t. if any_row (is_saga_of id) t.sagas then t else record t {
        sagas = t.sagas ++ record { saga_order = id; state = started; last_error = false } ∷ [];
      })

abbrev pub first_state : List SagaRow → Result State
first_state [] = err (not_found "order saga")
first_state (s ∷ rows) = ok s.state

-- `stateForUpdate`
unfoldable pub state_for_update : ℕ → Prog Tables State
state_for_update id = query (λ t. first_state (where_rows (is_saga_of id) t.sagas))

abbrev pub set_state : State → SagaRow → SagaRow
set_state to s = record s { state = to }

-- `UPDATE order_sagas SET state`
unfoldable pub update_state : ℕ → State → Prog Tables (Unit {0})
update_state id to =
    sql (λ t. ok tt) (λ t. record t { sagas = update_rows (is_saga_of id) (set_state to) t.sagas })

abbrev pub move_saga : ℕ → State → State → Prog Tables (Unit {0})
move_saga id to current =
    if can_transition current to
    then (if same_state current to then pure tt else update_state id to)
    else done (err conflict)

-- `SagaRepository.Transition`
unfoldable pub transition_saga : ℕ → State → Prog Tables (Unit {0})
transition_saga id to = state_for_update id >>= move_saga id to

abbrev pub note_error : SagaRow → SagaRow
note_error s = record s { last_error = true }

-- The rows after `SetLastError`
abbrev pub with_error : ℕ → Tables → Tables
with_error id t = record t { sagas = update_rows (is_saga_of id) note_error t.sagas }
