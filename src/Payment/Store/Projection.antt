-- ===== src/Payment/Store/Projection.antt =====
-- services/payment/internal/projection/payment_status.go, the snapshot statement of snapshot.go and
-- the outbox payload of services/payment/internal/eventstore/repository.go.
use Prim.Native.String.{String}
use eventflow_commerce.Common.{
  ℕ, ◌%◌, Bool, true, false, ◌&&◌, ◌||◌, not, Option, none, some, List, [], ◌∷◌, ◌==◌, leb, any_row,
  update_rows, if◌then◌else◌,
}
use eventflow_commerce.Common.Int.{pos, leb_ℤ}
use eventflow_commerce.Errors.{ok, err, driver, statement}
use eventflow_commerce.Database.{Prog, pure, sql, ◌>>◌}
use eventflow_commerce.Messaging.Outbox.{Message, enqueue_row, payments_topic}
use eventflow_commerce.Order.Orders.{text_length}
use eventflow_commerce.Payment.Aggregate.{
  Status, unset, Event, Payment, payment_processed, payment_failed, payment_refunded,
  payment_cancelled, clear_pending,
}
use eventflow_commerce.Payment.Codec.{event_type}
use eventflow_commerce.Payment.Store.Tables.{
  SnapshotRow, StatusRow, PaymentPayload, Tables, snapshot_threshold,
}

abbrev transaction_of : Event → Option String
transaction_of (payment_processed _ t) = some t
transaction_of _ = none

abbrev or_else : {A : Type 0} → Option A → Option A → Option A
or_else none y = y
or_else (some x) y = some x

abbrev is_some : {A : Type 0} → Option A → Bool
is_some none = false
is_some (some _) = true

abbrev is_status_of : ℕ → StatusRow → Bool
is_status_of id r = r.status_id == id

abbrev new_status : Payment → Event → StatusRow
new_status p e = record {
  status_id = p.id;
  status_customer = p.customer_id;
  status_order = p.order_id;
  status_amount = p.amount_cents;
  status_currency = p.currency;
  status_text = p.status;
  status_transaction = transaction_of e;
  completed = is_some (transaction_of e);
  status_version = p.version;
}

abbrev advance_status : Payment → Event → StatusRow → StatusRow
advance_status p e r = record r {
  status_text = p.status;
  status_transaction = or_else (transaction_of e) r.status_transaction;
  completed = is_some (transaction_of e) || r.completed;
  status_version = p.version;
}

abbrev pub upserted : Payment → Event → List StatusRow → List StatusRow
upserted p e rows =
    if any_row (is_status_of p.id) rows
    then update_rows (is_status_of p.id) (advance_status p e) rows
    else new_status p e ∷ rows

abbrev is_unset : Status → Bool
is_unset unset = true
is_unset _ = false

-- The checks on payment_status: a known status, an amount that is not negative, a currency of at most
-- three characters.
abbrev pub projectable : Payment → Bool
projectable p =
    not (is_unset p.status) && leb_ℤ (pos 0) p.amount_cents && leb (text_length p.currency) 3

-- The width of the column of transaction ids.
abbrev fits_transaction : Option String → Bool
fits_transaction none = true
fits_transaction (some t) = leb (text_length t) 255

-- What an upsert for this event may write.
abbrev pub upsertable : Payment → Event → Bool
upsertable p e = projectable p && fits_transaction (transaction_of e)

-- `PaymentStatus.Apply`
unfoldable pub project : Payment → Event → Prog Tables (Unit {0})
project p e =
    sql (λ t. if upsertable p e then ok tt else err (driver statement))
      (λ t. if upsertable p e then record t { statuses = upserted p e t.statuses } else t)

unfoldable pub project_all : Payment → List Event → Prog Tables (Unit {0})
project_all p [] = pure tt
project_all p (e ∷ rest) = project p e >> project_all p rest

abbrev reason_of : Event → String
reason_of (payment_failed _ r) = r
reason_of (payment_refunded _ _ r) = r
reason_of (payment_cancelled _ r) = r
reason_of _ = ""

abbrev text_or_empty : Option String → String
text_or_empty none = ""
text_or_empty (some s) = s

-- `newOutboxPayload`, in the message that `Save` enqueues for it
unfoldable pub payment_message : Payment → Event → Message PaymentPayload
payment_message p e = record {
  topic = payments_topic;
  event_type = event_type e;
  aggregate_id = p.id;
  payload = record {
    payload_payment = p.id;
    payload_order = p.order_id;
    payload_customer = p.customer_id;
    payload_amount = p.amount_cents;
    payload_currency = p.currency;
    payload_status = p.status;
    payload_transaction = text_or_empty (transaction_of e);
    payload_reason = reason_of e;
  };
}

unfoldable pub enqueue : Message PaymentPayload → Prog Tables (Unit {0})
enqueue m = sql (λ t. ok tt) (λ t. record t { outbox = enqueue_row m t.outbox })

unfoldable pub enqueue_all : Payment → List Event → Prog Tables (Unit {0})
enqueue_all p [] = pure tt
enqueue_all p (e ∷ rest) = enqueue (payment_message p e) >> enqueue_all p rest

abbrev pub snapshot_row : Payment → SnapshotRow
snapshot_row p = record {
  snapshot_of = p.id;
  snapshot_version = p.version;
  snapshot = clear_pending p;
}

abbrev pub same_snapshot : Payment → SnapshotRow → Bool
same_snapshot p r = r.snapshot_of == p.id && r.snapshot_version == p.version

-- `SaveSnapshot`; the table is unique on the aggregate and the version.
unfoldable pub save_snapshot : Payment → Prog Tables (Unit {0})
save_snapshot p =
    sql (λ t. if any_row (same_snapshot p) t.snapshots then err (driver statement) else ok tt)
      (λ t.
        if any_row (same_snapshot p) t.snapshots
        then t
        else record t { snapshots = snapshot_row p ∷ t.snapshots })

unfoldable pub snapshot_if_due : Payment → Prog Tables (Unit {0})
snapshot_if_due p = if p.version % snapshot_threshold == 0 then save_snapshot p else pure tt
