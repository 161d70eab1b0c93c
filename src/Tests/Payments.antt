-- ===== src/Tests/Payments.antt =====
-- Concrete runs of the payment service. Identifiers are written in unary.
use eventflow_commerce.Payment.Handler.{events_listed, list_events}
use eventflow_commerce.Payment.Handler.Audit.{list_events_lem}
use eventflow_commerce.Database.{tick}
use eventflow_commerce.Common.{map}
use eventflow_commerce.Payment.Store.Projection.{snapshot_if_due}
use eventflow_commerce.Payment.Store.Projection.{enqueue}
use eventflow_commerce.Payment.Store.Projection.{enqueue_all}
use eventflow_commerce.Payment.Store.Projection.{project}
use eventflow_commerce.Payment.Store.Projection.{project_all}
use eventflow_commerce.Payment.Store.Tables.{insert_event}
use eventflow_commerce.Payment.Store.Repository.{save_body}
use eventflow_commerce.Payment.Aggregate.{apply}
use Prim.Native.String.{String}
use eventflow_commerce.Common.{ℕ, zero, suc, ◌≡◌, ◌≢◌, refl, ap, true, some, List, [], ◌∷◌, arith}
use eventflow_commerce.Common.Int.{pos}
use eventflow_commerce.Errors.{ok, err, conflict, driver, begin_transaction}
use eventflow_commerce.Database.{World, Reply, answers, fails, in_tx}
use eventflow_commerce.Payment.Aggregate.{
  Payment, Event, initiated, completed, payment_initiated, payment_processed, initiate, process,
  replay, blank, clear_pending,
}
use eventflow_commerce.Payment.Aggregate.Lifecycle.{
  Command, process_it, refund_it, fail_it, execute, Moved, execute-Moved, attempt, attempt-replay,
}
use eventflow_commerce.Payment.Codec.{
  UuidText, event_type, marshal_event, unmarshal_event, unmarshal_event-marshal_event,
}
use eventflow_commerce.Payment.Store.Tables.{Tables, append, event_row, find_aggregate}
use eventflow_commerce.Payment.Store.Repository.{save, load_rows, found}
use eventflow_commerce.Payment.Store.Streams.{HasHistory}
use eventflow_commerce.Payment.Store.Snapshots.{payment_of, HasFaithful, load_rows_lem}
use eventflow_commerce.Payment.Store.Saving.{Stands, save-load}
use eventflow_commerce.Payment.Store.Conflict.{save_stale}
use eventflow_commerce.Payment.Service.{
  Charge, PaymentRequest, process_payment, charge_of, verdict, approved,
}
use eventflow_commerce.Payment.Service.Charging.{process_payment_known, charge_unrecorded}

abbrev strokes : ℕ → String
strokes zero = ""
strokes (suc n) = String.◌∷◌ "i" (strokes n)

abbrev count : String → ℕ
count String.[] = 0
count (String.◌∷◌ c s) = suc (count s)

count-strokes : (n : ℕ) → count (strokes n) ≡ n
count-strokes zero = refl
count-strokes (suc n) = ap suc (count-strokes n)

abbrev unary : UuidText
unary = record {
  render = strokes;
  parse = λ s. some (count s);
  parse-render = λ n. ap some (count-strokes n);
}

abbrev first_event : Event
first_event = payment_initiated 1 2 3 (pos 50) "USD"

abbrev started : Payment
started = record {
  id = 1;
  order_id = 2;
  customer_id = 3;
  amount_cents = pos 50;
  currency = "USD";
  status = initiated;
  version = 1;
  pending_events = first_event ∷ [];
}

abbrev empty : Tables
empty = record { events = []; snapshots = []; statuses = []; outbox = []; processed = [] }

abbrev idle : World Tables Charge
idle = record { committed = empty; view = empty; calls = []; clock = 0; replies = λ _. answers }

abbrev order_two : PaymentRequest
order_two = record {
  request_order = 2;
  request_customer = 3;
  request_amount = pos 50;
  request_currency = "USD";
}

initiated_ok : initiate 1 2 3 (pos 50) "USD" ≡ ok started
unfolding initiate
initiated_ok = refl

abbrev captured : Payment
captured = record {
  id = 1;
  order_id = 2;
  customer_id = 3;
  amount_cents = pos 50;
  currency = "USD";
  status = completed;
  version = 2;
  pending_events = first_event ∷ payment_processed 1 "t" ∷ [];
}

abbrev commands : List Command
commands = process_it "t" ∷ fail_it "late" ∷ refund_it "r" ∷ []

abbrev stored : Tables
stored = record empty { events = event_row unary 1 1 first_event ∷ [] }

abbrev standing : World Tables Charge
standing = record idle { committed = stored; view = stored }

stored-HasHistory : HasHistory unary 1 (first_event ∷ []) stored
stored-HasHistory = refl

-- The first call of the server is answered, and no other.
abbrev first_only : ℕ → Reply
first_only zero = answers
first_only (suc n) = fails

execute-Moved_example : Moved started captured
unfolding execute
execute-Moved_example = execute-Moved (process_it "t") started captured refl

attempt-replay_example :
    replay (attempt commands started).pending_events blank ≡ attempt commands started
attempt-replay_example = attempt-replay 1 2 3 (pos 50) "USD" started commands initiated_ok

unmarshal_event-marshal_event_example :
    unmarshal_event unary (event_type first_event) (marshal_event unary first_event)
    ≡ ok first_event
unmarshal_event-marshal_event_example = unmarshal_event-marshal_event unary first_event

-- A payment that was captured, with a snapshot of its first version.
abbrev with_snapshot : Tables
with_snapshot = record empty {
  events = event_row unary 1 1 first_event ∷ event_row unary 1 2 (payment_processed 1 "t") ∷ [];
  snapshots =
      record { snapshot_of = 1; snapshot_version = 1; snapshot = clear_pending started } ∷ [];
}

with_snapshot-HasHistory :
    HasHistory unary 1 (first_event ∷ payment_processed 1 "t" ∷ []) with_snapshot
with_snapshot-HasHistory = refl

with_snapshot-HasFaithful : HasFaithful 1 (first_event ∷ payment_processed 1 "t" ∷ []) with_snapshot
unfolding replay apply
with_snapshot-HasFaithful = (record { within = omega arith; as_replayed = refl }, tt)

load_rows_lem_example :
    load_rows unary 1 with_snapshot
    ≡ found (payment_of (first_event ∷ payment_processed 1 "t" ∷ []))
load_rows_lem_example =
    load_rows_lem unary 1 (first_event ∷ payment_processed 1 "t" ∷ []) with_snapshot
      with_snapshot-HasHistory with_snapshot-HasFaithful

started_replayed : clear_pending started ≡ payment_of (first_event ∷ [])
unfolding replay apply
started_replayed = refl

empty-Stands : Stands unary 1 [] empty
empty-Stands = record { stream = refl; faithful = tt }

save_ok : (save unary started idle).0 ≡ ok (clear_pending started)
unfolding save in_tx save_body append insert_event project_all project enqueue_all enqueue
    snapshot_if_due
save_ok = refl

save-load_example :
    Stands unary 1 (first_event ∷ []) (save unary started idle).1.committed
    × (load_rows unary 1 (save unary started idle).1.committed ≡ ok (clear_pending started))
save-load_example =
    save-load unary started [] idle refl started_replayed empty-Stands (clear_pending started)
      (omega arith) save_ok

save_stale_example :
    ((save unary started standing).0 ≡ err conflict)
    × ((save unary started standing).1.committed ≡ stored)
save_stale_example =
    save_stale unary started first_event [] (first_event ∷ []) standing refl stored-HasHistory
      (omega arith) (λ n. refl)

order_two_known : find_aggregate unary 2 stored ≢ 0
unfolding find_aggregate event_type marshal_event
order_two_known = omega arith

process_payment_known_example :
    ((process_payment unary (pos 100) (λ _. true) 9 order_two standing).1.calls ≡ [])
    × ((process_payment unary (pos 100) (λ _. true) 9 order_two standing).1.committed ≡ stored)
process_payment_known_example =
    process_payment_known unary (pos 100) (λ _. true) 9 order_two standing order_two_known

abbrev failing : World Tables Charge
failing = record idle { replies = first_only }

started_verdict : verdict unary (pos 100) (charge_of started) ≡ approved "stub_i"
unfolding verdict
started_verdict = refl

started_captured :
    process "stub_i" started
    ≡ ok (record captured { pending_events = first_event ∷ payment_processed 1 "stub_i" ∷ [] })
unfolding process
started_captured = refl

empty_unknown : find_aggregate unary 2 empty ≡ 0
unfolding find_aggregate
empty_unknown = refl

charge_unrecorded_example :
    ((process_payment unary (pos 100) (λ _. true) 1 order_two failing).0
      ≡ err (driver begin_transaction))
    × (((process_payment unary (pos 100) (λ _. true) 1 order_two failing).1.calls
          ≡ charge_of started ∷ [])
        × (find_aggregate unary 2
              (process_payment unary (pos 100) (λ _. true) 1 order_two failing).1.committed
            ≡ 0))
charge_unrecorded_example =
    charge_unrecorded unary (pos 100) (λ _. true) 1 order_two started
      (record captured { pending_events = first_event ∷ payment_processed 1 "stub_i" ∷ [] })
      "stub_i" failing empty_unknown initiated_ok started_verdict started_captured refl refl refl

list_events_lem_example : list_events unary (some 1) standing ≡ (
  events_listed (map (λ x. (event_type x, marshal_event unary x)) (first_event ∷ [])),
  tick standing,
)
list_events_lem_example = list_events_lem unary 1 first_event [] standing stored-HasHistory refl
