-- ===== src/Payment/Service.antt =====
-- services/payment/internal/gateway/client.go, services/payment/internal/service/payment.go and
-- services/payment/internal/consumer/orders.go. The stub gateway's breaker is
-- github.com/sony/gobreaker: whether it lets a call through is a parameter, by the number of
-- calls of the server made so far.
pub mod Charging
use Prim.Native.String.{String}
use Prim.Native.String.{◌++◌ as str_append}
use eventflow_commerce.Common.{ℕ, Bool, true, false, ◌||◌, Option, none, some, if◌then◌else◌}
use eventflow_commerce.Common.Int.{ℤ, pos, leb_ℤ, ltb_ℤ}
use eventflow_commerce.Errors.{Error, Result, ok, err}
use eventflow_commerce.Database.{Prog, ◌>>◌, sql, pure, World, Action, in_tx, select}
use eventflow_commerce.Database.Actions
use eventflow_commerce.Messaging.Outbox.{EventType, order_ready_for_payment}
use eventflow_commerce.Messaging.Processed.{was_processed, mark_processed}
use eventflow_commerce.Payment.Aggregate.{Payment, initiate, process, fail, refund}
use eventflow_commerce.Payment.Codec.{UuidText}
use eventflow_commerce.Payment.Store.Tables.{Tables}
use eventflow_commerce.Payment.Store.Repository.{load, save, find_by_order_id}

-- `ChargeRequest`
pub record Charge : Type 0 where
  pub payment : ℕ
  pub amount : ℤ
  pub charge_currency : String

-- `Result` of the gateway: approved with a transaction, or declined with a code.
pub data Verdict : Type 0 where
  approved declined : String → Verdict

-- A message as the consumer reads it; `request` is `none` where `paymentRequestFromEvent` returns
-- an error.
pub record PaymentRequest : Type 0 where
  pub request_order : ℕ
  pub request_customer : ℕ
  pub request_amount : ℤ
  pub request_currency : String

pub record ReadyEvent : Type 0 where
  pub event_id : ℕ
  pub event_type : EventType
  pub request : Option PaymentRequest

abbrev pub charge_of : Payment → Charge
charge_of p = record { payment = p.id; amount = p.amount_cents; charge_currency = p.currency }

abbrev pub Step : Type 0 → Type 0
Step A = Action Tables Charge A

abbrev pub is_payment_failed : Error → Bool
is_payment_failed (Error.payment_failed _) = true
is_payment_failed _ = false

-- `WasProcessed`
unfoldable pub was_handled : ℕ → Step Bool
was_handled event_id = select (λ t. ok (was_processed event_id t.processed))

-- The transaction that marks the event.
unfoldable pub mark_handled : ℕ → Step (Unit {0})
mark_handled event_id = in_tx (
    sql (λ t. ok tt) (λ t. record t { processed = mark_processed event_id t.processed }) >> pure tt)

module _ (u : UuidText) (max_amount : ℤ) where
  -- `charge`
  unfoldable pub verdict : Charge → Verdict
  verdict c =
      if leb_ℤ c.amount (pos 0) || ltb_ℤ max_amount c.amount
      then declined "insufficient_funds"
      else approved (str_append "stub_" (u.render c.payment))

-- The gateway: its limit, and what its breaker admits.
module _ (u : UuidText) (max_amount : ℤ) (admits : ℕ → Bool) where
  -- `Charge`; a request that the breaker lets through reaches the gateway.
  unfoldable pub charge : Charge → Step Verdict
  charge c w =
      if admits w.clock
      then (ok (verdict u max_amount c), Actions.log_call c w)
      else (ok (declined "gateway_unavailable"), w)

  abbrev pub record_verdict : Verdict → Payment → Result Payment
  record_verdict (approved transaction) p = process transaction p
  record_verdict (declined reason) p = fail reason p

  abbrev pub report : Verdict → Payment → Result Payment
  report (approved _) p = ok p
  report (declined reason) p = err (Error.payment_failed reason)

  -- The part of `ProcessPayment` behind `Initiate`.
  unfoldable pub charge_and_save : Payment → Step Payment
  charge_and_save p = Actions.◌>>=◌ (charge (charge_of p)) (λ v.
      Actions.◌>>=◌ (Actions.lift (record_verdict v p))
        (λ q. Actions.◌>>=◌ (save u q) (λ saved. Actions.lift (report v saved))))

  abbrev pub on_existing : ℕ → PaymentRequest → Option Payment → Step Payment
  on_existing fresh r (some p) = Actions.return p
  on_existing fresh r none =
      Actions.◌>>=◌
        (Actions.lift
          (initiate fresh r.request_order r.request_customer r.request_amount r.request_currency))
        charge_and_save

  -- `ProcessPayment`, with the identifier that `uuid.New` returns.
  unfoldable pub process_payment : ℕ → PaymentRequest → Step Payment
  process_payment fresh r = Actions.◌>>=◌ (find_by_order_id u r.request_order) (on_existing fresh r)

  -- `RefundPayment`
  unfoldable pub refund_payment : ℕ → String → Step Payment
  refund_payment id reason =
      Actions.◌>>=◌ (load u id) (λ p. Actions.◌>>=◌ (Actions.lift (refund reason p)) (save u))

  -- A decline is an outcome; any other error is returned, so that the message comes again.
  abbrev pub unless_declined :
      Result Payment × World Tables Charge → Result (Unit {0}) × World Tables Charge
  unless_declined (ok p, w) = (ok tt, w)
  unless_declined (err e, w) = if is_payment_failed e then (ok tt, w) else (err e, w)

  abbrev pub handle_new : ℕ → ReadyEvent → PaymentRequest → Bool → Step (Unit {0})
  handle_new fresh e r true = Actions.return tt
  handle_new fresh e r false =
      Actions.◌>>=◌ (λ w. unless_declined (process_payment fresh r w))
        (λ _. mark_handled e.event_id)

  abbrev pub handle_request : ℕ → ReadyEvent → Option PaymentRequest → Step (Unit {0})
  handle_request fresh e none = Actions.return tt
  handle_request fresh e (some r) = Actions.◌>>=◌ (was_handled e.event_id) (handle_new fresh e r)

  abbrev pub handle_typed : ℕ → ReadyEvent → EventType → Step (Unit {0})
  handle_typed fresh e order_ready_for_payment = handle_request fresh e e.request
  handle_typed fresh e _ = Actions.return tt

  -- `OrdersConsumer.handle`
  unfoldable pub handle_ready : ℕ → ReadyEvent → Step (Unit {0})
  handle_ready fresh e = handle_typed fresh e e.event_type
