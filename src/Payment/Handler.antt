-- ===== src/Payment/Handler.antt =====
-- services/payment/internal/handler/payments.go and services/payment/internal/repository/
-- payment_status.go. A request is what the handler reads of it; identifiers come parsed.
pub mod Audit
use Prim.Native.String.{String}
use eventflow_commerce.Common.{
  ℕ, ◌==◌, Bool, Option, none, some, List, [], ◌∷◌, ◌++◌, map, where_rows, if◌then◌else◌,
}
use eventflow_commerce.Common.Int.{ℤ}
use eventflow_commerce.Errors.{
  Error, Result, ok, err, code, http_code, is_app_error, unauthorized, bad_request, validation,
  not_found, internal,
}
use eventflow_commerce.Database.{World, select}
use eventflow_commerce.Database.Actions.{◌>>=◌, lift, return}
use eventflow_commerce.Messaging.Outbox.{EventType}
use eventflow_commerce.Order.Domain.{is_empty}
use eventflow_commerce.Order.Handler.{Raw, absent, unreadable, read}
use eventflow_commerce.Payment.Aggregate.{Payment, Event}
use eventflow_commerce.Payment.Codec.{UuidText, Object, event_type, marshal_event}
use eventflow_commerce.Payment.Store.Tables.{Tables, StatusRow, events_after}
use eventflow_commerce.Payment.Service.{
  Charge, Step, PaymentRequest, process_payment, refund_payment,
}

-- `processPaymentRequest`
pub record ProcessPaymentRequest : Type 0 where
  pub posted_order : Option ℕ
  pub posted_amount : ℤ
  pub posted_currency : String

-- The responses of the handler, each with its data, or an error by its status and its code.
pub data PaymentResponse : Type 0 where
  payment_created payment_shown : Payment → PaymentResponse
  status_shown : StatusRow → PaymentResponse
  statuses_listed : List StatusRow → PaymentResponse
  events_listed : List (EventType × Object) → PaymentResponse
  payment_refused : ℕ → String → PaymentResponse

-- `writeError`
unfoldable pub write_error : Error → PaymentResponse
write_error e =
    let shown = if is_app_error e then e else internal in
    payment_refused (http_code shown) (code shown)

abbrev pub respond {ℓ} :
    {A : Type ℓ} {W : Type 0} → (A → PaymentResponse) → Result A × W → PaymentResponse × W
respond f (ok a, w) = (f a, w)
respond f (err e, w) = (write_error e, w)

-- `customerIDFromHeader`
unfoldable pub customer_id_from_header : Raw ℕ → Result ℕ
customer_id_from_header absent = err (unauthorized "X-User-ID header is required")
customer_id_from_header unreadable = err (unauthorized "X-User-ID header must be a valid uuid")
customer_id_from_header (read id) = ok id

abbrev pub or_usd : String → String
or_usd cur = if is_empty cur then "USD" else cur

abbrev pub posted_request : ℕ → Option ProcessPaymentRequest → Result PaymentRequest
posted_request customer none = err (bad_request "invalid request body")
posted_request customer (some r) = elim r.posted_order [
  | none ↦ err (validation "order_id")
  | some order ↦ ok (record {
    request_order = order;
    request_customer = customer;
    request_amount = r.posted_amount;
    request_currency = or_usd r.posted_currency;
  })
]

abbrev pub path_id : Option ℕ → Result ℕ
path_id none = err (bad_request "invalid payment id")
path_id (some id) = ok id

-- The body of a refund: none, one that does not decode, or its reason.
abbrev pub refund_reason : Raw String → Result String
refund_reason absent = ok "customer_request"
refund_reason unreadable = err (bad_request "invalid request body")
refund_reason (read text) = ok (if is_empty text then "customer_request" else text)

module _ (u : UuidText) (max_amount : ℤ) (admits : ℕ → Bool) where
  -- `Process`, with the identifier that `uuid.New` returns
  unfoldable pub post_payment :
      ℕ
      → Raw ℕ
      → Option ProcessPaymentRequest
      → World Tables Charge
      → PaymentResponse × World Tables Charge
  post_payment fresh user body w = respond payment_created (
      (do
        customer ← lift (customer_id_from_header user)
        request ← lift (posted_request customer body)
        process_payment u max_amount admits fresh request)
        w)

  -- `Refund`
  unfoldable pub post_refund :
      Option ℕ → Raw String → World Tables Charge → PaymentResponse × World Tables Charge
  post_refund path body w = respond payment_shown (
      (do
        id ← lift (path_id path)
        reason ← lift (refund_reason body)
        refund_payment u max_amount admits id reason)
        w)

abbrev pub first_status : List StatusRow → Result StatusRow
first_status [] = err (not_found "payment")
first_status (r ∷ rows) = ok r

-- `PaymentStatusRepository.GetByID`
unfoldable pub get_status : ℕ → Step StatusRow
get_status id = select (λ t. first_status (where_rows (λ r. r.status_id == id) t.statuses))

abbrev pub latest_status_first : List StatusRow → List StatusRow
latest_status_first [] = []
latest_status_first (r ∷ rows) = latest_status_first rows ++ r ∷ []

-- `ListByOrderID`: rows stand in the order of `created_at`.
unfoldable pub list_by_order_id : ℕ → Step (List StatusRow)
list_by_order_id order =
    select (λ t. ok (latest_status_first (where_rows (λ r. r.status_order == order) t.statuses)))

-- `Get`
unfoldable pub get_payment : Option ℕ → World Tables Charge → PaymentResponse × World Tables Charge
get_payment path w = respond status_shown ((do id ← lift (path_id path); get_status id) w)

abbrev pub queried_order : Raw ℕ → Result ℕ
queried_order (read id) = ok id
queried_order _ = err (validation "order_id")

-- `List`
unfoldable pub list_payments : Raw ℕ → World Tables Charge → PaymentResponse × World Tables Charge
list_payments query w =
    respond statuses_listed ((do order ← lift (queried_order query); list_by_order_id order) w)

abbrev pub recorded : List Event → Result (List Event)
recorded [] = err (not_found "payment")
recorded (e ∷ events) = ok (e ∷ events)

-- `Events`
unfoldable pub list_events :
    UuidText → Option ℕ → World Tables Charge → PaymentResponse × World Tables Charge
list_events u path w = respond events_listed (
    (do
      id ← lift (path_id path)
      history ← select (events_after u id 0)
      events ← lift (recorded history)
      return (map (λ e. (event_type e, marshal_event u e)) events))
      w)
