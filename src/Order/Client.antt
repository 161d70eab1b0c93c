-- ===== src/Order/Client.antt =====
-- services/order/internal/client/inventory.go and services/order/internal/client/payment.go. The
-- other service and the network are a parameter: how each request comes back, by the number of
-- requests made before it. Bodies of requests are typed by the structs that the code marshals.
pub mod Release
use Prim.Native.String.{String}
use eventflow_commerce.Common.{
  ℕ, Bool, true, false, not, ◌&&◌, Option, none, some, List, [], ◌∷◌, ◌++◌, map, length, leb, ltb,
  if◌then◌else◌,
}
use eventflow_commerce.Common.Int.{ℤ, pos}
use eventflow_commerce.Errors.{
  Error, Result, ok, err, http_code, reported, breaker_open, remote, is_app_error,
}
use eventflow_commerce.Resilience.{RetryConfig, Runtime, Breaker, Call, retry, execute}
use eventflow_commerce.Order.Domain.{is_empty}

-- `ReserveItem`
pub record ReserveLine : Type 0 where
  pub line_product : ℕ
  pub line_quantity : ℤ

pub data Request : Type 0 where
  post_reservation : ℕ → List ReserveLine → Request
  delete_reservation : ℕ → Request
  post_refund : ℕ → String → Request

-- How a request comes back: it cannot be built, it times out, the connection fails, or there is a
-- response with a status and the code of its body, `none` where the body does not decode.
pub data Exchange : Type 0 where
  not_built timed_out unreachable : Exchange
  responded : ℕ → Option String → Exchange

-- The requests that the client set out to make, the latest last, each with how it came back.
pub record Link : Type 0 where
  pub exchanges : List (Request × Exchange)
  pub comes_back : ℕ → Exchange

abbrev pub next_exchange : Link → Exchange
next_exchange l = l.comes_back (length l.exchanges)

abbrev pub made : Request → Link → Link
made r l = record l { exchanges = l.exchanges ++ (r, next_exchange l) ∷ [] }

abbrev pub is_success : ℕ → Bool
is_success status = leb 200 status && ltb status 300

-- `errorFromResponse`
unfoldable pub error_from_response : ℕ → Option String → Error
error_from_response status none = reported "INVENTORY_ERROR" status
error_from_response status (some text) =
    if is_empty text then reported "INVENTORY_ERROR" status else reported text status

-- `transportError`, for a timeout or not
unfoldable pub transport_error : Bool → Error
transport_error true = reported "INVENTORY_SERVICE_TIMEOUT" 504
transport_error false = reported "INVENTORY_SERVICE_UNAVAILABLE" 503

abbrev pub outcome_of : (Bool → Error) → (ℕ → Option String → Error) → Exchange → Result (Unit {0})
outcome_of transport response not_built = err remote
outcome_of transport response timed_out = err (transport true)
outcome_of transport response unreachable = err (transport false)
outcome_of transport response (responded status body) =
    if is_success status then ok tt else err (response status body)

-- `InventoryClient.do`
unfoldable pub do_inventory : Request → Call Link
do_inventory r l = (outcome_of transport_error error_from_response (next_exchange l), made r l)

-- `isRetryableInventoryError`
unfoldable pub is_retryable_inventory_error : Error → Bool
is_retryable_inventory_error breaker_open = false
is_retryable_inventory_error e = is_app_error e && leb 500 (http_code e)

-- `wrapBreakerOpen`
unfoldable pub wrap_breaker_open : Result (Unit {0}) → String → Result (Unit {0})
wrap_breaker_open (err breaker_open) text = err (reported text 503)
wrap_breaker_open r text = r

abbrev pub wrapped {ℓ} : {W : Type ℓ} → String → Result (Unit {0}) × W → Result (Unit {0}) × W
wrapped text (r, w) = (wrap_breaker_open r text, w)

-- The settings of a retried call.
abbrev pub retry_config : (Error → Bool) → RetryConfig
retry_config retryable = record {
  max_attempts = pos 3;
  base_delay = pos 50000000;
  max_delay = pos 500000000;
  retryable = some retryable;
}

module _ {B : Type 0} (breaker : Breaker B Link) where
  -- `InventoryClient.Reserve`
  unfoldable pub reserve_remote : ℕ → List ReserveLine → Call (B × Link)
  reserve_remote order items w =
      wrapped "INVENTORY_SERVICE_UNAVAILABLE"
        (execute breaker (do_inventory (post_reservation order items)) w)

  -- `InventoryClient.Release`
  unfoldable pub release_remote : Runtime (B × Link) → ℕ → Call (B × Link)
  release_remote time order w = wrapped "INVENTORY_SERVICE_UNAVAILABLE" (
      retry time (retry_config is_retryable_inventory_error)
        (execute breaker (do_inventory (delete_reservation order))) w)

-- `paymentTransportError`
unfoldable pub payment_transport_error : Bool → Error
payment_transport_error true = reported "PAYMENT_SERVICE_TIMEOUT" 504
payment_transport_error false = reported "PAYMENT_SERVICE_UNAVAILABLE" 503

-- `paymentErrorFromResponse`
unfoldable pub payment_error_from_response : ℕ → Option String → Error
payment_error_from_response status none = reported "PAYMENT_ERROR" status
payment_error_from_response status (some text) =
    if is_empty text then reported "PAYMENT_ERROR" status else reported text status

-- `doRefund`
unfoldable pub do_refund : ℕ → String → Call Link
do_refund payment reason l = (
  outcome_of payment_transport_error payment_error_from_response (next_exchange l),
  made (post_refund payment reason) l,
)

-- `isRetryablePaymentError`
unfoldable pub is_retryable_payment_error : Error → Bool
is_retryable_payment_error breaker_open = false
is_retryable_payment_error e = is_app_error e && leb 500 (http_code e)

module _ {B : Type 0} (breaker : Breaker B Link) where
  -- `PaymentClient.Refund`
  unfoldable pub refund_remote : Runtime (B × Link) → ℕ → String → Call (B × Link)
  refund_remote time payment reason w = wrapped "PAYMENT_SERVICE_UNAVAILABLE" (
      retry time (retry_config is_retryable_payment_error)
        (execute breaker (do_refund payment reason)) w)
