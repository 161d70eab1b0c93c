-- ===== src/Gateway/Proxy.antt =====
-- services/api-gateway/internal/handler/router.go: the proxy behind a circuit breaker, the
-- correlation id, the errors of the proxy and the readiness check. httputil.ReverseProxy and the
-- services are a parameter: how each forwarded request comes back, by the number forwarded before
-- it. The breaker of each service is gobreaker.
pub mod Forwarding
use Prim.Native.String.{String}
use eventflow_commerce.Common.{
  ℕ, ◌+◌, ◌%◌, ◌^◌, ◌==◌, leb, Bool, true, false, List, [], ◌∷◌, ◌++◌, length, if◌then◌else◌,
}
use eventflow_commerce.Common.Int.{ℤ, pos, leb_ℤ, pos_part}
use eventflow_commerce.Errors.{Error, Result, ok, err, remote, breaker_open}
use eventflow_commerce.Resilience.{Breaker, Call, execute}
use eventflow_commerce.Gateway.Middleware.{HttpRequest}

pub data Backend : Type 0 where
  order_backend payment_backend inventory_backend notification_backend : Backend

-- An error of the proxy, by the text that `proxyErrorHandler` finds in it first.
pub data ProxyFailure : Type 0 where
  connection_refused timed_out no_such_host other_failure : ProxyFailure

pub data ProxyReply : Type 0 where
  responded : ℕ → ProxyReply
  failed : ProxyFailure → ProxyReply

-- A request with its correlation id, 0 for none.
pub record ProxyRequest : Type 0 where
  pub http_request : HttpRequest
  pub correlation_id : ℕ

-- What was forwarded, the latest last, and the status that the recorder has.
pub record ProxyState : Type 0 where
  pub forwarded : List (Backend × ProxyRequest)
  pub status_code : ℕ
  pub replies : ℕ → ProxyReply

-- `proxyErrorHandler`
unfoldable pub proxy_error_status : ProxyFailure → ℕ
proxy_error_status connection_refused = 503
proxy_error_status timed_out = 504
proxy_error_status no_such_host = 502
proxy_error_status other_failure = 502

abbrev pub status_of : ProxyReply → ℕ
status_of (responded status) = status
status_of (failed f) = proxy_error_status f

-- `ensureCorrelationID`, with the identifier that `uuid.New` returns
unfoldable pub ensure_correlation_id : ℕ → ProxyRequest → ProxyRequest
ensure_correlation_id fresh r = record r {
  correlation_id = if r.correlation_id == 0 then fresh else r.correlation_id;
}

-- The function that `proxyToService` runs under the breaker.
unfoldable pub forward : Backend → ProxyRequest → Call ProxyState
forward b r s =
    let status = status_of (s.replies (length s.forwarded)) in
    (
      if leb 500 status then err remote else ok tt,
      record s { forwarded = s.forwarded ++ (b, r) ∷ []; status_code = status },
    )

abbrev pub is_open : Result (Unit {0}) → Bool
is_open (err breaker_open) = true
is_open _ = false

-- `writeCircuitOpenResponse`, for a breaker that is open
abbrev pub short_circuited : {B : Type 0} → Result (Unit {0}) × (B × ProxyState) → B × ProxyState
short_circuited (r, (b, s)) = (b, if is_open r then record s { status_code = 503 } else s)

module _ {B : Type 0} (breaker : Breaker B ProxyState) where
  -- `proxyToService`; the recorder starts with 200.
  unfoldable pub proxy_to_service : ℕ → Backend → ProxyRequest → B × ProxyState → B × ProxyState
  proxy_to_service fresh b r w = short_circuited (
      execute breaker (forward b (ensure_correlation_id fresh r))
        (w.0, record (w.1) { status_code = 200 }))

abbrev pub default_breaker_failure_threshold : ℕ
default_breaker_failure_threshold = 5

-- `breakerFailureThreshold`; the conversion to uint32 wraps around.
unfoldable pub breaker_failure_threshold : ℤ → ℕ
breaker_failure_threshold n =
    if leb_ℤ n (pos 0) then default_breaker_failure_threshold else pos_part n % 2 ^ 32

-- `readinessCheck`, by what `backendHealthy` finds: 200, or 503 with the services that are not
-- reachable.
unfoldable pub readiness_check : (Backend → Bool) → ℕ × List Backend
readiness_check healthy = answer (unavailable all_backends)
  where
    all_backends : List Backend
    all_backends = order_backend ∷ payment_backend ∷ inventory_backend ∷ notification_backend ∷ []

    unavailable : List Backend → List Backend
    unavailable [] = []
    unavailable (b ∷ bs) = if healthy b then unavailable bs else b ∷ unavailable bs

    answer : List Backend → ℕ × List Backend
    answer [] = (200, [])
    answer (b ∷ bs) = (503, b ∷ bs)
