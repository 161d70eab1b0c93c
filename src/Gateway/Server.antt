-- ===== src/Gateway/Server.antt =====
-- services/api-gateway/internal/server/server.go, `NewServer`: the middleware around the router, in the
-- order in which a request meets it: the rate limiter, the JWT middleware, the routes. Recovery, the
-- request id, metrics and traces are left out, which answer no request and change nothing that these
-- read.
pub mod Guarded
pub mod Journey
use Prim.Native.String.{String}
use eventflow_commerce.Common.{ℕ, ◌≡◌, Bool, true, false, ◌||◌, if◌then◌else◌}
use eventflow_commerce.Resilience.{Breaker}
use eventflow_commerce.Gateway.Address.{get_client_ip_from_request}
use eventflow_commerce.Gateway.Limiter.{Buckets, RateLimiter, rate_limit_middleware}
use eventflow_commerce.Gateway.Middleware.{
  HttpRequest, Parsed, Outcome, served, answered, jwt_middleware,
}
use eventflow_commerce.Gateway.Proxy.{
  Backend, order_backend, payment_backend, inventory_backend, notification_backend, ProxyRequest,
  ProxyState, proxy_to_service, readiness_check,
}
use eventflow_commerce.Gateway.Routes.{
  Target, health, live, ready, proxied, not_found, Dispatch, served_by, redirected, unmatched,
  same_path, clean_path, dispatch_escaped,
}

-- The state behind the handler: the rate limiter, the breaker of each service, and what has been
-- forwarded.
pub record Gateway (L B : Type 0) : Type 0 where
  pub limiter : RateLimiter L
  pub breakers : Backend → B
  pub proxies : ProxyState

abbrev same_backend : Backend → Backend → Bool
same_backend order_backend order_backend = true
same_backend payment_backend payment_backend = true
same_backend inventory_backend inventory_backend = true
same_backend notification_backend notification_backend = true
same_backend _ _ = false

-- ServeMux does not clean the path of such a request.
abbrev pub is_connect : HttpRequest → Bool
is_connect q = same_path q.method "CONNECT"

-- What the gateway is built from: the token buckets, the breaker of each service, filepath.Clean,
-- url.PathUnescape on every segment of a path (a slash that it reads stays escaped), golang-jwt, the number that stands for an address, and which services answer a health check.
pub record Parts (L B : Type 0) : Type 0 where
  pub buckets : Buckets L
  pub breaker : Breaker B ProxyState
  pub clean : String → String
  pub unescape : String → String
  pub parse : String → Parsed
  pub number_of : String → ℕ
  pub healthy : Backend → Bool

module _ {L B : Type 0} (parts : Parts L B) where
  open parts use {buckets, breaker, clean, unescape, parse, number_of, healthy}

  abbrev pub after_proxy : Backend → Gateway L B → B × ProxyState → ℕ × Gateway L B
  after_proxy b g (state, p) = (
    p.status_code,
    record g { breakers = λ c. if same_backend c b then state else g.breakers c; proxies = p },
  )

  -- `createProxyHandler`, with the identifier that `uuid.New` returns
  abbrev pub proxy_handler : ℕ → Backend → ProxyRequest → Gateway L B → ℕ × Gateway L B
  proxy_handler fresh b r g =
      after_proxy b g (proxy_to_service breaker fresh b r (g.breakers b, g.proxies))

  abbrev pub handle_target : ℕ → Target → ProxyRequest → Gateway L B → ℕ × Gateway L B
  handle_target fresh health r g = (200, g)
  handle_target fresh live r g = (200, g)
  handle_target fresh ready r g = ((readiness_check healthy).0, g)
  handle_target fresh (proxied b) r g = proxy_handler fresh b r g
  handle_target fresh not_found r g = (404, g)

  abbrev pub go_on : ℕ → Dispatch → ProxyRequest → Gateway L B → ℕ × Gateway L B
  go_on fresh (served_by t) r g = handle_target fresh t r g
  go_on fresh (redirected path) r g = (301, g)
  go_on fresh unmatched r g = (404, g)

  -- Where the ServeMux of the router sends a request.
  abbrev pub dispatch_of : HttpRequest → Dispatch
  dispatch_of q = dispatch_escaped clean unescape (is_connect q) q.escaped_path

  -- Nothing is escaped in the path, and the method is not CONNECT.
  abbrev pub IsPlain : HttpRequest → Type 0
  IsPlain q = (q.escaped_path ≡ q.path) × (unescape q.path ≡ q.path) × (is_connect q ≡ false)

  -- `Router.ServeHTTP`
  unfoldable pub route_request : ℕ → ProxyRequest → Gateway L B → ℕ × Gateway L B
  route_request fresh r g = go_on fresh (dispatch_of r.http_request) r g

  abbrev pub when_authenticated : ℕ → Outcome → ProxyRequest → Gateway L B → ℕ × Gateway L B
  when_authenticated fresh (answered status text) r g = (status, g)
  when_authenticated fresh (served passed) r g =
      route_request fresh (record r { http_request = passed }) g

  abbrev pub when_allowed :
      ℕ → Outcome × RateLimiter L → ProxyRequest → Gateway L B → ℕ × Gateway L B
  when_allowed fresh (answered status text, rl) r g = (status, record g { limiter = rl })
  when_allowed fresh (served passed, rl) r g =
      when_authenticated fresh (jwt_middleware clean parse passed)
        (record r { http_request = passed }) (record g { limiter = rl })

  -- The outer ServeMux of the server: an escaped path that is not clean is redirected, but for the
  -- method CONNECT, `/metrics` is answered
  -- without the middleware, everything else goes through it. The result is the status and the state
  -- that a request at a time leaves.
  unfoldable pub serve : ℕ → ℕ → ProxyRequest → Gateway L B → ℕ × Gateway L B
  serve fresh now r g =
      let path = r.http_request.escaped_path in
      if is_connect r.http_request || same_path (clean_path clean path) path
      then (if same_path (unescape path) "/metrics"
          then (200, g)
          else when_allowed fresh
              (rate_limit_middleware buckets (λ q. number_of (get_client_ip_from_request q)) now
                r.http_request g.limiter)
              r g)
      else (301, g)
