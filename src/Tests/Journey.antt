-- ===== src/Tests/Journey.antt =====
-- A request through the gateway to the order service.
use Prim.Native.String.{String}
use text.Mathlib.Text.{◌==◌ as same_text}
use eventflow_commerce.Common.{ℕ, ◌≡◌, refl, true, Option, none, some, ◌++◌, [], ◌∷◌, if◌then◌else◌}
use eventflow_commerce.Order.Handler.{Raw, read, unreadable}
use eventflow_commerce.Order.Reads.{show_order}
use eventflow_commerce.Order.Reads.Traffic.{IsShown}
use eventflow_commerce.Gateway.Middleware.{
  HttpRequest, Claims, parsed, token_of, with_identity, jwt_middleware, is_public_path,
}
use eventflow_commerce.Gateway.Limiter.{
  rate_limit_middleware, allow, find_limiter, new_rate_limiter,
}
use eventflow_commerce.Gateway.Proxy.{
  ProxyRequest, order_backend, proxy_to_service, forward, ensure_correlation_id,
}
use eventflow_commerce.Resilience.{execute}
use eventflow_commerce.Gateway.Routes.{dispatch_escaped, pick}
use eventflow_commerce.Gateway.Server.{serve, route_request}
use eventflow_commerce.Gateway.Server.Journey.{serve-show_order}
use eventflow_commerce.Tests.Gateway.{alice, parse, ask, parts, closed-IsBreaker, idle}
use eventflow_commerce.Tests.Placing.{agrees, placed_order, paid_reader, paid-Traffic, shown_run}

abbrev read_id : String → Raw ℕ
read_id s = if same_text s "3" then read 3 else unreadable

abbrev read_path : String → Option ℕ
read_path s = if same_text s "/api/v1/orders/1" then some 1 else none

-- A request for one order.
abbrev ask_one : HttpRequest
ask_one = record ask { path = "/api/v1/orders/1"; escaped_path = "/api/v1/orders/1" }

abbrev one : ProxyRequest
one = record { http_request = ask_one; correlation_id = 0 }

abbrev sent_one : ProxyRequest
sent_one = record { http_request = with_identity alice ask_one; correlation_id = 9 }

one_sent :
    (serve parts 9 5 one idle).1.proxies.forwarded
    ≡ idle.proxies.forwarded ++ (order_backend, sent_one) ∷ []
unfolding serve rate_limit_middleware allow find_limiter new_rate_limiter jwt_middleware
    is_public_path route_request dispatch_escaped pick proxy_to_service execute forward
    ensure_correlation_id
one_sent = refl

serve-show_order_example :
    (c : Claims) × (parse (token_of ask_one.authorization) ≡ parsed true c)
    × IsShown
        (read_id c.claimed_id)
        (read_path ask_one.escaped_path)
        placed_order
        (show_order true
          (read_id sent_one.http_request.user_id)
          (read_path sent_one.http_request.escaped_path)
          paid_reader).1.server.committed
serve-show_order_example =
    serve-show_order parts closed-IsBreaker read_id read_path agrees 9 5 one sent_one idle true
      paid_reader placed_order paid-Traffic refl (refl, refl, refl) one_sent shown_run

-- filepath.Clean and the unescaping of segments, as they read this path.
abbrev cleaned : String → String
cleaned p = if same_text p "/api/v1/orders/../../../health" then "/health" else p

abbrev unescaped : String → String
unescaped p =
    if same_text p "/api/v1/orders/%2e%2e/%2e%2e/%2e%2e/health"
    then "/api/v1/orders/../../../health"
    else p

-- No token, and an identity that the client made up.
abbrev forged : ProxyRequest
forged = record {
  http_request = record ask {
    path = "/api/v1/orders/../../../health";
    escaped_path = "/api/v1/orders/%2e%2e/%2e%2e/%2e%2e/health";
    authorization = "";
  };
  correlation_id = 9;
}

-- Escaped dots take a request without a token past the middleware to the order service.
forged_sent :
    (serve
      (record parts { clean = cleaned; unescape = unescaped })
      9
      5
      forged
      idle).1.proxies.forwarded
    ≡ idle.proxies.forwarded ++ (order_backend, forged) ∷ []
unfolding serve rate_limit_middleware allow find_limiter new_rate_limiter jwt_middleware
    is_public_path route_request dispatch_escaped pick proxy_to_service execute forward
    ensure_correlation_id
forged_sent = refl
