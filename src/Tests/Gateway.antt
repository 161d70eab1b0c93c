-- ===== src/Tests/Gateway.antt =====
-- Concrete requests to the gateway.
use Prim.Native.String.{String}
use text.Mathlib.Text.{◌==◌ as same_text}
use eventflow_commerce.Common.{
  ℕ, ◌≡◌, ◌⊎◌, ◌≤◌, refl, inr, Bool, true, ◌++◌, List, [], ◌∷◌, length, any_row, All, All-map,
  ==_refl, arith, if◌then◌else◌,
}
use eventflow_commerce.Common.Int.{pos}
use eventflow_commerce.Gateway.Middleware.{
  HttpRequest, Claims, Parsed, parse_error, parsed, served, is_public_path, with_identity,
  jwt_middleware,
}
use eventflow_commerce.Common.{none}
use eventflow_commerce.Resilience.{ran, execute}
use eventflow_commerce.Gateway.Limiter.{rate_limit_middleware, allow, find_limiter}
use eventflow_commerce.Gateway.Proxy.{ProxyRequest, forward}
use eventflow_commerce.Gateway.Routes.{served_by, proxied, dispatch, dispatch_escaped, pick}
use eventflow_commerce.Gateway.Routes.Reach.{orders, dispatch-IsUnder}
use eventflow_commerce.Gateway.Address.{set_proxy_headers, set_proxy_headers_forwarded}
use eventflow_commerce.Gateway.Server.{Gateway, Parts, route_request, serve}
use eventflow_commerce.Gateway.Span.{span_name, span_name-IsUnder}
use eventflow_commerce.Resilience.{Breaker, IsBreaker, Passed, open_state}
use eventflow_commerce.Gateway.Proxy.{
  ProxyState, responded, order_backend, ensure_correlation_id, proxy_to_service,
}
use eventflow_commerce.Gateway.Limiter.{
  Buckets, is_client, IsWalk, request, cleanup_due, new_rate_limiter, run_events,
}
use eventflow_commerce.Gateway.Limiter.Bounded.{run_events_bound}

abbrev pub alice : Claims
alice = record { claimed_id = "3"; claimed_email = "a@b.c"; claimed_role = "customer" }

abbrev pub parse : String → Parsed
parse t = if same_text t "good" then parsed true alice else parse_error

-- The client sends another identity.
abbrev pub ask : HttpRequest
ask = record {
  method = "GET";
  path = "/api/v1/orders";
  escaped_path = "/api/v1/orders";
  authorization = "Bearer good";
  user_id = "4";
  user_email = "";
  user_role = "admin";
  forwarded_for = "10.0.0.1, 10.0.0.2";
  real_ip = "";
  remote_addr = "192.0.2.7:5000";
}

ask_served : jwt_middleware (λ p. p) parse ask ≡ served (with_identity alice ask)
unfolding jwt_middleware is_public_path
ask_served = refl

abbrev keys : List (ℕ × ℕ) → List ℕ
keys [] = []
keys (e ∷ es) = e.0 ∷ keys es

-- A bucket counts what is left.
abbrev buckets : Buckets ℕ
buckets = record { new_limiter = λ n. n; allow_event = λ t b. (true, b); walk = keys }

length-keys : (es : List (ℕ × ℕ)) → length (keys es) ≡ length es
length-keys [] = refl
length-keys (e ∷ es) = omega (arith, length-keys es)

keys_inside : (es : List (ℕ × ℕ)) → All (λ c. any_row (is_client c) es ≡ true) (keys es)
keys_inside [] = tt
keys_inside (e ∷ es) =
    (rw (==_refl e.0) refl, All-map (keys es) (λ c h. rw h (ground arith)) (keys_inside es))

abbrev keys-IsWalk : IsWalk buckets
keys-IsWalk = record { whole = length-keys; inside = keys_inside }

run_events_bound_example :
    length
      (run_events buckets (request 0 7 ∷ cleanup_due ∷ []) (new_rate_limiter (pos 60))).limiters
    ≤ 10000
run_events_bound_example =
    run_events_bound buckets keys-IsWalk (pos 60) (request 0 7 ∷ cleanup_due ∷ [])

-- The breaker of the orders is open.
abbrev tripped : Breaker ℕ ProxyState
tripped fn w = (open_state, w)

abbrev tripped-IsBreaker : IsBreaker tripped
tripped-IsBreaker fn b v = Passed.turned_down open_state b refl

abbrev quiet : ProxyState
quiet = record { forwarded = []; status_code = 200; replies = λ n. responded 200 }

abbrev pub closed : Breaker ℕ ProxyState
closed fn (b, v) = (ran (fn v).0, (b, (fn v).1))

pub closed-IsBreaker : IsBreaker closed
closed-IsBreaker fn b v = Passed.passed b

abbrev pub parts : Parts ℕ ℕ
parts = record {
  buckets = buckets;
  breaker = closed;
  clean = λ p. p;
  unescape = λ p. p;
  parse = parse;
  number_of = λ s. 0;
  healthy = λ b. true;
}

abbrev pub idle : Gateway ℕ ℕ
idle = record { limiter = new_rate_limiter (pos 60); breakers = λ b. 0; proxies = quiet }

abbrev pub asked : ProxyRequest
asked = record { http_request = ask; correlation_id = 0 }

abbrev pub sent : ProxyRequest
sent = record { http_request = with_identity alice ask; correlation_id = 9 }

pub forwarded_sent :
    (serve parts 9 5 asked idle).1.proxies.forwarded
    ≡ idle.proxies.forwarded ++ (order_backend, sent) ∷ []
unfolding serve rate_limit_middleware allow find_limiter new_rate_limiter jwt_middleware
    is_public_path route_request dispatch_escaped pick proxy_to_service execute forward
    ensure_correlation_id
forwarded_sent = refl

dispatch-IsUnder_example : dispatch (λ p. p) "/api/v1/orders/7" ≡ served_by (proxied order_backend)
dispatch-IsUnder_example =
    dispatch-IsUnder (λ p. p) orders "/api/v1/orders/7" refl (inr ("7", refl))

abbrev valid_ip : String → Bool
valid_ip ip = same_text ip "10.0.0.1"

set_proxy_headers_forwarded_example :
    (((set_proxy_headers valid_ip (λ a. none) "http" "shop" "orders:80" ask).sent_forwarded_for
        ≡ "unknown")
      ⊎ (valid_ip
            (set_proxy_headers valid_ip
              (λ a. none)
              "http"
              "shop"
              "orders:80"
              ask).sent_forwarded_for
          ≡ true))
    × ((set_proxy_headers valid_ip (λ a. none) "http" "shop" "orders:80" ask).original_path
        ≡ ask.path)
    × ((set_proxy_headers valid_ip (λ a. none) "http" "shop" "orders:80" ask).host ≡ "orders:80")
set_proxy_headers_forwarded_example =
    set_proxy_headers_forwarded valid_ip (λ a. none) "http" "shop" "orders:80" ask refl

span_name-IsUnder_example :
    span_name (record ask { path = "/api/v1/orders/7/items" }) ≡ "GET /api/v1/orders"
span_name-IsUnder_example =
    span_name-IsUnder orders (record ask { path = "/api/v1/orders/7/items" })
      (inr ("7/items", refl))
