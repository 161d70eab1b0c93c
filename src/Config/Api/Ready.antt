-- ===== src/Config/Api/Ready.antt =====
-- What a configuration of the gateway that loads is good for.
use Prim.Native.String.{String, len}
use eventflow_commerce.Common.{
  ℕ, ◌≡◌, ◌≤◌, ◌<◌, ◌^◌, ◌*◌, ◌⊎◌, inl, inr, Bool-cases, leb, if◌then◌else◌, refl, true, false,
  Option, none, some, [], ◌∷◌, ltb, arith,
}
use eventflow_commerce.Common.Int.{ℤ, pos, negsuc, leb_ℤ, ltb_ℤ, pos_part}
use eventflow_commerce.Order.Domain.{is_empty}
use eventflow_commerce.Gateway.Proxy.{breaker_failure_threshold}
use eventflow_commerce.Resilience.{ready_to_trip}
use eventflow_commerce.Gateway.Limiter.{new_rate_limiter}
use eventflow_commerce.Config.{
  Environment, Url, loaded, fine, refuse_if, not_set, required, check_common, load_with_lem,
  IsComplete, both_fine, refused_not, checks-IsComplete,
}
use eventflow_commerce.Config.Api.{
  CircuitBreakerConfig, GatewayConfig, BackendProxy, check_rate_limit, check_circuit_breaker,
  check_jwt_secret, check_url, check_service_url, validate_gateway, gateway_loader, load_gateway,
  seconds_or, proxy_for, new_backend_proxy, new_proxies, new_router,
}

-- A proxy to this URL, whose breaker has the settings of the configuration.
pub record IsProxyTo (parse_url : String → Option Url) (c : CircuitBreakerConfig) (url : String)
    (p : BackendProxy) : Type 0 where
  parsed_target : parse_url url ≡ some p.target
  has_scheme : is_empty p.target.scheme ≡ false
  has_host : is_empty p.target.url_host ≡ false
  same_threshold : p.threshold ≡ breaker_failure_threshold c.failure_threshold
  same_window : p.window ≡ seconds_or (pos (60 * 10 ^ 9)) c.window_seconds
  same_timeout : p.open_timeout ≡ seconds_or (pos (30 * 10 ^ 9)) c.open_timeout_seconds

module _ (parse_url : String → Option Url) (c : CircuitBreakerConfig) where
  proxy_found :
      (o : Option Url) (url env_name : String)
      → parse_url url ≡ o
      → check_url env_name o ≡ fine
      → (p : BackendProxy) × (proxy_for c o ≡ some p) × IsProxyTo parse_url c url p
  proxy_found none url env_name e h = absurd (cc h)
  proxy_found (some u) url env_name e h =
      let k = both_fine (refuse_if (is_empty u.scheme) (required env_name)) _ h in
      (
        _,
        refl,
        record {
          parsed_target = e;
          has_scheme = refused_not _ _ k.0;
          has_host = refused_not _ _ k.1;
          same_threshold = refl;
          same_window = refl;
          same_timeout = refl;
        },
      )

  proxy_built :
      (url env_name : String)
      → check_service_url parse_url url env_name ≡ fine
      → (p : BackendProxy) × (new_backend_proxy parse_url c url ≡ some p)
        × IsProxyTo parse_url c url p
  unfolding check_service_url new_backend_proxy
  proxy_built url env_name h =
      proxy_found (parse_url url) url env_name refl
        (both_fine (refuse_if (is_empty url) (not_set env_name)) _ h).1

  four_built :
      (a b d e : String) (p q r s : BackendProxy)
      → new_backend_proxy parse_url c a ≡ some p
      → new_backend_proxy parse_url c b ≡ some q
      → new_backend_proxy parse_url c d ≡ some r
      → new_backend_proxy parse_url c e ≡ some s
      → new_proxies parse_url c (a ∷ b ∷ d ∷ e ∷ []) ≡ some (p ∷ q ∷ r ∷ s ∷ [])
  unfolding new_proxies
  four_built a b d e p q r s h k l m = rw (h, k, l, m) refl

burst_bounds :
    (L : Type 0) (n : ℤ)
    → leb_ℤ n (pos 0) ≡ false
    → ltb_ℤ (pos 10000) n ≡ false
    → (1 ≤ (new_rate_limiter {B = L} n).burst) × ((new_rate_limiter {B = L} n).burst ≤ 3335)
unfolding new_rate_limiter
burst_bounds L (pos n) h k = ground arith
burst_bounds L (negsuc n) h k = ground arith

-- The failures at which a breaker trips: 5 where the configuration gives no positive number.
abbrev pub trips_after : ℤ → ℕ
trips_after n = if leb_ℤ n (pos 0) then 5 else pos_part n

threshold_lem :
    (n : ℤ) (failures : ℕ)
    → ltb_ℤ n (pos (2 ^ 32)) ≡ true
    → ltb_ℤ n (pos 0) ≡ false
    → ready_to_trip (breaker_failure_threshold n) failures ≡ leb (trips_after n) failures
unfolding breaker_failure_threshold ready_to_trip
threshold_lem (pos n) failures h k = ground arith
threshold_lem (negsuc n) failures h k = ground arith

-- What the gateway starts with: a proxy for each service, a limiter with a burst, a long secret, and
-- breakers that trip exactly after the configured number of failures in a row, unless that is too
-- large.
pub record IsReady (L : Type 0) (parse_url : String → Option Url) (c : GatewayConfig) : Type 0 where
  complete : IsComplete c.common
  proxies :
      (o p i n : BackendProxy) × (new_router parse_url c ≡ some (o ∷ p ∷ i ∷ n ∷ []))
      × IsProxyTo parse_url c.circuit_breaker c.order_service_url o
      × IsProxyTo parse_url c.circuit_breaker c.payment_service_url p
      × IsProxyTo parse_url c.circuit_breaker c.inventory_service_url i
      × IsProxyTo parse_url c.circuit_breaker c.notification_service_url n
  burst :
      (1 ≤ (new_rate_limiter {B = L} c.rate_limit.requests_per_minute).burst)
      × ((new_rate_limiter {B = L} c.rate_limit.requests_per_minute).burst ≤ 3335)
  secret : ltb (len c.jwt_secret) 32 ≡ false
  trips :
      (ltb_ℤ c.circuit_breaker.failure_threshold (pos (2 ^ 32)) ≡ false)
      ⊎ ((failures : ℕ)
          → ready_to_trip (breaker_failure_threshold c.circuit_breaker.failure_threshold) failures
            ≡ leb (trips_after c.circuit_breaker.failure_threshold) failures)

trips_lem :
    (n : ℤ)
    → ltb_ℤ n (pos 0) ≡ false
    → (ltb_ℤ n (pos (2 ^ 32)) ≡ false)
      ⊎ ((failures : ℕ)
          → ready_to_trip (breaker_failure_threshold n) failures ≡ leb (trips_after n) failures)
trips_lem n h = elim (Bool-cases (ltb_ℤ n (pos (2 ^ 32)))) [
  | inl e ↦ inr (λ failures. threshold_lem n failures e h)
  | inr e ↦ inl e
]

validated-IsReady :
    (L : Type 0) (parse_url : String → Option Url) (c : GatewayConfig)
    → validate_gateway parse_url c ≡ fine
    → IsReady L parse_url c
unfolding validate_gateway new_router check_rate_limit check_circuit_breaker check_jwt_secret
validated-IsReady L parse_url c h =
    let a = both_fine (check_common "API_GATEWAY_SERVER_PORT" c.common) _ h in
    let b = both_fine (refuse_if (is_empty c.order_service_url) _) _ a.1 in
    let d = both_fine (refuse_if (is_empty c.payment_service_url) _) _ b.1 in
    let e = both_fine (refuse_if (is_empty c.inventory_service_url) _) _ d.1 in
    let f = both_fine (refuse_if (is_empty c.notification_service_url) _) _ e.1 in
    let j = both_fine (check_jwt_secret c.jwt_secret) _ f.1 in
    let o = both_fine (check_service_url parse_url c.order_service_url _) _ j.1 in
    let p = both_fine (check_service_url parse_url c.payment_service_url _) _ o.1 in
    let i = both_fine (check_service_url parse_url c.inventory_service_url _) _ p.1 in
    let n = both_fine (check_service_url parse_url c.notification_service_url _) _ i.1 in
    let r = both_fine (check_rate_limit c.rate_limit) _ n.1 in
    let k = both_fine (check_circuit_breaker c.circuit_breaker) _ r.1 in
    let cb : CircuitBreakerConfig = c.circuit_breaker in
    let po = proxy_built parse_url cb _ _ o.0 in
    let pp = proxy_built parse_url cb _ _ p.0 in
    let pi = proxy_built parse_url cb _ _ i.0 in
    let pn = proxy_built parse_url cb _ _ n.0 in
    let low = both_fine (refuse_if (leb_ℤ c.rate_limit.requests_per_minute (pos 0)) _) _ r.0 in
    let high =
      both_fine (refuse_if (ltb_ℤ (pos 10000) c.rate_limit.requests_per_minute) _) _ low.1 in
    let given = both_fine (refuse_if (is_empty c.jwt_secret) _) _ j.0 in
    let long = both_fine (refuse_if (ltb (len c.jwt_secret) 32) _) _ given.1 in
    let threshold = both_fine (refuse_if (ltb_ℤ cb.failure_threshold (pos 0)) _) _ k.0 in
    record {
      complete = checks-IsComplete "API_GATEWAY_SERVER_PORT" c.common a.0 k.1;
      proxies = (
        po.0,
        pp.0,
        pi.0,
        pn.0,
        four_built parse_url cb _ _ _ _ po.0 pp.0 pi.0 pn.0 po.1 pp.1 pi.1 pn.1,
        po.2,
        pp.2,
        pi.2,
        pn.2,
      );
      burst =
          burst_bounds L c.rate_limit.requests_per_minute (refused_not _ _ low.0)
            (refused_not _ _ high.0);
      secret = refused_not _ _ long.0;
      trips = trips_lem cb.failure_threshold (refused_not _ _ threshold.0);
    }

wrapped_zero : (n : ℕ) → 0 < n → breaker_failure_threshold (pos (n * 2 ^ 32)) ≡ 0
unfolding breaker_failure_threshold
wrapped_zero n h = ground arith

wrapped_lem :
    (n failures : ℕ)
    → 0 < n
    → ready_to_trip (breaker_failure_threshold (pos (n * 2 ^ 32))) failures ≡ false
unfolding ready_to_trip
wrapped_lem n failures h = rw (wrapped_zero n h) refl

-- When LoadConfig of the gateway returns a configuration, NewRouter builds from it one proxy for each
-- of the four services, in their order, to the parsed URL of that service, which has a scheme and a
-- host, with the breaker settings of the configuration; the limiter admits between 1 and 3335
-- requests at once, the secret has 32 bytes or more, and the common fields are filled in; and unless
-- the failure threshold is 2 ^ 32 or more, the breakers are ready to trip exactly from that number
-- of failures in a row on, or from 5 where it is 0.
pub load_gateway-IsReady :
    (L : Type 0) (env : Environment GatewayConfig) (c : GatewayConfig)
    → load_gateway env ≡ loaded c
    → IsReady L env.parse_url c
unfolding load_gateway
load_gateway-IsReady L env c h = validated-IsReady L env.parse_url c (
    load_with_lem env gateway_loader "API_GATEWAY_DATABASE_URL" (validate_gateway env.parse_url) _ c
      h)

-- A failure threshold that is a positive multiple of 2 ^ 32 passes the check of the circuit breaker, if
-- its durations do, and with the threshold that is made of it a breaker is not ready to trip after
-- any number of failures in a row.
pub threshold_wraps :
    (c : CircuitBreakerConfig) (n failures : ℕ)
    → c.failure_threshold ≡ pos (n * 2 ^ 32)
    → 0 < n
    → ltb_ℤ c.window_seconds (pos 0) ≡ false
    → ltb_ℤ c.open_timeout_seconds (pos 0) ≡ false
    → (check_circuit_breaker c ≡ fine)
      × (ready_to_trip (breaker_failure_threshold c.failure_threshold) failures ≡ false)
unfolding check_circuit_breaker
threshold_wraps c n failures e h k l =
    (rw (k, l, e) (ground arith), rw e (wrapped_lem n failures h))
