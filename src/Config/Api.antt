-- ===== src/Config/Api.antt =====
-- services/api-gateway/internal/config/config.go, and what `NewRouter` of handler/router.go builds from a
-- configuration. Durations are counted in nanoseconds, as Go keeps them.
pub mod Ready
use Prim.Native.String.{String, len}
use package.text.Mathlib.Text.{◌==◌ as text_eq}
use eventflow_commerce.Common.{
  ℕ, ◌≡◌, ◌≤◌, ◌^◌, ◌*◌, refl, subst, sym, Bool, Bool-cases, inl, inr, true, false, Option, none,
  some, List, [], ◌∷◌, any_row, ltb, arith, if◌then◌else◌,
}
use eventflow_commerce.Common.Int.{ℤ, pos, negsuc, leb_ℤ, ltb_ℤ, ◌*ℤ◌, wrap64}
use eventflow_commerce.Order.Domain.{is_empty}
use eventflow_commerce.Gateway.Proxy.{breaker_failure_threshold}
use eventflow_commerce.Gateway.Limiter.{RateLimiter, new_rate_limiter}
use eventflow_commerce.Config.{
  text, number, texts, CfgLoader, new_loader, set_defaults, bind_envs, Common, Environment, Url,
  Loaded, loaded, Checked, fine, stop, ◌>>◌, refuse_if, not_set, invalid, required, out_of_range,
  weak, check_common, check_database, load_with, load_with_lem, IsComplete, both_fine, refused_not,
  checks-IsComplete,
}
use eventflow_commerce.Config.Services.{with_parts}

-- `RateLimitConfig`
pub record RateLimitConfig : Type 0 where
  pub requests_per_minute : ℤ
  pub window_duration : ℤ

-- `CircuitBreakerConfig`
pub record CircuitBreakerConfig : Type 0 where
  pub failure_threshold : ℤ
  pub window_seconds : ℤ
  pub open_timeout_seconds : ℤ

-- `Config`
pub record GatewayConfig : Type 0 where
  pub common : Common
  pub order_service_url : String
  pub payment_service_url : String
  pub inventory_service_url : String
  pub notification_service_url : String
  pub jwt_secret : String
  pub rate_limit : RateLimitConfig
  pub circuit_breaker : CircuitBreakerConfig
  pub proxy_timeout : ℤ

-- `RateLimitConfig.Validate`
unfoldable pub check_rate_limit : RateLimitConfig → Checked
check_rate_limit r = do
  refuse_if (leb_ℤ r.requests_per_minute (pos 0)) (out_of_range "requests per minute")
  refuse_if (ltb_ℤ (pos 10000) r.requests_per_minute) (out_of_range "requests per minute")
  refuse_if (leb_ℤ r.window_duration (pos 0)) (out_of_range "window duration")
  refuse_if (ltb_ℤ (pos 3600) r.window_duration) (out_of_range "window duration")

-- `CircuitBreakerConfig.Validate`
unfoldable pub check_circuit_breaker : CircuitBreakerConfig → Checked
check_circuit_breaker c = do
  refuse_if (ltb_ℤ c.failure_threshold (pos 0)) (out_of_range "failure threshold")
  refuse_if (ltb_ℤ c.window_seconds (pos 0)) (out_of_range "window")
  refuse_if (ltb_ℤ c.open_timeout_seconds (pos 0)) (out_of_range "open timeout")

abbrev pub weak_secrets : List String
weak_secrets =
    "CHANGE_ME_IN_PRODUCTION_GENERATE_WITH_openssl_rand_base64_32" ∷ "your-jwt-secret-key-here"
    ∷ "aVeryLongAndSecureSecretKeyForDevelopment32+Chars" ∷ "secret" ∷ "password" ∷ "123456"
    ∷ "test" ∷ "development" ∷ []

-- `validateJWTSecret`
unfoldable pub check_jwt_secret : String → Checked
check_jwt_secret secret = do
  refuse_if (is_empty secret) (not_set "JWT_SECRET")
  refuse_if (ltb (len secret) 32) (out_of_range "JWT_SECRET")
  refuse_if (any_row (λ w. text_eq secret w) weak_secrets) (weak "JWT_SECRET")

abbrev pub check_url : String → Option Url → Checked
check_url env_name none = stop (invalid env_name)
check_url env_name (some u) = do
  refuse_if (is_empty u.scheme) (required env_name)
  refuse_if (is_empty u.url_host) (required env_name)

module _ (parse_url : String → Option Url) where
  -- `validateServiceURL`
  unfoldable pub check_service_url : String → String → Checked
  check_service_url url env_name = do
    refuse_if (is_empty url) (not_set env_name)
    check_url env_name (parse_url url)

  -- `Config.Validate`
  unfoldable pub validate_gateway : GatewayConfig → Checked
  validate_gateway c = do
    check_common "API_GATEWAY_SERVER_PORT" c.common
    refuse_if (is_empty c.order_service_url) (not_set "ORDER_SERVICE_URL")
    refuse_if (is_empty c.payment_service_url) (not_set "PAYMENT_SERVICE_URL")
    refuse_if (is_empty c.inventory_service_url) (not_set "INVENTORY_SERVICE_URL")
    refuse_if (is_empty c.notification_service_url) (not_set "NOTIFICATION_SERVICE_URL")
    check_jwt_secret c.jwt_secret
    check_service_url c.order_service_url "ORDER_SERVICE_URL"
    check_service_url c.payment_service_url "PAYMENT_SERVICE_URL"
    check_service_url c.inventory_service_url "INVENTORY_SERVICE_URL"
    check_service_url c.notification_service_url "NOTIFICATION_SERVICE_URL"
    check_rate_limit c.rate_limit
    check_circuit_breaker c.circuit_breaker
    check_database c.common.database

abbrev pub gateway_loader : CfgLoader
gateway_loader =
    bind_envs
      (("server.port", "API_GATEWAY_SERVER_PORT" ∷ "API_GATEWAY_PORT" ∷ [])
        ∷ ("database.url", "API_GATEWAY_DATABASE_URL" ∷ [])
        ∷ ("redis.url", "REDIS_URL" ∷ [])
        ∷ ("kafka.brokers", "KAFKA_BROKERS" ∷ [])
        ∷ ("jaeger.endpoint", "OTEL_EXPORTER_OTLP_ENDPOINT" ∷ [])
        ∷ ("order_service_url", "ORDER_SERVICE_URL" ∷ [])
        ∷ ("payment_service_url", "PAYMENT_SERVICE_URL" ∷ [])
        ∷ ("inventory_service_url", "INVENTORY_SERVICE_URL" ∷ [])
        ∷ ("notification_service_url", "NOTIFICATION_SERVICE_URL" ∷ [])
        ∷ ("jwt_secret", "JWT_SECRET" ∷ [])
        ∷ [])
      (set_defaults
        (("server.host", text "0.0.0.0")
          ∷ ("rate_limit.requests_per_minute", number 100)
          ∷ ("rate_limit.window_duration_seconds", number 60)
          ∷ ("circuit_breaker.failure_threshold", number 5)
          ∷ ("circuit_breaker.window_seconds", number 60)
          ∷ ("circuit_breaker.open_timeout_seconds", number 30)
          ∷ ("proxy_timeout_seconds", number 30)
          ∷ ("logger.level", text "info")
          ∷ ("logger.environment", text "development")
          ∷ ("logger.output_paths", texts ("stdout" ∷ []))
          ∷ ("service.name", text "api-gateway")
          ∷ ("service.version", text "1.0.0")
          ∷ [])
        (new_loader "api_gateway"))

-- `LoadConfig`
unfoldable pub load_gateway : Environment GatewayConfig → Loaded GatewayConfig
load_gateway env =
    load_with env gateway_loader "API_GATEWAY_DATABASE_URL" (validate_gateway env.parse_url)
      (λ c d. record c { common = with_parts c.common d })

-- Seconds as a `time.Duration`, or a default for what is not positive: `breakerWindow` and
-- `breakerOpenTimeout`.
abbrev pub seconds_or : ℤ → ℤ → ℤ
seconds_or default n = if leb_ℤ n (pos 0) then default else wrap64 (n *ℤ pos (10 ^ 9))

-- `backendProxy`, with the settings of its breaker
pub record BackendProxy : Type 0 where
  pub target : Url
  pub threshold : ℕ
  pub window : ℤ
  pub open_timeout : ℤ

abbrev pub proxy_for : CircuitBreakerConfig → Option Url → Option BackendProxy
proxy_for c none = none
proxy_for c (some u) = some (record {
  target = u;
  threshold = breaker_failure_threshold c.failure_threshold;
  window = seconds_or (pos (60 * 10 ^ 9)) c.window_seconds;
  open_timeout = seconds_or (pos (30 * 10 ^ 9)) c.open_timeout_seconds;
})

abbrev pub add_proxy : Option BackendProxy → Option (List BackendProxy) → Option (List BackendProxy)
add_proxy none rest = none
add_proxy (some p) none = none
add_proxy (some p) (some ps) = some (p ∷ ps)

module _ (parse_url : String → Option Url) where
  -- `newBackendProxy`, `none` for its error
  unfoldable pub new_backend_proxy : CircuitBreakerConfig → String → Option BackendProxy
  new_backend_proxy c raw_url = proxy_for c (parse_url raw_url)

  -- The loop of `NewRouter` over the services.
  unfoldable pub new_proxies : CircuitBreakerConfig → List String → Option (List BackendProxy)
  new_proxies c [] = some []
  new_proxies c (url ∷ urls) = add_proxy (new_backend_proxy c url) (new_proxies c urls)

  -- `NewRouter`, `none` for its error
  unfoldable pub new_router : GatewayConfig → Option (List BackendProxy)
  new_router c = new_proxies c.circuit_breaker (
      c.order_service_url ∷ c.payment_service_url ∷ c.inventory_service_url
      ∷ c.notification_service_url ∷ [])
