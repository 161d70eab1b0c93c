-- ===== src/Tests/Configuration.antt =====
-- Concrete configurations.
use eventflow_commerce.Common.{ℕ, ◌≡◌, ◌*◌, ◌^◌, refl, some, [], ◌∷◌, arith}
use eventflow_commerce.Common.Int.{pos}
use eventflow_commerce.Gateway.Proxy.{breaker_failure_threshold}
use eventflow_commerce.Config.{
  DatabaseConfig, Url, Environment, loaded, panicked, fine, load_with, check_common, check_database,
}
use eventflow_commerce.Config.Api.{
  CircuitBreakerConfig, GatewayConfig, check_rate_limit, check_circuit_breaker, check_jwt_secret,
  check_service_url, validate_gateway, load_gateway,
}
use eventflow_commerce.Common.{false}
use eventflow_commerce.Resilience.{ready_to_trip}
use eventflow_commerce.Config.Api.Ready.{IsReady, load_gateway-IsReady, threshold_wraps}

abbrev url : Url
url = record {
  scheme = "http";
  url_host = "db:5432";
  hostname = "db";
  port = "5432";
  user_name = "shop";
  user_password = "pw";
  url_path = "/orders";
  query_ssl_mode = "disable";
}

abbrev database : DatabaseConfig
database = record {
  db_host = "db";
  db_port = "5432";
  db_user = "shop";
  db_password = "pw";
  db_name = "orders";
  ssl_mode = "disable";
}

abbrev settings : GatewayConfig
settings = record {
  common = record {
    server_host = "0.0.0.0";
    server_port = "8080";
    redis_url = "redis:6379";
    brokers = "kafka:9092" ∷ [];
    endpoint = "jaeger:4317";
    database = database;
  };
  order_service_url = "http://order";
  payment_service_url = "http://payment";
  inventory_service_url = "http://inventory";
  notification_service_url = "http://notification";
  jwt_secret = "0123456789abcdef0123456789abcdef";
  rate_limit = record { requests_per_minute = pos 100; window_duration = pos 60 };
  circuit_breaker = record {
    failure_threshold = pos 5;
    window_seconds = pos 60;
    open_timeout_seconds = pos 30;
  };
  proxy_timeout = pos 30;
}

abbrev environment : Environment GatewayConfig
environment = record {
  load = λ l. some settings;
  get_string = λ l k. "postgres://shop:pw@db:5432/orders";
  parse_url = λ s. some url;
}

load_settings : load_gateway environment ≡ loaded settings
unfolding load_gateway load_with validate_gateway check_common check_jwt_secret check_service_url
    check_rate_limit check_circuit_breaker check_database
load_settings = refl

load_gateway-IsReady_example : IsReady ℕ environment.parse_url settings
load_gateway-IsReady_example = load_gateway-IsReady ℕ environment settings load_settings

-- A database URL without a path makes LoadConfig panic.
load_without_path :
    load_gateway (record environment { parse_url = λ s. some (record url { url_path = "" }) })
    ≡ panicked
unfolding load_gateway load_with
load_without_path = refl

abbrev huge : CircuitBreakerConfig
huge = record {
  failure_threshold = pos (1 * 2 ^ 32);
  window_seconds = pos 60;
  open_timeout_seconds = pos 30;
}

threshold_wraps_example :
    (check_circuit_breaker huge ≡ fine)
    × (ready_to_trip (breaker_failure_threshold (pos (1 * 2 ^ 32))) 1000 ≡ false)
threshold_wraps_example = threshold_wraps huge 1 1000 refl (omega arith) refl refl
