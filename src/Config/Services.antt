-- ===== src/Config/Services.antt =====
-- config/config.go of the order, payment and inventory services.
use Prim.Native.String.{String}
use eventflow_commerce.Common.{◌≡◌, false, List, [], ◌∷◌}
use eventflow_commerce.Order.Domain.{is_empty}
use eventflow_commerce.Config.{
  Value, text, number, texts, CfgLoader, new_loader, set_defaults, bind_envs, Common,
  DatabaseConfig, Environment, Loaded, loaded, Checked, ◌>>◌, refuse_if, not_set, check_common,
  check_database, load_with, load_with_lem, IsComplete, both_fine, refused_not, checks-IsComplete,
}

abbrev pub with_parts : Common → DatabaseConfig → Common
with_parts c d = record c { database = d }

-- `Config` of the order service, as far as it is validated
pub record OrderConfig : Type 0 where
  pub order_common : Common
  pub inventory_service_url : String
  pub payment_service_url : String

abbrev pub order_loader : CfgLoader
order_loader =
    bind_envs
      (("server.port", "ORDER_SERVER_PORT" ∷ "ORDER_SERVICE_PORT" ∷ [])
        ∷ ("database.url", "ORDER_DATABASE_URL" ∷ [])
        ∷ ("redis.url", "REDIS_URL" ∷ [])
        ∷ ("kafka.brokers", "KAFKA_BROKERS" ∷ [])
        ∷ ("kafka.group_id", "ORDER_KAFKA_GROUP_ID" ∷ [])
        ∷ ("jaeger.endpoint", "OTEL_EXPORTER_OTLP_ENDPOINT" ∷ [])
        ∷ ("inventory_service_url", "INVENTORY_SERVICE_URL" ∷ [])
        ∷ ("payment_service_url", "PAYMENT_SERVICE_URL" ∷ [])
        ∷ [])
      (set_defaults
        (("server.host", text "0.0.0.0")
          ∷ ("kafka.group_id", text "order-service")
          ∷ ("kafka.dlq_topic", text "orders.events.dlq")
          ∷ ("logger.level", text "info")
          ∷ ("logger.environment", text "development")
          ∷ ("logger.output_paths", texts ("stdout" ∷ []))
          ∷ ("service.name", text "order")
          ∷ ("service.version", text "1.0.0")
          ∷ ("database_pool.max_open_conns", number 25)
          ∷ ("database_pool.max_idle_conns", number 5)
          ∷ ("database_pool.max_lifetime", text "5m")
          ∷ ("outbox.relay_interval", text "1s")
          ∷ ("outbox.relay_batch_size", number 100)
          ∷ ("inventory_client.timeout", text "5s")
          ∷ ("payment_client.timeout", text "5s")
          ∷ [])
        (new_loader "order"))

-- `Validate` of the order service
unfoldable pub validate_order : OrderConfig → Checked
validate_order c = do
  check_common "ORDER_SERVER_PORT" c.order_common
  refuse_if (is_empty c.inventory_service_url) (not_set "INVENTORY_SERVICE_URL")
  refuse_if (is_empty c.payment_service_url) (not_set "PAYMENT_SERVICE_URL")
  check_database c.order_common.database

-- `LoadConfig` of the order service
unfoldable pub load_order : Environment OrderConfig → Loaded OrderConfig
load_order env =
    load_with env order_loader "ORDER_DATABASE_URL" validate_order
      (λ c d. record c { order_common = with_parts c.order_common d })

-- The settings that the payment and the inventory service share with the order service.
abbrev pool_defaults : List (String × Value)
pool_defaults =
    ("database_pool.max_open_conns", number 25)
    ∷ ("database_pool.max_idle_conns", number 5)
    ∷ ("database_pool.max_lifetime", text "5m")
    ∷ []

abbrev pub payment_loader : CfgLoader
payment_loader =
    bind_envs
      (("server.port", "PAYMENT_SERVER_PORT" ∷ "PAYMENT_SERVICE_PORT" ∷ [])
        ∷ ("database.url", "PAYMENT_DATABASE_URL" ∷ [])
        ∷ ("redis.url", "REDIS_URL" ∷ [])
        ∷ ("kafka.brokers", "KAFKA_BROKERS" ∷ [])
        ∷ ("kafka.group_id", "PAYMENT_KAFKA_GROUP_ID" ∷ [])
        ∷ ("jaeger.endpoint", "OTEL_EXPORTER_OTLP_ENDPOINT" ∷ [])
        ∷ [])
      (set_defaults
        (("outbox.relay_interval", text "1s") ∷ ("outbox.relay_batch_size", number 100) ∷ [])
        (set_defaults pool_defaults (
          set_defaults
            (("server.host", text "0.0.0.0")
              ∷ ("kafka.group_id", text "payment-service")
              ∷ ("kafka.dlq_topic", text "payments.events.dlq")
              ∷ ("logger.level", text "info")
              ∷ ("logger.environment", text "development")
              ∷ ("logger.output_paths", texts ("stdout" ∷ []))
              ∷ ("service.name", text "payment")
              ∷ ("service.version", text "1.0.0")
              ∷ [])
            (new_loader "payment"))))

-- `Validate` of the payment service
unfoldable pub validate_payment : Common → Checked
validate_payment c = do check_common "PAYMENT_SERVER_PORT" c; check_database c.database

-- `LoadConfig` of the payment service
unfoldable pub load_payment : Environment Common → Loaded Common
load_payment env = load_with env payment_loader "PAYMENT_DATABASE_URL" validate_payment with_parts

abbrev pub inventory_loader : CfgLoader
inventory_loader =
    bind_envs
      (("server.port", "INVENTORY_SERVER_PORT" ∷ "INVENTORY_SERVICE_PORT" ∷ [])
        ∷ ("database.url", "INVENTORY_DATABASE_URL" ∷ [])
        ∷ ("redis.url", "REDIS_URL" ∷ [])
        ∷ ("redis_pool_size", "REDIS_POOL_SIZE" ∷ [])
        ∷ ("kafka.brokers", "KAFKA_BROKERS" ∷ [])
        ∷ ("kafka.group_id", "INVENTORY_KAFKA_GROUP_ID" ∷ [])
        ∷ ("jaeger.endpoint", "OTEL_EXPORTER_OTLP_ENDPOINT" ∷ [])
        ∷ [])
      (set_defaults
        (("redis_pool_size", number 10)
          ∷ ("outbox.relay_interval", text "1s")
          ∷ ("outbox.relay_batch_size", number 100)
          ∷ [])
        (set_defaults pool_defaults (
          set_defaults
            (("server.host", text "0.0.0.0")
              ∷ ("kafka.group_id", text "inventory-service")
              ∷ ("kafka.dlq_topic", text "inventory.events.dlq")
              ∷ ("logger.level", text "info")
              ∷ ("logger.environment", text "development")
              ∷ ("logger.output_paths", texts ("stdout" ∷ []))
              ∷ ("service.name", text "inventory")
              ∷ ("service.version", text "1.0.0")
              ∷ [])
            (new_loader "inventory"))))

-- `Validate` of the inventory service
unfoldable pub validate_inventory : Common → Checked
validate_inventory c = do check_common "INVENTORY_SERVER_PORT" c; check_database c.database

-- `LoadConfig` of the inventory service
unfoldable pub load_inventory : Environment Common → Loaded Common
load_inventory env =
    load_with env inventory_loader "INVENTORY_DATABASE_URL" validate_inventory with_parts

-- When LoadConfig of the order service returns a configuration, every field that the service needs is
-- filled in: the port, redis, the brokers, the trace endpoint, all parts of the database URL, and the
-- URLs of the inventory and the payment service.
pub load_order-IsComplete :
    (env : Environment OrderConfig) (c : OrderConfig)
    → load_order env ≡ loaded c
    → IsComplete c.order_common
      × (is_empty c.inventory_service_url ≡ false)
      × (is_empty c.payment_service_url ≡ false)
unfolding load_order validate_order
load_order-IsComplete env c h =
    let v = load_with_lem env order_loader "ORDER_DATABASE_URL" validate_order _ c h in
    let a = both_fine (check_common "ORDER_SERVER_PORT" c.order_common) _ v in
    let b = both_fine (refuse_if (is_empty c.inventory_service_url) _) _ a.1 in
    let d = both_fine (refuse_if (is_empty c.payment_service_url) _) _ b.1 in
    (
      checks-IsComplete "ORDER_SERVER_PORT" c.order_common a.0 d.1,
      refused_not _ _ b.0,
      refused_not _ _ d.0,
    )
