-- ===== src/Lib.antt =====
-- Correctness of eventflow-commerce, a shop of microservices in Go that keep their state in postgres
-- and tell one another of it by events. A service writes its change and the event that announces it
-- in one transaction, the event as a row of an outbox; a consumer handles an event in one
-- transaction with the mark that it has been handled, so that an event may be delivered again.
--
-- The parts and their files:
-- - Common: Boolean tests, lists and machine integers, which every part shares.
-- - Errors (shared/libs/go/errors): the application errors and the result of a fallible call.
-- - Database: database/sql and postgres as the code uses them, which is the environment of the
--   model. `Prog` is the body of a transaction, statement by statement. `World` has the tables as
--   committed, as the open transaction sees them, the calls that reached another service, and the
--   behaviour of the server: each call may be answered, fail, or take effect with its reply lost,
--   as `replies` says by the number of calls made so far. Theorems range over all `replies` unless
--   they say otherwise. `in_tx` is the frame that every Go function repeats: begin, deferred
--   rollback, body, commit. Database/Atomic and Database/Preserves have the laws of transactions,
--   Database/Actions the sequencing of calls around them.
-- - Messaging (shared/libs/go/events, shared/libs/go/outbox): Outbox and Processed are the rows of
--   outbox/store.go and events/processed.go; Relay is outbox/relay.go (`relay_batch` is RelayBatch,
--   `relay_ticks` the loop of Start), Publisher and Subscriber are the two halves of
--   events/kafka.go. A service writes outbox rows in the transaction of a change, the relay
--   publishes them, and the subscriber hands them to the consumers of the other services.
-- - Resilience (shared/libs/go/resilience): `retry` is Retry, `backoff_delay` backoffDelay and
--   `execute` Execute.
-- - Inventory (services/inventory/internal): Domain is domain/stock.go; Rows has the tables of the
--   migrations and one definition for each SQL statement, its constraints included; Repository is
--   repository/stock.go (`reserve` is Reserve, `release_order` is Release, `commit_in_tx` is
--   CommitInTx); Service is service/stock.go and consumer/orders.go (`handle`). Counters sets the
--   statements against the methods of the domain; Catalogue is the products with service/product.go
--   (`get_product` is GetByID) and consumer/cache.go; Handler is handler/reservations.go and
--   Products handler/products.go. Invariant, Idempotence, Settlement, Redelivery and LateEvents prove what the tables keep.
-- - Payment (services/payment/internal): Aggregate is domain/payment.go, Codec is domain/events.go,
--   Store is eventstore and projection, Service is gateway/client.go, service/payment.go and
--   consumer/orders.go, Handler is handler/payments.go and repository/payment_status.go.
-- - Order (services/order/internal): Domain is domain/order.go, Saga is saga/state.go, Rows has the
--   statements of repository/order.go and repository/saga.go, Service is service/order.go and
--   consumer/payments.go (`handle_payment`). Terminal, Unreleased, Progress, Along, Forward,
--   Agreement and Totals have the proofs. The consumer's transaction stays open while the service reads through other
--   connections, commits the checkpoint of the compensation in a transaction of its own and calls
--   the inventory service: Database/Session has such transactions, which see the committed rows
--   under their own writes. Client is client/inventory.go and client/payment.go, over Resilience;
--   Orders is the rest of repository/order.go (`save_order` is Save); Handler is handler/orders.go
--   (`create`, `get` and `list_orders` are Create, Get and List), where no redis is configured;
--   Reads is GetByID with its cache (`read_order`), Get over it (`show_order`) and
--   consumer/cache.go (`drop_entry`).
-- - Gateway (services/api-gateway/internal/handler): of middleware.go, Middleware has the JWT middleware,
--   Limiter the rate limiter; of router.go, Routes has the table of routes with ServeMux, Proxy the
--   proxy (`proxy_to_service` is proxyToService), Address the address of the client and the forwarded
--   headers (`set_proxy_headers`), Span the names of spans. Server is server/server.go (`serve` is the
--   handler that NewServer builds); Server/Journey follows a request on to the order service.
-- - Config (shared/libs/go/config and the config/config.go of each service): `load_order`,
--   `load_payment`, `load_inventory` and `load_gateway` are the LoadConfig of the services; Config/Api
--   also has what NewRouter builds from a configuration.
-- - Tests: concrete runs.
--
-- A table is a list of rows; the tables of a service are a record. An identifier is a number, 0 for
-- the nil UUID; `uuid.New` is an argument. A Go int is an integer with its wrap-around written out;
-- the columns of INTEGER type refuse what does not fit. Loops of the code run over lists or over a
-- number of attempts, and are structural recursion. The endless loops of Start, Subscribe and
-- cleanup are run for a number of rounds, over which the theorems range; no other definition has
-- fuel. A function that changes its receiver returns the
-- new record. Timestamps are left out, except for the order that they give to the rows of the
-- outbox.
--
-- A transaction runs alone between its begin and its commit, as the row locks that its updates take
-- make it do for one product or one aggregate; interleavings of two transactions are not modelled.
-- Parameters are the text form of identifiers (`UuidText`, with the law that a written identifier
-- reads back), the circuit breaker of gobreaker (`admits` in the gateway of payments, `IsBreaker` in
-- the clients, with its documentation as the law), what another service replies (`replied`, and
-- `comes_back` for single requests), the brokers of Kafka and the reader of kafka-go (`Setting`,
-- `Outside`), encoding/json where bytes matter, the context and the timer (`Runtime`), golang-jwt,
-- filepath.Clean, url.PathUnescape, the token bucket of x/time/rate, the order in which Go walks a map, net.ParseIP,
-- net.SplitHostPort, url.Parse and viper (`Environment`). Redis is a list of entries that may lose any
-- entry and fail any call. Operations on a cache run one after another.
-- Not modelled: metrics, traces, logs and the wiring of the main packages.
pub mod Common
pub mod Errors
pub mod Config
pub mod Database
pub mod Messaging
pub mod Inventory
pub mod Payment
pub mod Resilience
pub mod Order
pub mod Gateway
pub mod Tests
