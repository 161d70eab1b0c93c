-- ===== src/Inventory.antt =====
-- services/inventory: stock counters, reservations and their reaction to the events of orders.
pub mod Domain
pub mod Rows
pub mod Repository
pub mod Counters
pub mod Catalogue
pub mod Handler
pub mod Products
pub mod Service
pub mod Invariant
pub mod Idempotence
pub mod Settlement
pub mod Redelivery
pub mod LateEvents
