-- ===== src/Payment.antt =====
-- services/payment: the event-sourced payment aggregate, its event store and its use cases.
pub mod Aggregate
pub mod Codec
pub mod Store
pub mod Service
pub mod Handler
