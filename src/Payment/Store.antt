-- ===== src/Payment/Store.antt =====
-- services/payment/internal/eventstore and services/payment/internal/projection.
pub mod Tables
pub mod Projection
pub mod Repository
pub mod Streams
pub mod Snapshots
pub mod Appending
pub mod Saving
pub mod Conflict
