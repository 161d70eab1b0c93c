-- ===== src/Order.antt =====
-- services/order/internal.
pub mod Domain
pub mod Saga
pub mod Rows
pub mod Service
pub mod Client
pub mod Orders
pub mod Handler
pub mod Terminal
pub mod Unreleased
pub mod Totals
pub mod Progress
pub mod Along
pub mod Agreement
pub mod Forward
pub mod Reads
