-- ===== src/Tests.antt =====
-- Concrete runs: a shop with one product, and a payment.
pub mod Stock
pub mod Payments
pub mod Orders
pub mod Delivery
pub mod Placing
pub mod Gateway
pub mod Journey
pub mod Configuration
pub mod Catalogue
