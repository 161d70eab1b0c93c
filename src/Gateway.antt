-- ===== src/Gateway.antt =====
-- services/api-gateway/internal/handler.
pub mod Middleware
pub mod Limiter
pub mod Proxy
pub mod Routes
pub mod Address
pub mod Server
pub mod Span
