-- ===== src/Gateway.antt =====
-- The crate gateway: routing, limiting, authenticating and proxying requests.
pub mod Config
pub mod Router
pub mod Jwks
pub mod Requests
pub mod Limiter
pub mod Layers
pub mod Connections
mod Tests
