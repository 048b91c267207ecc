-- ===== src/Graph.antt =====
-- The packages/graph package: one module for each component of it.
pub mod RateLimiter
pub mod RetryAfter
pub mod RetryPolicy
pub mod ReliableTransport
pub mod Pagination
pub mod ErrorRegistry
pub mod Errors
pub mod PathTemplate
pub mod Endpoint
