-- ===== src/Core.antt =====
-- The packages/core package: what an update from a webhook meets, listeners and handlers.
pub mod Listener
pub mod Router
pub mod Dispatch
pub mod Filters
