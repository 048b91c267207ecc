-- ===== src/Http.antt =====
-- The packages/http package: what receives webhooks.
pub mod Signature
pub mod Challenge
pub mod Envelope
pub mod AdapterConfig
pub mod Adapter
pub mod Wrappers
