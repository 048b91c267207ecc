-- ===== src/Service.antt =====
-- The packages/service package: the HTTP service over the Graph client, the webhooks and the store.
pub mod JsonText
pub mod KeyedSend
pub mod Canonical
pub mod DedupKeys
pub mod Projection
pub mod Webhook
