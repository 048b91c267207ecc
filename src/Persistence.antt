-- ===== src/Persistence.antt =====
-- The packages/persistence package: the SQLite store, its tables and what works on them.
pub mod Validation
pub mod Table
pub mod Messages
pub mod ServiceRequests
pub mod MessageList
pub mod OutboxRun
pub mod OutboxWorker
pub mod Outbox
pub mod ConversationWindow
pub mod WebhookEvents
