-- ===== src/Publisher.antt =====
-- The publishers: internal/impl/publisher.
pub mod Basic
pub mod Backpressure
pub mod Direct
pub mod Request
pub mod Receipts
pub mod Persistent
