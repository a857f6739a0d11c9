-- ===== src/Receiver.antt =====
-- The receivers: internal/impl/receiver.
pub mod Basic
pub mod Topics
pub mod Direct
pub mod Persistent
pub mod Termination
