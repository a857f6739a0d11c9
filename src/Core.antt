-- ===== src/Core.antt =====
-- internal/impl/core: the layer between the messaging API and the C library.
pub mod Correlation
pub mod Events
pub mod Acknowledgements
pub mod Requestor
pub mod Pending
pub mod Receiver
pub mod Provisioner
pub mod Metrics
pub mod Cache
pub mod Writability
mod Tests
