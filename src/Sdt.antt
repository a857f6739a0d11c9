-- ===== src/Sdt.antt =====
-- pkg/solace/message/sdt/structured_data_types.go: structured data and its conversions.
pub mod Strconv
pub mod Data
pub mod Convert
pub mod Decimal
pub mod Conversion
pub mod MapAccess
pub mod StreamAccess
pub mod Retrieval
mod Tests
