-- ===== src/Records.antt =====
-- The files of crates/tsoracle-driver-file/src as bytes: record.rs, framed_record.rs, dense_record.rs,
-- lease_record.rs, validation.rs, and what driver.rs opens. `crc32c` is a parameter.
pub mod Bytes
pub mod Utf8
pub mod HighWater
pub mod Framed
pub mod Dense
pub mod Leases
pub mod Validation
pub mod Files
mod Tests
