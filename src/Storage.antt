-- ===== src/Storage.antt =====
-- The analytical store (src/storage).
pub mod ClickHouse
pub mod Sink
mod Examples
