-- ===== src/Collection.antt =====
-- The collection boundary (src/collection).
pub mod Dedup
pub mod Metrics
pub mod Archive
pub mod Rejected
pub mod Pipeline
pub mod Replay
pub mod Tcp
mod Examples
