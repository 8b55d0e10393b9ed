-- ===== src/Streaming.antt =====
-- The streaming backbone (src/streaming).
pub mod Messages
pub mod Policy
pub mod Processors
pub mod Kafka
pub mod RetryWorker
mod Examples
