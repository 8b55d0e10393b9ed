-- ===== src/Pipeline.antt =====
-- src/pipeline: the in-memory event store (Visibility) and the runner of all stages (Runner).
pub mod Visibility
pub mod Runner
mod Examples
