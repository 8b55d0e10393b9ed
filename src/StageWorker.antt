-- ===== src/StageWorker.antt =====
-- files/worker.py: the worker of a stage.
pub mod Message
pub mod Processing
pub mod Loop
mod Examples
