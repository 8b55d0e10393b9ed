-- ===== src/Contracts.antt =====
-- The contracts shared by the processing stages (src/contracts).
pub mod Base64
pub mod Platform
pub mod RawEvent
pub mod Status
pub mod ParsedEvent
mod Examples
