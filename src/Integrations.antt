-- ===== src/Integrations.antt =====
-- The output adapters (src/integrations).
pub mod Cef
pub mod Delivery
pub mod Bulk
pub mod OpenSearch
pub mod JsonOutput
pub mod Worker
mod Examples
