-- ===== src/Core.antt =====
-- The parsing core (core): the registry of source packs and the engine.
pub mod SourcePack
pub mod Parsers
pub mod Manifest
pub mod Registry
pub mod Engine
mod Examples
