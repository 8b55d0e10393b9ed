-- ===== src/Normalization.antt =====
-- src/normalization: the contract of a mapping (Models), the registry of mappings (Registry), the
-- vendors' mappings (Common, CiscoAsa, LinuxSyslog, FortiGate, Suricata) and the assembly of a
-- unified event (Normalizer).
pub mod Models
pub mod Registry
pub mod Common
pub mod CiscoAsa
pub mod LinuxSyslog
pub mod FortiGate
pub mod Suricata
pub mod Normalizer
pub mod Assembled
pub mod Sections
pub mod Quality
pub mod Soundness
pub mod Conformance
pub mod Told
pub mod Naive
pub mod Keeping
mod Examples
