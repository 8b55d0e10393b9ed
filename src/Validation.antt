-- ===== src/Validation.antt =====
-- src/validation: issues of an event (Issue), the semantic rules (Semantics) and the validation of
-- an event and of a file (Events).
pub mod Issue
pub mod Semantics
pub mod Events
