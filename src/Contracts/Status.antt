-- ===== src/Contracts/Status.antt =====
-- The enumerations of src/contracts/parsed_event.py.
pub data ParseStatus : Type 0 where
  success partial failed unrecognized : ParseStatus

pub data ParseIssueSeverity : Type 0 where
  warning error critical : ParseIssueSeverity
