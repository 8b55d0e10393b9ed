-- ===== src/Storage/Sink.antt =====
-- src/storage/worker.py: the decision for one normalized event. `json.loads` is a parameter, where a
-- decoding or syntax error is `none`.
pub mod Durable
use ulpf_prism_sih.Prelude.{
  ℕ, String, Bool, true, false, Option, none, some, List, [], ◌∷◌, ◌++◌, ltb, if◌then◌else◌, Text,
  Bytes, codes,
}
use ulpf_prism_sih.Json.{Json, null, boolean, int, float, str, arr, obj, fields}
use ulpf_prism_sih.Storage.ClickHouse.{
  Checks, Faults, Tables, WriteResult, write_batch, quarantine_payload,
}

pub record StorageDecision : Type 0 where
  pub acknowledge : Bool
  pub retryable : Bool
  pub error_code : Option String
  pub error_message : Option Text

abbrev pub Loads : Type 0
Loads = Bytes → Option Json

-- `"; ".join(errors)`
abbrev join : List Text → Text
join [] = []
join (e ∷ []) = e
join (e ∷ f ∷ more) = e ++ codes "; " ++ join (f ∷ more)

abbrev write_failed : WriteResult → StorageDecision
write_failed r = record {
  acknowledge = false;
  retryable = true;
  error_code = some "STORAGE_WRITE_FAILED";
  error_message = some (join r.errors);
}

abbrev acknowledged : Option String → StorageDecision
acknowledged code = record {
  acknowledge = true;
  retryable = false;
  error_code = code;
  error_message = none;
}

judge : WriteResult → StorageDecision
judge r =
    if ltb 0 r.failed_count
    then write_failed r
    else if ltb 0 r.quarantine_count
    then acknowledged (some "INVALID_NORMALIZED_CONTRACT")
    else acknowledged none

judge_batch : Option WriteResult × Tables → Option StorageDecision × Tables
judge_batch (none, t) = (none, t)
judge_batch (some r, t) = (some (judge r), t)

judge_quarantine : String → WriteResult × Tables → Option StorageDecision × Tables
judge_quarantine error_code (r, t) =
    (some (if ltb 0 r.failed_count then write_failed r else acknowledged (some error_code)), t)

-- `_quarantine`
quarantine : Checks → Faults → Bytes → String → Tables → Option StorageDecision × Tables
unfolding judge_quarantine
quarantine k f payload error_code t =
    judge_quarantine error_code (quarantine_payload k f payload error_code t)

by_value : Checks → Faults → Bytes → Option Json → Tables → Option StorageDecision × Tables
by_value k f payload none t = quarantine k f payload "INVALID_NORMALIZED_JSON" t
by_value k f payload (some (obj fs)) t = judge_batch (write_batch k f (fields fs ∷ []) t)
by_value k f payload (some _) t = quarantine k f payload "INVALID_NORMALIZED_CONTRACT" t

-- `process`; `none` where it raises
unfoldable pub process : Checks → Faults → Loads → Bytes → Tables → Option StorageDecision × Tables
unfolding by_value quarantine judge_batch judge
process k f loads payload t = by_value k f payload (loads payload) t
