-- ===== src/Collection/Rejected.antt =====
-- src/collection/rejected.py: the durable log of rejected events, one file for each. The id and the
-- instant of a record come from outside; the sample is the bytes before their lossy decoding.
use ulpf_prism_sih.Prelude.{
  ℕ, String, Bool, Option, List, [], ◌∷◌, ltb, if◌then◌else◌, length, take, Bytes, str_eq,
}
use ulpf_prism_sih.Dict
use ulpf_prism_sih.Dict.{Dict}
use ulpf_prism_sih.Json.{Json}
use ulpf_prism_sih.Contracts.Platform.{Platform}
use ulpf_prism_sih.Contracts.RawEvent.{Transport}

pub record RejectedEventRecord : Type 0 where
  pub rejection_id : String
  pub rejected_at : ℕ
  pub transport : Transport
  pub source_ip : Option String
  pub source_id : Option String
  pub reason : String
  pub raw_size : ℕ
  pub raw_sha256 : String
  pub raw_sample : Bytes
  pub sample_truncated : Bool
  pub metadata : Dict Json

abbrev pub RejectedEventLog : Type 0
RejectedEventLog = Dict RejectedEventRecord

abbrev pub sample_bytes : ℕ
sample_bytes = 512

unfoldable pub rejected_record :
    Platform
    → String
    → ℕ
    → Bytes
    → Transport
    → String
    → Option String
    → Option String
    → Dict Json
    → RejectedEventRecord
rejected_record p id now raw transport reason source_ip source_id metadata = record {
  rejection_id = id;
  rejected_at = now;
  transport = transport;
  source_ip = source_ip;
  source_id = source_id;
  reason = reason;
  raw_size = length raw;
  raw_sha256 = p.hexdigest raw;
  raw_sample = take sample_bytes raw;
  sample_truncated = ltb sample_bytes (length raw);
  metadata = metadata;
}

-- the file that `record` writes
unfoldable pub write : RejectedEventRecord → RejectedEventLog → RejectedEventLog
write r log = Dict.assign r.rejection_id r log

unfoldable pub retrieve : RejectedEventLog → String → Option RejectedEventRecord
retrieve log id = Dict.lookup id log

unfoldable pub list_by_reason : RejectedEventLog → String → List RejectedEventRecord
list_by_reason [] reason = []
list_by_reason ((id, r) ∷ log) reason =
    let rest = list_by_reason log reason in if str_eq r.reason reason then r ∷ rest else rest
