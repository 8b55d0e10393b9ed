-- ===== src/Contracts/ParsedEvent.antt =====
-- src/contracts/parsed_event.py: the parsed event and its one validator.
use ulpf_prism_sih.Prelude.{
  ℕ, String, Bool, Option, none, some, List, [], ◌∷◌, ◌&&◌, if◌then◌else◌, str_eq, Text, codes,
}
use ulpf_prism_sih.Dict.{Dict}
use ulpf_prism_sih.Json.{Json}
use ulpf_prism_sih.Contracts.RawEvent.{RawEventEnvelope, Timestamp, utc}
use ulpf_prism_sih.Contracts.Status.{ParseStatus, ParseIssueSeverity}

pub record ParseIssue : Type 0 where
  pub code : String
  pub message : Text
  pub severity : ParseIssueSeverity
  pub field : Option String

pub record ParsedEvent : Type 0 where
  pub contract_version : String
  pub event_id : String
  pub parsed_at : Timestamp
  pub vendor : Option String
  pub product : Option String
  pub product_version : Option String
  pub parser_id : String
  pub parser_version : String
  pub source_pack_id : Option String
  pub source_pack_version : Option String
  pub detected_format : String
  pub status : ParseStatus
  pub issues : List ParseIssue
  pub extracted_fields : Dict Json
  pub raw_event : RawEventEnvelope

-- `verify_event_identity`
unfoldable pub verify_event_identity : ParsedEvent → Bool
verify_event_identity e = str_eq e.event_id e.raw_event.event_id

-- the constructor with its field constraint and its validator; a `ValidationError` is `none`
unfoldable pub validate : ParsedEvent → Option ParsedEvent
validate e = if str_eq e.contract_version "1.0.0" && verify_event_identity e then some e else none

-- `ParsedEvent.unrecognized`, at the instant that it reads
unfoldable pub unrecognized : ℕ → RawEventEnvelope → String → ParsedEvent
unrecognized now raw reason = record {
  contract_version = "1.0.0";
  event_id = raw.event_id;
  parsed_at = record { instant = now; zone = utc };
  vendor = none;
  product = none;
  product_version = none;
  parser_id = "ulpf.source-pack-registry";
  parser_version = "1.0.0";
  source_pack_id = none;
  source_pack_version = none;
  detected_format = "unknown";
  status = ParseStatus.unrecognized;
  issues =
      record {
        code = "NO_SOURCE_PACK_MATCH";
        message = codes reason;
        severity = ParseIssueSeverity.error;
        field = none;
      }
      ∷ [];
  extracted_fields = [];
  raw_event = raw;
}
