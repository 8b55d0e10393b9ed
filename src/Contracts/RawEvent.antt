-- ===== src/Contracts/RawEvent.antt =====
-- src/contracts/raw_event.py: the envelope of a raw event and the validators that run on every
-- load. A `ValidationError` is `none`. Times are microseconds since the epoch.
pub mod Laws
use ulpf_prism_sih.Prelude.{
  ℕ, String, Bool, true, false, ◌&&◌, Option, none, some, List, [], ◌==◌, if◌then◌else◌, length,
  Text, Bytes, str_eq,
}
use ulpf_prism_sih.Dict.{Dict}
use ulpf_prism_sih.Json.{Json}
use ulpf_prism_sih.Contracts.Base64.{encode, decode}
use ulpf_prism_sih.Contracts.Platform.{Platform, is_sha256}

pub data Zone : Type 0 where
  naive utc shifted : Zone

pub record Timestamp : Type 0 where
  pub instant : ℕ
  pub zone : Zone

pub data Transport : Type 0 where
  udp tcp file api replay : Transport

pub record RawEventEnvelope : Type 0 where
  pub contract_version : String
  pub event_id : String
  pub ingested_at : Timestamp
  pub source_id : String
  pub source_ip : Option String
  pub transport : Transport
  pub raw_payload_b64 : Text
  pub raw_size : ℕ
  pub raw_sha256 : String
  pub collector_id : String
  pub collector_version : String
  pub metadata : Dict Json

-- `require_utc_timestamp`
abbrev pub is_utc : Zone → Bool
is_utc utc = true
is_utc _ = false

abbrev pub ip_accepted : Platform → Option String → Bool
ip_accepted p none = true
ip_accepted p (some ip) = p.valid_ip ip

-- `raw_bytes`; the `ValueError` of an invalid text is `none`
unfoldable pub raw_bytes : RawEventEnvelope → Option Bytes
raw_bytes e = decode e.raw_payload_b64

abbrev evidence_matches : Platform → RawEventEnvelope → Option Bytes → Bool
evidence_matches p e none = false
evidence_matches p e (some raw) = length raw == e.raw_size && str_eq (p.hexdigest raw) e.raw_sha256

-- `verify_evidence`
unfoldable pub verify_evidence : Platform → RawEventEnvelope → Bool
unfolding raw_bytes
verify_evidence p e = evidence_matches p e (raw_bytes e)

-- the field constraints and the validators, on fields of the right types
unfoldable pub validate : Platform → RawEventEnvelope → Option RawEventEnvelope
validate p e =
    if str_eq e.contract_version "1.0.0"
      && is_utc e.ingested_at.zone
      && ip_accepted p e.source_ip
      && is_sha256 e.raw_sha256
      && verify_evidence p e
    then some e
    else none

-- the envelope that `from_bytes` builds at an identity and an instant
unfoldable pub envelope_of :
    Platform
    → String
    → ℕ
    → Bytes
    → String
    → Transport
    → Option String
    → String
    → String
    → Dict Json
    → RawEventEnvelope
envelope_of p id now raw source_id transport source_ip collector_id collector_version metadata =
    record {
      contract_version = "1.0.0";
      event_id = id;
      ingested_at = record { instant = now; zone = utc };
      source_id = source_id;
      source_ip = source_ip;
      transport = transport;
      raw_payload_b64 = encode raw;
      raw_size = length raw;
      raw_sha256 = p.hexdigest raw;
      collector_id = collector_id;
      collector_version = collector_version;
      metadata = metadata;
    }

-- `from_bytes`: the constructor runs the validators
unfoldable pub from_bytes :
    Platform
    → String
    → ℕ
    → Bytes
    → String
    → Transport
    → Option String
    → String
    → String
    → Dict Json
    → Option RawEventEnvelope
unfolding validate envelope_of
from_bytes p id now raw source_id transport source_ip collector_id collector_version metadata =
    validate p (
      envelope_of p id now raw source_id transport source_ip collector_id collector_version
        metadata)
