-- ===== src/Core/SourcePack.antt =====
-- What the core sees of a source pack (src/source_packs/loader.py, core/exceptions.py): its
-- attributes, and its two calls with the ways in which they end. Confidences are in millionths.
use ulpf_prism_sih.Prelude.{String, Bool, Option, Text}
use ulpf_prism_sih.Int.{ℤ}
use ulpf_prism_sih.Contracts.RawEvent.{RawEventEnvelope}
use ulpf_prism_sih.Contracts.ParsedEvent.{ParsedEvent}

-- What `detect` returns: a `bool`, a real number, another object, or an exception.
pub data Detection : Type 0 where
  verdict : Bool → Detection
  confidence : ℤ → Detection
  unusable : Detection
  detect_raised : Detection

-- An exception is a `ULPFError`, a `TransientProcessingError` or another one.
pub data ErrorKind : Type 0 where
  ulpf transient other : ErrorKind

-- What `parse` returns: an event, another object, or an exception with its text.
pub data Parsing : Type 0 where
  parsed : ParsedEvent → Parsing
  not_event : Parsing
  parse_raised : ErrorKind → Text → Parsing

-- A missing attribute is `none`.
pub record SourcePack : Type 0 where
  pub pack_id : String
  pub priority : ℤ
  pub vendor : Option String
  pub product : Option String
  pub pack_version : Option String
  pub metadata_vendor : Option String
  pub metadata_product : Option String
  pub metadata_version : Option String
  pub parser_id : Option String
  pub parser_version : Option String
  pub format_type : Option String
  pub detect : RawEventEnvelope → Detection
  pub parse : RawEventEnvelope → Parsing
