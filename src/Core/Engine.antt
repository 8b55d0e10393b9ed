-- ===== src/Core/Engine.antt =====
-- core/engine.py: the parsing engine over a list of packs. The registry's `match` catches every
-- exception of a pack, so the first handler of `process` is never entered.
pub mod Identity
use ulpf_prism_sih.Prelude.{
  ℕ, String, Bool, Option, none, some, List, [], ◌∷◌, ◌++◌, ◌&&◌, if◌then◌else◌, str_eq, Text,
  codes,
}
use Prim.Native.String
use ulpf_prism_sih.Contracts.RawEvent.{RawEventEnvelope, utc}
use ulpf_prism_sih.Contracts.Status.{ParseStatus, ParseIssueSeverity}
use ulpf_prism_sih.Contracts.ParsedEvent.{ParsedEvent, unrecognized}
use ulpf_prism_sih.Core.SourcePack.{
  SourcePack, ErrorKind, ulpf, transient, other, Parsing, parsed, not_event, parse_raised,
}
use ulpf_prism_sih.Core.Registry.{match}

-- Python's `a or b` on optional texts: an empty text counts as missing
abbrev or_option : Option String → Option String → Option String
or_option none b = b
or_option (some s) b = if str_eq s "" then b else some s

abbrev or_text : Option String → String → String
or_text none b = b
or_text (some s) b = if str_eq s "" then b else s

-- `_failed_event`, at the instant that it reads
unfoldable pub failed_event : ℕ → RawEventEnvelope → Text → SourcePack → ParsedEvent
failed_event now e reason pack =
    let pack_version = or_option pack.pack_version pack.metadata_version in
    record {
      contract_version = "1.0.0";
      event_id = e.event_id;
      parsed_at = record { instant = now; zone = utc };
      vendor = or_option pack.vendor pack.metadata_vendor;
      product = or_option pack.product pack.metadata_product;
      product_version = none;
      parser_id = or_text pack.parser_id (String.◌++◌ pack.pack_id ".parser");
      parser_version = or_text pack.parser_version (or_text pack_version "1.0.0");
      source_pack_id = some pack.pack_id;
      source_pack_version = pack_version;
      detected_format = or_text pack.format_type "unknown";
      status = ParseStatus.failed;
      issues =
          record {
            code = "SOURCE_PACK_FAILED";
            message = reason;
            severity = ParseIssueSeverity.error;
            field = none;
          }
          ∷ [];
      extracted_fields = [];
      raw_event = e;
    }

unexpected : Text → Text
unexpected message = codes "unexpected_error: " ++ message

-- the checks on what a pack returned, and the two handlers
accept : ℕ → RawEventEnvelope → SourcePack → Parsing → ParsedEvent
accept now e pack (parsed event) =
    if str_eq event.raw_event.event_id e.event_id && str_eq event.raw_event.raw_sha256 e.raw_sha256
    then event
    else failed_event now e
        (unexpected (codes "Source Pack output does not reference the input raw event")) pack
accept now e pack not_event =
    failed_event now e (unexpected (codes "Source Pack parse() must return canonical ParsedEvent"))
      pack
accept now e pack (parse_raised ulpf message) = failed_event now e message pack
accept now e pack (parse_raised transient message) = failed_event now e (unexpected message) pack
accept now e pack (parse_raised other message) = failed_event now e (unexpected message) pack

with_pack : ℕ → RawEventEnvelope → Option SourcePack → ParsedEvent
with_pack now e none = unrecognized now e "no matching source pack"
with_pack now e (some pack) = accept now e pack (pack.parse e)

-- `process`
unfoldable pub process : List SourcePack → ℕ → RawEventEnvelope → ParsedEvent
unfolding with_pack accept unexpected
process packs now e = with_pack now e (match packs e)
