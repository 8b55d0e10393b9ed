-- ===== src/Core/Manifest/Pack.antt =====
-- core/source_pack.py: a pack made of a manifest, its detection and its parsing.
pub mod Valid
pub mod Explained
use Prim.Native.Char.{Char, code}
use Prim.Native.String.{◌++◌ as append}
use ulpf_prism_sih.Prelude.{
  ℕ, String, Bool, true, false, ◌&&◌, Option, none, some, List, [], ◌∷◌, ◌++◌, ◌==◌, if◌then◌else◌,
  Text, Bytes, codes,
}
use ulpf_prism_sih.Dict
use ulpf_prism_sih.Dict.{Dict}
use ulpf_prism_sih.Int.{ℤ, pos}
use ulpf_prism_sih.Json.{Json, null, boolean, int, float, str, arr, obj, nil, items, fields}
use ulpf_prism_sih.Python.{truthy, get}
use ulpf_prism_sih.Contracts.RawEvent.{RawEventEnvelope, raw_bytes, utc}
use ulpf_prism_sih.Contracts.Status.{ParseStatus, ParseIssueSeverity}
use ulpf_prism_sih.Contracts.ParsedEvent
use ulpf_prism_sih.Contracts.ParsedEvent.{ParsedEvent, ParseIssue}
use ulpf_prism_sih.Core.Parsers.{Result, returned, unreadable, broken, ◌>>=◌, Libraries, option}
use ulpf_prism_sih.Core.Parsers.Selection
use ulpf_prism_sih.Core.Parsers.Selection.{get_parser}
use ulpf_prism_sih.Core.SourcePack.{
  SourcePack, Parsing, parsed, parse_raised, ulpf, other, Detection, verdict, detect_raised,
}
use ulpf_prism_sih.Core.Manifest.{
  DetectionRule, FieldRule, ManifestPack, validate_manifest, detection_rules, field_rules, matches,
}

build :
    String
    → Dict Json
    → Json
    → Json
    → Json
    → Json
    → Json
    → Dict Json
    → Option (List DetectionRule)
    → Option (List FieldRule)
    → Option ManifestPack
build directory pack (str vendor) (str product) (str version) (int priority) (str type) format
      (some rules) (some fs) =
    some (record {
      pack_id = option "id" (str directory) pack;
      vendor = vendor;
      product = product;
      pack_version = version;
      priority = priority;
      detection_rules = rules;
      format_type = type;
      format_options = Dict.remove "type" format;
      field_rules = fs;
    })
build directory pack _ _ _ _ _ format _ _ = none

rules_of : Json → Option (List DetectionRule)
rules_of (arr vs) = detection_rules (items vs)
rules_of v = none

fields_of : Json → Option (List FieldRule)
fields_of (arr vs) = field_rules (items vs)
fields_of v = none

sections : String → Json → Json → Json → Json → Option ManifestPack
sections directory (obj pack) (obj detection) (obj format) fs =
    build directory (fields pack) (get "vendor" (fields pack)) (get "product" (fields pack))
      (get "pack_version" (fields pack)) (option "priority" (int (pos 0)) (fields detection))
      (get "type" (fields format)) (fields format)
      (rules_of (option "rules" (arr nil) (fields detection))) (fields_of fs)
sections directory _ _ _ fs = none

-- `__init__` behind the validation, with the name of the manifest's directory; an exception, or an
-- attribute of a type that it is not declared with, is `none`
unfoldable pub create : String → Dict Json → Option ManifestPack
unfolding build rules_of fields_of sections
create directory m =
    sections directory (get "pack" m) (get "detection" m) (get "format" m) (get "fields" m)

abbrev created : String → Option (Dict Json) → Option ManifestPack
created directory none = none
created directory (some m) = create directory m

-- `__init__`
unfoldable pub load : String → Json → Option ManifestPack
load directory manifest = created directory (validate_manifest manifest)

any_rule : Libraries → RawEventEnvelope → List DetectionRule → Result Bool
any_rule l e [] = returned false
any_rule l e (r ∷ rs) = do
  b ← matches l e r
  elim b [ true ↦ returned true | false ↦ any_rule l e rs ]

-- `detect`
unfoldable pub detect : Libraries → ManifestPack → RawEventEnvelope → Result Bool
unfolding any_rule
detect l pack e = any_rule l e pack.detection_rules

-- `dotted_path.split(".")`: the first part and the rest
abbrev in_first : Char → String × List String → String × List String
in_first c p = (String.◌∷◌ c p.0, p.1)

abbrev before : String × List String → String × List String
before p = ("", p.0 ∷ p.1)

unfoldable pub split_dots : String → String × List String
split_dots String.[] = ("", [])
split_dots (String.◌∷◌ c s) =
    let rest = split_dots s in if code c == b'.' then before rest else in_first c rest

-- the loop of `_extract`; Python's `None` is `null`
unfoldable pub walk : List String → Json → Json
walk [] current = current
walk (part ∷ parts) (obj fs) = walk parts (get part (fields fs))
walk (part ∷ parts) v = null

-- `_extract`
unfoldable pub extract : Dict Json → String → Json
extract d path = let parts = split_dots path in walk parts.1 (get parts.0 d)

-- what a field's rule makes of the parsed values: a value, or a `FieldExtractionError`
abbrev with_default : Json → Json → Json
with_default null default = default
with_default v default = v

abbrev required_value : Bool → Json → Option Json
required_value true null = none
required_value required v = some v

unfoldable pub field_value : Libraries → Dict Json → FieldRule → Option Json
field_value l values rule =
    required_value (truthy l.python rule.required)
      (with_default (extract values rule.source) rule.default)

abbrev extraction_failed : FieldRule → ParseIssue
extraction_failed rule = record {
  code = "FIELD_EXTRACTION_FAILED";
  message =
      codes "Required field '"
      ++ codes rule.name
      ++ codes "' not found (source="
      ++ codes rule.source
      ++ codes ")";
  severity = ParseIssueSeverity.error;
  field = some rule.name;
}

pub record Extracted : Type 0 where
  pub issues : List ParseIssue
  pub values : Dict Json

extracted : FieldRule → Option Json → Extracted → Extracted
extracted rule none x = record x { issues = x.issues ++ extraction_failed rule ∷ [] }
extracted rule (some v) x = record x { values = Dict.assign rule.name v x.values }

-- the loop over the rules
unfoldable pub extract_all : Libraries → Dict Json → List FieldRule → Extracted → Extracted
unfolding extracted
extract_all l values [] x = x
extract_all l values (r ∷ rs) x = extract_all l values rs (extracted r (field_value l values r) x)

abbrev pub status_of : List ParseIssue → ParseStatus
status_of [] = ParseStatus.success
status_of (i ∷ is) = ParseStatus.partial

unfoldable pub event_of :
    ℕ → ManifestPack → Option String → RawEventEnvelope → Extracted → ParsedEvent
event_of now pack id e x = record {
  contract_version = "1.0.0";
  event_id = e.event_id;
  parsed_at = record { instant = now; zone = utc };
  vendor = some pack.vendor;
  product = some pack.product;
  product_version = none;
  parser_id = append "core.parsers." pack.format_type;
  parser_version = "1.0.0";
  source_pack_id = id;
  source_pack_version = some pack.pack_version;
  detected_format = pack.format_type;
  status = status_of x.issues;
  issues = x.issues;
  extracted_fields = x.values;
  raw_event = e;
}

validated : Option ParsedEvent → Result ParsedEvent
validated none = broken (codes "validation error for ParsedEvent")
validated (some event) = returned event

-- the constructor refuses an id that is neither a text nor `None`
built : ℕ → ManifestPack → Json → RawEventEnvelope → Extracted → Result ParsedEvent
built now pack (str id) e x = validated (ParsedEvent.validate (event_of now pack (some id) e x))
built now pack null e x = validated (ParsedEvent.validate (event_of now pack none e x))
built now pack v e x = broken (codes "validation error for ParsedEvent")

raw_text : Libraries → Option Bytes → Result String
raw_text l none = broken (codes "raw payload is not valid base64")
raw_text l (some raw) = returned (l.decode_replace raw)

-- `parse`, at the instant that it reads
unfoldable pub parse : Libraries → ℕ → ManifestPack → RawEventEnvelope → Result ParsedEvent
unfolding built validated raw_text
parse l now pack e = do
  text ← raw_text l (raw_bytes e)
  values ← Selection.parse l (get_parser pack.format_type) text pack.format_options
  built now pack pack.pack_id e
      (extract_all l values pack.field_rules (record { issues = []; values = [] }))

abbrev detection : Result Bool → Detection
detection (returned b) = verdict b
detection r = detect_raised

abbrev parsing : Result ParsedEvent → Parsing
parsing (returned event) = parsed event
parsing (unreadable m) = parse_raised ulpf m
parsing (broken m) = parse_raised other m

-- the pack as the core sees it; its id is a text
unfoldable pub as_source_pack : Libraries → ℕ → String → ManifestPack → SourcePack
as_source_pack l now id pack = record {
  pack_id = id;
  priority = pack.priority;
  vendor = some pack.vendor;
  product = some pack.product;
  pack_version = some pack.pack_version;
  metadata_vendor = none;
  metadata_product = none;
  metadata_version = none;
  parser_id = none;
  parser_version = none;
  format_type = some pack.format_type;
  detect = λ e. detection (detect l pack e);
  parse = λ e. parsing (parse l now pack e);
}
