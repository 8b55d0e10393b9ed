-- ===== src/Core/Manifest.antt =====
-- core/source_pack.py: a source pack that is described by its manifest. `yaml.safe_load` is outside;
-- keys of mappings are texts.
pub mod Pack
mod Examples
use Prim.Native.Char.{code}
use Prim.Native.String.{◌++◌ as append}
use ulpf_prism_sih.Prelude.{
  ℕ, String, Bool, true, false, ◌&&◌, not, Option, none, some, List, [], ◌∷◌, ◌++◌, ◌==◌,
  if◌then◌else◌, str_eq, Text, Bytes, codes,
}
use ulpf_prism_sih.Dict
use ulpf_prism_sih.Dict.{Dict}
use ulpf_prism_sih.Int.{ℤ, pos}
use ulpf_prism_sih.Json.{Json, null, boolean, int, float, str, arr, obj, nil, items, fields}
use ulpf_prism_sih.Python.{Python, truthy, get, str_of}
use ulpf_prism_sih.Python.Words.{strip, occurs}
use ulpf_prism_sih.Contracts.RawEvent.{RawEventEnvelope, raw_bytes, utc}
use ulpf_prism_sih.Contracts.Status.{ParseStatus, ParseIssueSeverity}
use ulpf_prism_sih.Contracts.ParsedEvent
use ulpf_prism_sih.Contracts.ParsedEvent.{ParsedEvent, ParseIssue}
use ulpf_prism_sih.Core.Parsers.{
  Result, returned, unreadable, broken, ◌>>=◌, Libraries, iterated, option,
}
use ulpf_prism_sih.Core.Parsers.Selection
use ulpf_prism_sih.Core.Parsers.Selection.{get_parser}
use ulpf_prism_sih.Core.SourcePack.{
  SourcePack, Parsing, parsed, parse_raised, ulpf, other, Detection, verdict, detect_raised,
}

-- `isinstance(value, str) and value.strip()`
abbrev pub is_filled : Json → Bool
is_filled (str s) = not (str_eq (strip s) "")
is_filled v = false

abbrev pub is_text : Json → Bool
is_text (str s) = true
is_text v = false

abbrev pub is_mapping : Json → Bool
is_mapping (obj fs) = true
is_mapping v = false

abbrev pub all_mappings : List Json → Bool
all_mappings [] = true
all_mappings (v ∷ vs) = is_mapping v && all_mappings vs

abbrev pub is_integer : Json → Bool
is_integer (int n) = true
is_integer v = false

abbrev pub are_mappings : Json → Bool
are_mappings (arr vs) = all_mappings (items vs)
are_mappings v = false

-- a field of the manifest has a text as its name and as its source
abbrev pub is_field : Json → Bool
is_field (obj fs) = is_text (get "name" (fields fs)) && is_text (get "source" (fields fs))
is_field v = false

abbrev pub all_fields : List Json → Bool
all_fields [] = true
all_fields (v ∷ vs) = is_field v && all_fields vs

-- the checks on the four sections, all of which are there
abbrev pub are_valid : Json → Json → Json → Json → Bool
are_valid (obj pack) (obj detection) (obj format) (arr fs) =
    all_mappings (items fs)
    && is_filled (get "vendor" (fields pack))
    && is_filled (get "product" (fields pack))
    && is_filled (get "pack_version" (fields pack))
    && is_integer (option "priority" (int (pos 0)) (fields detection))
    && are_mappings (option "rules" (arr nil) (fields detection))
    && is_filled (get "type" (fields format))
    && all_fields (items fs)
are_valid _ _ _ _ = false

-- `validate_manifest`; the `SourcePackValidationError` is `none`. A missing section is refused as one
-- of a wrong type is.
unfoldable pub validate_manifest : Json → Option (Dict Json)
validate_manifest (obj fs) =
    let m = fields fs in
    if are_valid (get "pack" m) (get "detection" m) (get "format" m) (get "fields" m)
    then some m
    else none
validate_manifest v = none

-- `DetectionRule`
pub record DetectionRule : Type 0 where
  pub type : Json
  pub target : Json
  pub pattern : Json
  pub any_of : Json
  pub equals : Json

unfoldable pub detection_rule : Dict Json → DetectionRule
detection_rule r = record {
  type = get "type" r;
  target = option "target" (str "raw_payload") r;
  pattern = get "pattern" r;
  any_of = option "any_of" (arr nil) r;
  equals = get "equals" r;
}

abbrev shown : Python → Json → Option String
shown py null = none
shown py v = some (str_of py v)

abbrev payload : Libraries → Option Bytes → Result (Option String)
payload l none = broken (codes "raw payload is not valid base64")
payload l (some raw) = returned (some (l.decode_replace raw))

-- `_resolve_target`
unfoldable pub resolve_target : Libraries → RawEventEnvelope → Json → Result (Option String)
resolve_target l e (str target) =
    if str_eq target "raw_payload"
    then payload l (raw_bytes e)
    else if str_eq target "source_ip"
    then returned e.source_ip
    else if str_eq target "content_type_hint"
    then returned (shown l.python (get target e.metadata))
    else if str_eq target "vendor_hint"
    then returned (shown l.python (get target e.metadata))
    else if str_eq target "product_hint"
    then returned (shown l.python (get target e.metadata))
    else returned none
resolve_target l e (arr vs) = broken (codes "unhashable type: 'list'")
resolve_target l e (obj fs) = broken (codes "unhashable type: 'dict'")
resolve_target l e v = returned none

-- `any(kw.lower() in value.lower() for kw in any_of)`
unfoldable pub any_keyword : Python → String → List Json → Result Bool
any_keyword py value [] = returned false
any_keyword py value (str kw ∷ kws) = elim (occurs (py.lower kw) (py.lower value)) [
  | true ↦ returned true
  | false ↦ any_keyword py value kws
]
any_keyword py value (v ∷ kws) = broken (codes "object has no attribute 'lower'")

abbrev is_match : Option (Dict Json) → Bool
is_match none = false
is_match (some groups) = true

abbrev equal_text : Json → String → Bool
equal_text (str s) value = str_eq value s
equal_text v value = false

matches_value : Libraries → DetectionRule → Json → String → Result Bool
matches_value l rule (str type) value =
    if str_eq type "regex"
    then (do m ← l.re_search rule.pattern value; returned (is_match m))
    else if str_eq type "keyword"
    then (do kws ← iterated rule.any_of; any_keyword l.python value kws)
    else returned (if str_eq type "equals" then equal_text rule.equals value else false)
matches_value l rule v value = returned false

abbrev on_target : Libraries → DetectionRule → Option String → Result Bool
on_target l rule none = returned false
on_target l rule (some value) = matches_value l rule rule.type value

-- `DetectionRule.matches`
unfoldable pub matches : Libraries → RawEventEnvelope → DetectionRule → Result Bool
unfolding matches_value
matches l e rule = do value ← resolve_target l e rule.target; on_target l rule value

-- `FieldRule`; its type is not used
pub record FieldRule : Type 0 where
  pub name : String
  pub source : String
  pub default : Json
  pub required : Json

-- `SourcePackBase`, its attributes. A manifest's id may be no text.
pub record ManifestPack : Type 0 where
  pub pack_id : Json
  pub vendor : String
  pub product : String
  pub pack_version : String
  pub priority : ℤ
  pub detection_rules : List DetectionRule
  pub format_type : String
  pub format_options : Dict Json
  pub field_rules : List FieldRule

unfoldable pub detection_rules : List Json → Option (List DetectionRule)
detection_rules [] = some []
detection_rules (obj fs ∷ vs) = elim (detection_rules vs) [
  | none ↦ none
  | some rules ↦ some (detection_rule (fields fs) ∷ rules)
]
detection_rules (v ∷ vs) = none

unfoldable pub field_rule : Json → Json → Dict Json → Option FieldRule
field_rule (str name) (str source) d = some (record {
  name = name;
  source = source;
  default = get "default" d;
  required = option "required" (boolean false) d;
})
field_rule _ _ d = none

abbrev pub with_rule : Option FieldRule → Option (List FieldRule) → Option (List FieldRule)
with_rule (some r) (some rs) = some (r ∷ rs)
with_rule _ _ = none

unfoldable pub field_rules : List Json → Option (List FieldRule)
unfolding field_rule
field_rules [] = some []
field_rules (obj fs ∷ vs) =
    with_rule (field_rule (get "name" (fields fs)) (get "source" (fields fs)) (fields fs))
      (field_rules vs)
field_rules (v ∷ vs) = none
