-- ===== src/Normalization/Normalizer.antt =====
-- src/normalization/normalizer.py, on extracted fields that are JSON values. A call that raises is
-- `none`; the clock's answer is an argument.
use Prim.Native.String.{◌++◌ as append}
use ulpf_prism_sih.Prelude.{
  ℕ, String, Bool, true, false, not, ◌&&◌, Option, none, some, List, [], ◌∷◌, ◌++◌, map, max, ltb,
  if◌then◌else◌, str_eq, Bytes,
}
use ulpf_prism_sih.Dict
use ulpf_prism_sih.Dict.{Dict}
use ulpf_prism_sih.Json.{
  Json, null, float, str, arr, obj, Items, nil, cons, Fields, end, field, of_dict, of_list,
}
use ulpf_prism_sih.Python.{Python, string, update}
use ulpf_prism_sih.Python.Ordered.{sorted_texts, unique}
use ulpf_prism_sih.Python.Words.{words, named, is_semver}
use ulpf_prism_sih.Contracts.Platform.{Platform}
use ulpf_prism_sih.Contracts.RawEvent.{Timestamp, Zone, naive, raw_bytes}
use ulpf_prism_sih.Contracts.Status.{ParseStatus}
use ulpf_prism_sih.Contracts.ParsedEvent.{ParsedEvent, ParseIssue}
use ulpf_prism_sih.Normalization.Models.{MappingResult, NormalizationMapping, ◌>>=◌}
use ulpf_prism_sih.Normalization.Registry
use ulpf_prism_sih.Normalization.Registry.{Mappings}
use ulpf_prism_sih.Normalization.Common.{severity, action_section}
use ulpf_prism_sih.Validation.Issue.{ValidationIssue, is_valid}
use ulpf_prism_sih.Validation.Events.{validate_event}

-- `_utc_z`
unfoldable pub utc_z : Python → ℕ → String
utc_z py t = append (py.isoformat t) "Z"

abbrev or_zero : Bool → String → String
or_zero b v = if b then v else "0.0.0"

-- `_safe_version`
unfoldable pub safe_version : Option String → String
safe_version none = "0.0.0"
safe_version (some v) = or_zero (is_semver v) v

-- `value or default`
abbrev pub text_or : String → Option String → String
text_or default none = default
text_or default (some String.[]) = default
text_or default (some (String.◌∷◌ c s)) = String.◌∷◌ c s

-- `_namespace`
unfoldable pub namespace : Python → Option String → String
namespace py value = named (words (py.lower (text_or "unknown_source" value))) "unknown_source"

-- `_json_value` on a JSON value
unfoldable mutual
  pub json_value : Json → Json
  json_value (arr vs) = arr (json_values vs)
  json_value (obj fs) = obj (json_fields fs)
  json_value v = v

  pub json_values : Items → Items
  json_values nil = nil
  json_values (cons v vs) = cons (json_value v) (json_values vs)

  pub json_fields : Fields → Fields
  json_fields end = end
  json_fields (field k v fs) = field k (json_value v) (json_fields fs)

abbrev pub is_nil : List String → Bool
is_nil [] = true
is_nil (x ∷ xs) = false

-- `_quality_status`
unfoldable pub quality_status : ParseStatus → List String → List String → String
quality_status ParseStatus.failed missing warnings = "invalid"
quality_status ParseStatus.unrecognized missing warnings = "unknown"
quality_status ParseStatus.partial missing warnings = "partial"
quality_status ParseStatus.success missing warnings =
    if is_nil missing && is_nil warnings then "valid" else "partial"

-- `_confidence`
unfoldable pub confidence : ParseStatus → List String → List String → String
confidence ParseStatus.failed missing warnings = "0.0"
confidence ParseStatus.unrecognized missing warnings = "0.0"
confidence ParseStatus.partial missing warnings = "0.5"
confidence ParseStatus.success missing warnings =
    if is_nil missing && is_nil warnings then "1.0" else "0.5"

-- `_unknown_mapping`
unfoldable pub unknown_mapping : MappingResult
unknown_mapping = record {
  event =
      ("category", str "unknown")
      ∷ ("type", str "unmapped_event")
      ∷ ("name", str "Unmapped source event")
      ∷ [];
  observer = ("type", str "unknown") ∷ [];
  action = action_section "unknown" ("unknown", "unknown");
  severity = severity "unknown" 0 "unknown";
  source = none;
  destination = none;
  network = none;
  threat = none;
  authentication = none;
  http = none;
  observed_at = none;
  consumed_fields = [];
  missing_fields = "normalization.mapping" ∷ [];
  warnings = "No normalization mapping is registered for this Source Pack" ∷ [];
}

abbrev pub mapped_by : Option NormalizationMapping → ParsedEvent → Option MappingResult
mapped_by none e = some unknown_mapping
mapped_by (some m) e = m.map_event e

abbrev mapping_name : Option NormalizationMapping → String
mapping_name none = "unknown"
mapping_name (some m) = m.source_pack_id

abbrev mapping_version : Option NormalizationMapping → String
mapping_version none = "0.0.0"
mapping_version (some m) = m.version

-- a note on an attribute that is `None`
abbrev pub if_absent : Option String → String → List String
if_absent none note = note ∷ []
if_absent (some s) note = []

-- a note on a version that was replaced
abbrev if_replaced : Option String → String → List String
if_replaced (some v) note =
    if str_eq (safe_version (some v)) "0.0.0" && not (str_eq v "0.0.0") then note ∷ [] else []
if_replaced none note = note ∷ []

unfoldable pub missing_of : ParsedEvent → MappingResult → List String
missing_of e m =
    m.missing_fields
    ++ if_absent e.vendor "observer.vendor"
    ++ if_absent e.product "observer.product"

unfoldable pub messages : List ParseIssue → List String
messages [] = []
messages (i ∷ is) = string i.message ∷ messages is

unfoldable pub warnings_of : ParsedEvent → MappingResult → List String → List String
unfolding messages safe_version
warnings_of e m late =
    m.warnings
    ++ messages e.issues
    ++ if_absent e.vendor "Source vendor was not identified"
    ++ if_absent e.product "Source product was not identified"
    ++ if_replaced e.source_pack_version "Source Pack version was missing or invalid"
    ++ if_replaced (some e.parser_version) "Parser version was missing or invalid"
    ++ late

-- The instants of an event, and the warning about its source's clock.
pub record Times : Type 0 where
  pub observed : ℕ
  pub ingested : ℕ
  pub normalized : ℕ
  pub late : List String

abbrev pub is_naive : Zone → Bool
is_naive naive = true
is_naive _ = false

-- `observed_at > ingested_at`, where the ingestion time is aware
abbrev compared : ℕ → ℕ → Option Timestamp → Option Times
compared i n none = some (record { observed = i; ingested = i; normalized = n; late = [] })
compared i n (some t) =
    if is_naive t.zone
    then none
    else if ltb i t.instant
    then some (record {
      observed = i;
      ingested = i;
      normalized = n;
      late = "Source timestamp was later than ingestion time and was not trusted" ∷ [];
    })
    else some (record { observed = t.instant; ingested = i; normalized = n; late = [] })

-- Python compares a naive time with an aware one by raising a `TypeError`.
unfoldable pub times : ℕ → Timestamp → Timestamp → Option Timestamp → Option Times
times now parsed_at ingested_at observed_at =
    if is_naive parsed_at.zone
    then none
    else if is_naive ingested_at.zone
    then none
    else compared ingested_at.instant (max now (max parsed_at.instant ingested_at.instant))
        observed_at

abbrev option_text : Option String → Json
option_text none = null
option_text (some s) = str s

abbrev pub texts : List String → Json
texts xs = arr (of_list (map str xs))

abbrev raw_entry : Option String → Dict Json
raw_entry none = []
raw_entry (some s) =
    (
      "raw_event",
      obj (
          of_dict (
            ("encoding", str "utf-8")
            ∷ ("content_type", str "text/plain")
            ∷ ("content", str s)
            ∷ [])),
    )
    ∷ []

unfoldable pub traceability : ParsedEvent → Option String → Dict Json
traceability e raw_text =
    ("raw_event_id", str e.raw_event.event_id)
    ∷ ("raw_sha256", str e.raw_event.raw_sha256)
    ∷ (
      "source_pack",
      obj (
          of_dict (
            ("name", str (text_or "unknown_source_pack" e.source_pack_id))
            ∷ ("version", str (safe_version e.source_pack_version))
            ∷ [])),
    )
    ∷ (
      "parser",
      obj (
          of_dict (
            ("name", str e.parser_id)
            ∷ ("version", str (safe_version (some e.parser_version)))
            ∷ [])),
    )
    ∷ raw_entry raw_text

unfoldable pub quality : ParseStatus → List String → List String → Dict Json
unfolding quality_status confidence
quality status missing warnings =
    ("status", str (quality_status status missing warnings))
    ∷ ("parsing_confidence", float (confidence status missing warnings))
    ∷ ("missing_fields", texts (sorted_texts missing))
    ∷ ("warnings", texts (unique warnings))
    ∷ []

-- the extracted fields under the pack's namespace, and the framework's own under `ulpf`
unfoldable pub extensions : Python → ParsedEvent → Option NormalizationMapping → Dict Json
extensions py e m =
    Dict.assign "ulpf"
      (obj (
        of_dict (
          (
            "mapping",
            obj (
                of_dict
                  (("name", str (mapping_name m)) ∷ ("version", str (mapping_version m)) ∷ [])),
          )
          ∷ (
            "normalizer",
            obj (of_dict (("name", str "universal_normalizer") ∷ ("version", str "1.0.0") ∷ [])),
          )
          ∷ (
            "received_versions",
            obj (
                of_dict (
                  ("source_pack", option_text e.source_pack_version)
                  ∷ ("parser", str e.parser_version)
                  ∷ [])),
          )
          ∷ [])))
      ((namespace py e.source_pack_id, obj (json_fields (of_dict e.extracted_fields))) ∷ [])

-- `unified[section] = value`, if there is a value that is not empty
abbrev pub with_section : String → Option (Dict Json) → Dict Json → Dict Json
with_section k none d = d
with_section k (some []) d = d
with_section k (some (kv ∷ s)) d = Dict.assign k (obj (of_dict (kv ∷ s))) d

unfoldable pub unify :
    Python
    → ParsedEvent
    → Option NormalizationMapping
    → MappingResult
    → Times
    → Option String
    → Dict Json
unfolding utc_z extensions quality traceability missing_of warnings_of
unify py e mapping m t raw_text = with_section "http" m.http (
    with_section "authentication" m.authentication (
      with_section "threat" m.threat (
        with_section "network" m.network (
          with_section "destination" m.destination (
            with_section "source" m.source (
              ("schema_version", str "1.0.0")
              ∷ (
                "event",
                obj (
                    of_dict (update (("id", str e.event_id) ∷ ("kind", str "event") ∷ []) m.event)),
              )
              ∷ (
                "time",
                obj (
                    of_dict (
                      ("observed_at", str (utc_z py t.observed))
                      ∷ ("ingested_at", str (utc_z py t.ingested))
                      ∷ ("normalized_at", str (utc_z py t.normalized))
                      ∷ [])),
              )
              ∷ (
                "observer",
                obj (
                    of_dict (
                      update
                        (("vendor", str (text_or "unknown" e.vendor))
                          ∷ ("product", str (text_or "unknown" e.product))
                          ∷ [])
                        m.observer)),
              )
              ∷ ("action", obj (of_dict m.action))
              ∷ ("severity", obj (of_dict m.severity))
              ∷ ("traceability", obj (of_dict (traceability e raw_text)))
              ∷ (
                "quality",
                obj (of_dict (quality e.status (missing_of e m) (warnings_of e m t.late))),
              )
              ∷ ("extensions", obj (of_dict (extensions py e mapping)))
              ∷ []))))))

abbrev pub described : List ValidationIssue → List String
described [] = []
described (i ∷ is) = append i.path (append ": " i.message) ∷ described is

-- the quality of an event that does not validate
unfoldable pub invalidated : List String → Dict Json → List ValidationIssue → Dict Json
invalidated warnings q issues =
    Dict.assign "warnings" (texts (warnings ++ described issues))
      (Dict.assign "status" (str "invalid") q)

-- `raw_bytes().decode("utf-8")`: the `ValueError` of the encoding is `none`
abbrev pub raw_text_of : Python → Option Bytes → Option (Option String)
raw_text_of py none = none
raw_text_of py (some raw) = some (py.decode raw)

module _ (p : Platform) (py : Python) (structure : Dict Json → List ValidationIssue) where
  unfoldable pub checked : ParsedEvent → MappingResult → Times → Dict Json → Dict Json
  unfolding invalidated
  checked e m t unified =
      let issues = validate_event p py structure unified in
      let warnings = warnings_of e m t.late in
      if is_valid issues
      then unified
      else Dict.assign "quality"
          (obj (
            of_dict
              (invalidated (unique warnings) (quality e.status (missing_of e m) warnings) issues)))
          unified

  -- `normalize`
  unfoldable pub normalize : Mappings → ℕ → ParsedEvent → Option (Dict Json)
  unfolding checked unify times
  normalize r now e = do
    let mapping = Registry.get e.source_pack_id r
    m ← mapped_by mapping e
    t ← times now e.parsed_at e.raw_event.ingested_at m.observed_at
    raw_text ← raw_text_of py (raw_bytes e.raw_event)
    some (checked e m t (unify py e mapping m t raw_text))
