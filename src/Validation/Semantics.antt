-- ===== src/Validation/Semantics.antt =====
-- src/validation/semantic_validation.py: each rule reads the sections of an event that it needs.
use Prim.Native.Char.{code}
use Prim.Native.String.{◌++◌ as append}
use ulpf_prism_sih.Prelude.{
  ℕ, String, Bool, true, false, not, ◌&&◌, ◌||◌, Option, none, some, List, [], ◌∷◌, ◌++◌, leb, ◌==◌,
  if◌then◌else◌, str_eq,
}
use ulpf_prism_sih.Decimal.{show}
use ulpf_prism_sih.Dict
use ulpf_prism_sih.Dict.{Dict}
use ulpf_prism_sih.Int.{pos}
use ulpf_prism_sih.Json.{Json, null, int, str, obj, fields}
use ulpf_prism_sih.Python.{Python, encode, string, truthy, get}
use ulpf_prism_sih.Python.Words.{is_snake_case}
use ulpf_prism_sih.Contracts.Platform.{Platform}
use ulpf_prism_sih.Contracts.RawEvent.{Timestamp}
use ulpf_prism_sih.Validation.Issue.{ValidationIssue, canonical}

-- `_issue`
unfoldable pub issue : String → String → String → ValidationIssue
issue p r m = record { path = p; rule = r; message = m }

-- one issue if the test holds
abbrev pub report : Bool → ValidationIssue → List ValidationIssue
report b i = if b then i ∷ [] else []

-- `event.get(key)`, if it is a `Mapping`
abbrev pub section : Option Json → Option (Dict Json)
section (some (obj fs)) = some (fields fs)
section _ = none

-- `event.get(key, {})`, if it is a `Mapping`
abbrev pub section_or_empty : Option Json → Option (Dict Json)
section_or_empty none = some []
section_or_empty (some (obj fs)) = some (fields fs)
section_or_empty (some v) = none

-- `value == text`
abbrev pub is_text : String → Json → Bool
is_text t (str s) = str_eq s t
is_text t v = false

-- `value.endswith("Z")`
unfoldable pub ends_in_z : String → Bool
ends_in_z String.[] = false
ends_in_z (String.◌∷◌ c String.[]) = code c == b'Z'
ends_in_z (String.◌∷◌ c (String.◌∷◌ d s)) = ends_in_z (String.◌∷◌ d s)

-- `value[:-1]`
unfoldable pub but_last : String → String
but_last String.[] = ""
but_last (String.◌∷◌ c String.[]) = ""
but_last (String.◌∷◌ c (String.◌∷◌ d s)) = String.◌∷◌ c (but_last (String.◌∷◌ d s))

-- `_parse_utc`
unfoldable pub parse_utc : Python → Json → Option Timestamp
unfolding ends_in_z but_last
parse_utc py (str s) = if ends_in_z s then py.fromisoformat (append (but_last s) "+00:00") else none
parse_utc py v = none

unfoldable pub timestamp_order :
    Option Timestamp → Option Timestamp → Option Timestamp → List ValidationIssue
unfolding issue
timestamp_order (some o) (some i) (some n) =
    report (not (leb o.instant i.instant && leb i.instant n.instant))
      (issue "$.time" "timestamp_order" "must satisfy observed_at <= ingested_at <= normalized_at")
timestamp_order _ _ _ = []

unfoldable pub time_rule : Python → Option (Dict Json) → List ValidationIssue
unfolding timestamp_order parse_utc
time_rule py none = []
time_rule py (some t) =
    timestamp_order (parse_utc py (get "observed_at" t)) (parse_utc py (get "ingested_at" t))
      (parse_utc py (get "normalized_at" t))

-- `event_meta.get("category")`
abbrev pub category_of : Option (Dict Json) → Json
category_of none = null
category_of (some d) = get "category" d

abbrev pub has_ip : Python → Option (Dict Json) → Bool
has_ip py none = false
has_ip py (some d) = truthy py (get "ip" d)

unfoldable pub endpoint_rule : Python → String → Json → Option (Dict Json) → List ValidationIssue
unfolding issue
endpoint_rule py name category endpoint =
    report (is_text "network" category && not (has_ip py endpoint)) (
      issue (append "$." (append name ".ip")) "network_endpoint"
        "network events require an IP address")

abbrev pub is_some : Option (Dict Json) → Bool
is_some none = false
is_some (some d) = true

-- a category that requires a section
unfoldable pub section_rule :
    String → String → String → Json → Option (Dict Json) → List ValidationIssue
unfolding issue
section_rule name path message category given =
    report (is_text name category && not (is_some given))
      (issue path "category_requirement" message)

abbrev is_refusal : Json → Bool
is_refusal a = is_text "deny" a || is_text "block" a

unfoldable pub action_rule : Option (Dict Json) → List ValidationIssue
unfolding issue
action_rule none = []
action_rule (some a) =
    report (is_refusal (get "normalized" a) && is_text "success" (get "outcome" a)) (
      issue "$.action.outcome" "action_consistency"
        "deny and block actions cannot have success outcome")

-- the label that a severity requires
unfoldable pub expected_label : ℕ → String
expected_label n =
    if n == 0
    then "informational"
    else if leb n 3
    then "low"
    else if leb n 6
    then "medium"
    else if leb n 8
    then "high"
    else "critical"

unfoldable pub label_rule : Json → Json → List ValidationIssue
unfolding issue
label_rule (int (pos n)) label =
    report (leb n 10 && not (is_text "unknown" label) && not (is_text (expected_label n) label)) (
      issue "$.severity.label" "severity_consistency" (
        append "normalized severity "
          (append (string (show n)) (append " requires label " (expected_label n)))))
label_rule _ label = []

-- `quality.get("warnings", [])`, or `[]`
abbrev pub warnings_of : Option (Dict Json) → Json
warnings_of none = null
warnings_of (some q) = get "warnings" q

unfoldable pub uncertainty_rule : Python → Json → Option (Dict Json) → List ValidationIssue
unfolding issue
uncertainty_rule py label quality =
    report (is_text "unknown" label && not (truthy py (warnings_of quality))) (
      issue "$.severity.label" "severity_uncertainty" "unknown severity requires a quality warning")

unfoldable pub severity_rule :
    Python → Option (Dict Json) → Option (Dict Json) → List ValidationIssue
severity_rule py none quality = []
severity_rule py (some s) quality =
    label_rule (get "normalized" s) (get "label" s) ++ uncertainty_rule py (get "label" s) quality

-- one of `success` and `failure`, and the other one
abbrev pub disagrees : Json → Json → Bool
disagrees a b =
    is_text "success" a && is_text "failure" b || is_text "failure" a && is_text "success" b

unfoldable pub authentication_rule : Option (Dict Json) → Option (Dict Json) → List ValidationIssue
unfolding issue
authentication_rule (some auth) (some action) =
    report (disagrees (get "result" auth) (get "outcome" action)) (
      issue "$.authentication.result" "outcome_consistency"
        "authentication result must match action outcome")
authentication_rule _ _ = []

unfoldable pub partial_rule : Python → Option (Dict Json) → List ValidationIssue
unfolding issue
partial_rule py none = []
partial_rule py (some q) =
    report
      (is_text "partial" (get "status" q)
        && not (truthy py (get "missing_fields" q))
        && not (truthy py (get "warnings" q)))
      (issue "$.quality" "partial_explanation"
        "partial quality requires missing_fields or warnings")

unfoldable pub namespace_rule : Dict Json → List ValidationIssue
unfolding issue
namespace_rule [] = []
namespace_rule ((k, v) ∷ d) =
    report (not (is_snake_case k)) (
      issue (append "$.extensions." k) "vendor_namespace"
        "extension namespace must be lowercase snake_case")
    ++ namespace_rule d

unfoldable pub extension_rule : Option (Dict Json) → List ValidationIssue
unfolding namespace_rule
extension_rule none = []
extension_rule (some d) = namespace_rule d

unfoldable pub content_rule : Platform → Json → Json → List ValidationIssue
unfolding issue
content_rule p (str content) claimed =
    report (not (is_text (p.hexdigest (encode content)) claimed)) (
      issue "$.traceability.raw_sha256" "raw_integrity" "does not match embedded raw_event content")
content_rule p v claimed = []

abbrev content_of : Option (Dict Json) → Json
content_of none = null
content_of (some d) = get "content" d

unfoldable pub integrity_rule : Platform → Option (Dict Json) → List ValidationIssue
unfolding content_rule
integrity_rule p none = []
integrity_rule p (some t) =
    content_rule p (content_of (section (Dict.lookup "raw_event" t))) (get "raw_sha256" t)

module _ (p : Platform) (py : Python) (event : Dict Json) where
  -- the issues in the order in which the code appends them
  unfoldable pub rules : List ValidationIssue
  rules =
      let category = category_of (section_or_empty (Dict.lookup "event" event)) in
      let action = section_or_empty (Dict.lookup "action" event) in
      let quality = section_or_empty (Dict.lookup "quality" event) in
      let auth = section (Dict.lookup "authentication" event) in
      time_rule py (section_or_empty (Dict.lookup "time" event))
      ++ endpoint_rule py "source" category (section (Dict.lookup "source" event))
      ++ endpoint_rule py "destination" category (section (Dict.lookup "destination" event))
      ++ section_rule "intrusion_detection" "$.threat"
          "intrusion_detection events require threat details" category
          (section (Dict.lookup "threat" event))
      ++ section_rule "authentication" "$.authentication"
          "authentication events require authentication details" category auth
      ++ action_rule action
      ++ severity_rule py (section_or_empty (Dict.lookup "severity" event)) quality
      ++ authentication_rule auth action
      ++ partial_rule py quality
      ++ extension_rule (section_or_empty (Dict.lookup "extensions" event))
      ++ integrity_rule p (section_or_empty (Dict.lookup "traceability" event))

  unfoldable pub validate_semantics : List ValidationIssue
  validate_semantics = canonical rules
