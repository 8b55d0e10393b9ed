-- ===== src/Normalization/Examples.antt =====
-- Tests of the mappings and the normalizer, and the theorems at concrete events.
use ulpf_prism_sih.Prelude.{true, false, Option, none, some, [], ◌∷◌, ◌≡◌, refl, inl, inr, str_eq}
use ulpf_prism_sih.Decimal.{show}
use ulpf_prism_sih.Dict
use ulpf_prism_sih.Dict.{Dict}
use ulpf_prism_sih.Int.{pos}
use ulpf_prism_sih.Json.{Json, int, str, obj, of_dict}
use ulpf_prism_sih.Samples.{platform}
use ulpf_prism_sih.Python.{get, encode, as_int, str_of, string}
use ulpf_prism_sih.Contracts.Base64
use ulpf_prism_sih.Contracts.Base64.{decode}
use ulpf_prism_sih.Normalization.Common.{endpoint, valid_port, syslog_severity, syslog_score}
use ulpf_prism_sih.Normalization.Keeping.{normalize-extracted_fields}
use ulpf_prism_sih.Python.Sample.{python, from_unary, decode_ascii}
use ulpf_prism_sih.Python.Words.{words, named, is_snake_case, is_semver}
use ulpf_prism_sih.Contracts.RawEvent.{
  RawEventEnvelope, tcp, utc, naive, envelope_of, verify_evidence, raw_bytes,
}
use ulpf_prism_sih.Contracts.Status.{ParseStatus}
use ulpf_prism_sih.Contracts.ParsedEvent.{ParsedEvent}
use ulpf_prism_sih.Normalization.Models.{MappingResult}
use ulpf_prism_sih.Normalization.Registry
use ulpf_prism_sih.Normalization.Registry.{Mappings, register}
use ulpf_prism_sih.Normalization.CiscoAsa
use ulpf_prism_sih.Normalization.Suricata
use ulpf_prism_sih.Normalization.Normalizer.{
  Times, times, raw_text_of, mapped_by, unknown_mapping, normalize, namespace,
}
use ulpf_prism_sih.Normalization.Conformance.{IsBundled, IsExplained, normalize-validate_semantics}
use ulpf_prism_sih.Normalization.Naive.{normalize-naive}
use ulpf_prism_sih.Normalization.Told.{IsTold, normalize-IsTold}
use ulpf_prism_sih.Validation.Semantics.{validate_semantics}

abbrev envelope : RawEventEnvelope
envelope = envelope_of platform "e-1" 3 (encode "%ASA deny") "fw" tcp none "c" "0.1.0" []

abbrev asa_event : ParsedEvent
asa_event = record {
  contract_version = "1.0.0";
  event_id = "e-1";
  parsed_at = record { instant = 4; zone = utc };
  vendor = some "Cisco";
  product = some "ASA";
  product_version = none;
  parser_id = "cisco_asa";
  parser_version = "1.0.0";
  source_pack_id = some "cisco_asa";
  source_pack_version = some "1.0.0";
  detected_format = "syslog";
  status = ParseStatus.success;
  issues = [];
  extracted_fields =
      ("src_ip", str "10.0.0.1")
      ∷ ("dst_ip", str "10.0.0.2")
      ∷ ("src_port", str "443")
      ∷ ("protocol", str "tcp")
      ∷ ("action", str "deny")
      ∷ ("severity", int (pos 4))
      ∷ ("message_text", str "Deny tcp")
      ∷ [];
  raw_event = envelope;
}

abbrev mappings : Mappings
mappings = ("cisco_asa", CiscoAsa.mapping python) ∷ []

abbrev or_empty : Option (Dict Json) → Dict Json
or_empty none = []
or_empty (some d) = d

abbrev unified : Dict Json
unified = or_empty (normalize platform python (λ d. []) mappings 5 asa_event)

snake : named (words "Cisco ASA__v9!") "x" ≡ "isco_v9"
unfolding words named
snake = refl

versions : (is_semver "10.0.3" ≡ true) × (is_semver "01.0.0" ≡ false) × (is_semver "1.0" ≡ false)
unfolding is_semver
versions = (refl, refl, refl)

evidence : verify_evidence platform envelope ≡ true
unfolding verify_evidence decode envelope_of Base64.encode encode
evidence = refl

normalized : normalize platform python (λ d. []) mappings 5 asa_event ≡ some unified
unfolding normalize Registry.get Dict.lookup CiscoAsa.mapping CiscoAsa.map_event endpoint valid_port
    as_int get syslog_severity envelope_of raw_bytes decode Base64.encode encode
normalized = refl

bundled : IsBundled python (Registry.get (some "cisco_asa") mappings)
unfolding Registry.get Dict.lookup
bundled = inr (inl refl)

normalize-validate_semantics_example : validate_semantics platform python unified ≡ []
normalize-validate_semantics_example =
    normalize-validate_semantics platform python (λ d. []) mappings 5 asa_event evidence bundled
      normalized

abbrev or_unknown : Option MappingResult → MappingResult
or_unknown none = unknown_mapping
or_unknown (some m) = m

abbrev asa_result : MappingResult
asa_result = or_unknown (CiscoAsa.map_event python asa_event)

severity :
    asa_result.severity
    ≡ ("original", str "4") ∷ ("normalized", int (pos 5)) ∷ ("label", str "medium") ∷ []
unfolding CiscoAsa.map_event endpoint valid_port as_int get Dict.lookup syslog_severity syslog_score
    str_of string show
severity = refl

asa_mapped : mapped_by (Registry.get (some "cisco_asa") mappings) asa_event ≡ some asa_result
unfolding normalize Registry.get Dict.lookup CiscoAsa.mapping CiscoAsa.map_event endpoint valid_port
    as_int get syslog_severity envelope_of raw_bytes decode Base64.encode encode
asa_mapped = refl

abbrev instants : Times
instants = record { observed = 3; ingested = 3; normalized = 5; late = [] }

asa_times :
    times 5 asa_event.parsed_at asa_event.raw_event.ingested_at asa_result.observed_at
    ≡ some instants
unfolding times normalize Registry.get Dict.lookup CiscoAsa.mapping CiscoAsa.map_event endpoint
    valid_port as_int get syslog_severity envelope_of raw_bytes decode Base64.encode encode
asa_times = refl

asa_text : raw_text_of python (raw_bytes envelope) ≡ some (some "%ASA deny")
unfolding decode_ascii normalize Registry.get Dict.lookup CiscoAsa.mapping CiscoAsa.map_event
    endpoint valid_port as_int get syslog_severity envelope_of raw_bytes decode Base64.encode encode
asa_text = refl

explained : IsExplained asa_event
explained h = cc

normalize-IsTold_example :
    (u : Dict Json) × (q : Dict Json) × (normalize platform python (λ d. []) mappings 5 asa_event
      ≡ some u)
    × (Dict.lookup "quality" u ≡ some (obj (of_dict q)))
    × IsTold asa_event asa_result q
normalize-IsTold_example =
    normalize-IsTold platform python (λ d. []) mappings 5 asa_event (some "%ASA deny") evidence
      bundled explained asa_mapped asa_times asa_text refl

not_ulpf : str_eq (namespace python (some "cisco_asa")) "ulpf" ≡ false
unfolding namespace words named
not_ulpf = refl

normalize-extracted_fields_example :
    (extension : Dict Json) × (trace : Dict Json) × (Dict.lookup "extensions" unified
      ≡ some (obj (of_dict extension)))
    × (Dict.lookup (namespace python (some "cisco_asa")) extension
        ≡ some (obj (of_dict asa_event.extracted_fields)))
    × (Dict.lookup "traceability" unified ≡ some (obj (of_dict trace)))
    × (Dict.lookup "raw_event_id" trace ≡ some (str envelope.event_id))
    × (Dict.lookup "raw_sha256" trace ≡ some (str envelope.raw_sha256))
normalize-extracted_fields_example =
    normalize-extracted_fields platform python (λ d. []) mappings 5 asa_event not_ulpf normalized

-- A Suricata record whose time has no offset.
abbrev naive_event : ParsedEvent
naive_event = record asa_event {
  source_pack_id = some "suricata_eve";
  extracted_fields = ("event_type", str "dns") ∷ ("timestamp", str "11") ∷ [];
}

abbrev suricata : Mappings
suricata = ("suricata_eve", Suricata.mapping python) ∷ []

naive_mapping : Registry.get naive_event.source_pack_id suricata ≡ some (Suricata.mapping python)
unfolding Registry.get Dict.lookup
naive_mapping = refl

naive_text : get "timestamp" naive_event.extracted_fields ≡ str "11"
unfolding get Dict.lookup
naive_text = refl

naive_time : python.fromisoformat "11" ≡ some (record { instant = 2; zone = naive })
unfolding from_unary
naive_time = refl

normalize-naive_example : normalize platform python (λ d. []) suricata 5 naive_event ≡ none
normalize-naive_example =
    normalize-naive platform python (λ d. []) suricata 5 naive_event "11" naive_mapping naive_text
      refl naive_time refl

-- A mapping without a callable `map` and a second mapping of a pack are refused.
refused :
    (register false (CiscoAsa.mapping python) [] ≡ none)
    × (register true (CiscoAsa.mapping python) mappings ≡ none)
    × (register true (CiscoAsa.mapping python) [] ≡ some mappings)
unfolding register Dict.lookup CiscoAsa.mapping is_snake_case is_semver Dict.assign
refused = (refl, refl, refl)
