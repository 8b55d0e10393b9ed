-- ===== src/Normalization/Soundness.antt =====
-- What a mapping's result has to satisfy for the semantic rules to find nothing.
pub mod Severities
pub mod Endpoints
pub mod Mappings
pub mod Logins
use ulpf_prism_sih.Prelude.{
  String, Bool, true, false, Option, none, some, List, [], ◌∷◌, ◌++◌, ◌≡◌, ◌≢◌, refl, arith,
}
use ulpf_prism_sih.Dict
use ulpf_prism_sih.Dict.{Dict}
use ulpf_prism_sih.Json.{Json, str, obj, of_dict, fields-of_dict}
use ulpf_prism_sih.Python.{Python, get}
use ulpf_prism_sih.Contracts.Platform.{Platform}
use ulpf_prism_sih.Contracts.RawEvent.{raw_bytes, verify_evidence}
use ulpf_prism_sih.Contracts.ParsedEvent.{ParsedEvent}
use ulpf_prism_sih.Normalization.Models.{MappingResult, NormalizationMapping}
use ulpf_prism_sih.Normalization.Normalizer.{Times, is_nil, raw_text_of, traceability, extensions}
use ulpf_prism_sih.Normalization.Assembled.{given, event_meta, time_section, IsAssembled}
use ulpf_prism_sih.Normalization.Sections.{time_rule-nil, extension_rule-nil, integrity_rule-nil}
use ulpf_prism_sih.Validation.Issue.{ValidationIssue}
use ulpf_prism_sih.Validation.Semantics.{
  section, section_or_empty, is_text, time_rule, endpoint_rule, section_rule, action_rule,
  label_rule, uncertainty_rule, severity_rule, authentication_rule, partial_rule, extension_rule,
  integrity_rule, rules,
}

abbrev pub intrusion_rule : Json → Option (Dict Json) → List ValidationIssue
intrusion_rule =
    section_rule "intrusion_detection" "$.threat"
      "intrusion_detection events require threat details"

abbrev pub login_rule : Json → Option (Dict Json) → List ValidationIssue
login_rule =
    section_rule "authentication" "$.authentication"
      "authentication events require authentication details"

module _ (py : Python) (e : ParsedEvent) (m : MappingResult) where
  abbrev pub category : Json
  category = get "category" (event_meta e m)

  -- The rules that depend on the mapping.
  abbrev pub IsSound : Type 0
  IsSound =
      (endpoint_rule py "source" category (section (given m.source)) ≡ [])
      × (endpoint_rule py "destination" category (section (given m.destination)) ≡ [])
      × (intrusion_rule category (section (given m.threat)) ≡ [])
      × (login_rule category (section (given m.authentication)) ≡ [])
      × (action_rule (some m.action) ≡ [])
      × (label_rule (get "normalized" m.severity) (get "label" m.severity) ≡ [])
      × (is_text "unknown" (get "label" m.severity) ≡ true → is_nil m.warnings ≡ false)
      × (authentication_rule (section (given m.authentication)) (some m.action) ≡ [])

module _ (p : Platform) (py : Python) (e : ParsedEvent) (mapping : Option NormalizationMapping)
    (m : MappingResult) (t : Times) (raw_text : Option String) (q d : Dict Json)
    (sound : IsSound py e m) (assembled : IsAssembled py e mapping m t raw_text q d)
    (told : partial_rule py (some q) ≡ [])
    (known : uncertainty_rule py (get "label" m.severity) (some q) ≡ [])
    (timed : time_rule py (some (time_section py t)) ≡ [])
    (whole : integrity_rule p (some (traceability e raw_text)) ≡ []) where
  pub rules-nil : rules p py d ≡ []
  unfolding rules severity_rule
  rules-nil =
      let (event, time, action, sev, trace, quality, ext, src, dst, thr, auth) = assembled in
      let (s1, s2, s3, s4, s5, s6, s7, s8) = sound in
      rw (event, time, action, sev, trace, quality, ext, src, dst, thr, auth)
        (simp (
          fields-of_dict,
          s1,
          s2,
          s3,
          s4,
          s5,
          s6,
          s8,
          told,
          known,
          timed,
          whole,
          extension_rule-nil py e mapping,
        ))
