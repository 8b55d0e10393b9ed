-- ===== src/Normalization/Soundness/Mappings.antt =====
-- The results of the mappings that never break a semantic rule.
use mathlib.Core.Path.{subst}
use ulpf_prism_sih.Prelude.{
  String, Bool, true, false, not, ◌||◌, Option, none, some, List, [], ◌++◌, ◌≡◌, refl,
  if◌then◌else◌, some_inj, Option-cases, none_absurd, inl, inr, str_eq,
}
use ulpf_prism_sih.Dict
use ulpf_prism_sih.Dict.{Dict}
use ulpf_prism_sih.Json.{Json, str}
use ulpf_prism_sih.Python.{Python, get, update}
use ulpf_prism_sih.Python.Words.{occurs}
use ulpf_prism_sih.Contracts.ParsedEvent.{ParsedEvent}
use ulpf_prism_sih.Normalization.Models.{MappingResult}
use ulpf_prism_sih.Normalization.Normalizer.{unknown_mapping}
use ulpf_prism_sih.Normalization.Common.{
  endpoint, names_ip, missing_if, has_all, action_section, syslog_severity,
}
use ulpf_prism_sih.Normalization.CiscoAsa
use ulpf_prism_sih.Normalization.LinuxSyslog
use ulpf_prism_sih.Normalization.Soundness.{IsSound}
use ulpf_prism_sih.Normalization.Soundness.Severities.{IsLabelled, syslog_severity-IsLabelled}
use ulpf_prism_sih.Normalization.Soundness.Endpoints.{
  Placed, endpoint-Placed, endpoint_rule-nil, category_lem,
}
use ulpf_prism_sih.Validation.Semantics.{
  is_text, endpoint_rule, section_rule, action_rule, authentication_rule, label_rule,
}

-- An action that refuses does not succeed.
abbrev pub Refuses : String → String × String → Type 0
Refuses original done = action_rule (some (action_section original done)) ≡ []

pub if-Refuses :
    (b : Bool) (o : String) (x y : String × String)
    → Refuses o x
    → Refuses o y
    → Refuses o (if b then x else y)
if-Refuses true o x y h k = h
if-Refuses false o x y h k = k

asa_action-Refuses : (o a : String) → Refuses o (CiscoAsa.action_of a)
unfolding CiscoAsa.action_of action_rule get Dict.lookup
asa_action-Refuses o a = if-Refuses (occurs "deny" a) o _ _ refl (
    if-Refuses (occurs "built" a || occurs "permit" a || occurs "allow" a) o _ _ refl
      (if-Refuses (occurs "teardown" a) o _ _ refl refl))

-- A network event of the firewall has all the fields.
asa_category :
    (a b c : Bool)
    → is_text "network" (
        str (
          if has_all (
            missing_if (not a) "source.ip"
            ++ missing_if (not b) "destination.ip"
            ++ missing_if (not c) "network.transport")
          then "network"
          else "unknown"))
      ≡ true
    → (a ≡ true) × (b ≡ true)
asa_category true true c h = (refl, refl)
asa_category true false true h = cc
asa_category true false false h = cc
asa_category false true c h = (cc, refl)
asa_category false false c h = (cc, cc)

asa_no_requirement :
    (b : Bool) (name path message : String) (g : Option (Dict Json))
    → str_eq "network" name ≡ false
    → str_eq "unknown" name ≡ false
    → section_rule name path message (str (if b then "network" else "unknown")) g ≡ []
unfolding section_rule
asa_no_requirement true name path message g h k = rw h refl
asa_no_requirement false name path message g h k = rw k refl

module _ (py : Python) (e : ParsedEvent) (fields : Dict Json)
    (source destination : Option (Dict Json)) (s : Dict Json × List String)
    (from : Placed py source) (to : Placed py destination) (scored : IsLabelled s) where
  asa_result-IsSound : IsSound py e (CiscoAsa.result py fields source destination s)
  unfolding CiscoAsa.result authentication_rule
  asa_result-IsSound = (
    rw (category_lem e) (
        endpoint_rule-nil py "source" _ source from
          (λ h. (asa_category _ (names_ip destination) _ h).0)),
    rw (category_lem e) (
        endpoint_rule-nil py "destination" _ destination to
          (λ h. (asa_category (names_ip source) _ _ h).1)),
    rw (category_lem e) (asa_no_requirement _ "intrusion_detection" _ _ none refl refl),
    rw (category_lem e) (asa_no_requirement _ "authentication" _ _ none refl refl),
    asa_action-Refuses _ _,
    scored.0,
    scored.1,
    refl,
  )

pub asa-IsSound :
    (py : Python) (e : ParsedEvent) {m : MappingResult}
    → CiscoAsa.map_event py e ≡ some m
    → IsSound py e m
unfolding CiscoAsa.map_event
asa-IsSound py e h =
    elim (Option-cases (endpoint py e.extracted_fields "src_ip" "src_port" "src_interface")) [
      | inl q ↦ none_absurd _ (rw q at h)
      | inr (src, q) ↦
          elim (Option-cases (endpoint py e.extracted_fields "dst_ip" "dst_port" "dst_interface")) [
            | inl r ↦ none_absurd _ (rw (q, r) at h)
            | inr (dst, r) ↦
                elim (Option-cases (syslog_severity py (get "severity" e.extracted_fields))) [
                  | inl w ↦ none_absurd _ (rw (q, r, w) at h)
                  | inr (s, w) ↦ subst (IsSound py e) (some_inj (rw (q, r, w) at h)) (
                      asa_result-IsSound py e e.extracted_fields src dst s
                        (endpoint-Placed py e.extracted_fields _ _ _ q)
                        (endpoint-Placed py e.extracted_fields _ _ _ r)
                        (syslog_severity-IsLabelled py _ w))
                ]
          ]
    ]

syslog_result-IsSound :
    (py : Python) (e : ParsedEvent) (fields : Dict Json) (s : Dict Json × List String)
    → IsLabelled s
    → IsSound py e (LinuxSyslog.result py fields s)
unfolding LinuxSyslog.result endpoint_rule section_rule action_rule authentication_rule get
    Dict.lookup
syslog_result-IsSound py e fields s scored = (
  rw (category_lem e) refl,
  rw (category_lem e) refl,
  rw (category_lem e) refl,
  rw (category_lem e) refl,
  refl,
  scored.0,
  scored.1,
  refl,
)

pub syslog-IsSound :
    (py : Python) (e : ParsedEvent) {m : MappingResult}
    → LinuxSyslog.map_event py e ≡ some m
    → IsSound py e m
unfolding LinuxSyslog.map_event
syslog-IsSound py e h =
    elim (Option-cases (syslog_severity py (get "severity" e.extracted_fields))) [
      | inl w ↦ none_absurd _ (rw w at h)
      | inr (s, w) ↦
          subst (IsSound py e) (some_inj (rw w at h))
            (syslog_result-IsSound py e e.extracted_fields s (syslog_severity-IsLabelled py _ w))
    ]

pub unknown-IsSound : (py : Python) (e : ParsedEvent) → IsSound py e unknown_mapping
unfolding unknown_mapping endpoint_rule section_rule action_rule authentication_rule label_rule get
    Dict.lookup update Dict.assign
unknown-IsSound py e = (refl, refl, refl, refl, refl, refl, (λ h. refl), refl)
