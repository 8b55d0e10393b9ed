-- ===== src/Normalization/Soundness/Logins.antt =====
-- The FortiGate mapping, whose logins carry an authentication section.
use mathlib.Core.Path.{subst}
use ulpf_prism_sih.Prelude.{
  String, Bool, true, false, not, ◌&&◌, Option, none, some, [], ◌∷◌, ◌++◌, ◌≡◌, refl, arith,
  some_inj, Option-cases, none_absurd, inl, inr, str_eq_iff,
}
use ulpf_prism_sih.Dict
use ulpf_prism_sih.Dict.{Dict}
use ulpf_prism_sih.Json.{Json, str}
use ulpf_prism_sih.Python.{Python, get, as_int}
use ulpf_prism_sih.Contracts.ParsedEvent.{ParsedEvent}
use ulpf_prism_sih.Normalization.Models.{MappingResult}
use ulpf_prism_sih.Normalization.Assembled.{given}
use ulpf_prism_sih.Normalization.Common.{
  endpoint, names_ip, missing_if, has_all, action_section, one_of,
}
use ulpf_prism_sih.Normalization.FortiGate
use ulpf_prism_sih.Normalization.FortiGate.{
  action_of, login_outcome, category_of, authentication_section, protocol_name, is_some,
}
use ulpf_prism_sih.Normalization.Soundness.{IsSound, intrusion_rule, login_rule}
use ulpf_prism_sih.Normalization.Soundness.Severities.{fortigate_scored-IsLabelled}
use ulpf_prism_sih.Normalization.Soundness.Endpoints.{
  Placed, endpoint-Placed, endpoint_rule-nil, category_lem,
}
use ulpf_prism_sih.Normalization.Soundness.Mappings.{Refuses, if-Refuses}
use ulpf_prism_sih.Validation.Semantics.{
  section, is_text, section_rule, action_rule, authentication_rule, disagrees,
}

-- A network event of the firewall has all the fields.
network_needs :
    (login family a b c : Bool)
    → is_text "network" (
        str (
          category_of login
            (family
              && has_all (
                  missing_if (family && not a) "source.ip"
                  ++ missing_if (family && not b) "destination.ip"
                  ++ missing_if (family && not c) "network.transport"))
            family))
      ≡ true
    → (a ≡ true) × (b ≡ true)
unfolding category_of
network_needs true family a b c h = (cc, cc)
network_needs false false a b c h = (cc, cc)
network_needs false true true true c h = (refl, refl)
network_needs false true true false true h = cc
network_needs false true true false false h = cc
network_needs false true false true c h = (cc, refl)
network_needs false true false false c h = (cc, cc)

intrusion_rule-nil :
    (login network family : Bool)
    → intrusion_rule (str (category_of login network family)) none ≡ []
unfolding section_rule category_of
intrusion_rule-nil true network family = refl
intrusion_rule-nil false true family = refl
intrusion_rule-nil false false true = refl
intrusion_rule-nil false false false = refl

login_rule-nil :
    (user : Option String) (network family : Bool) (outcome : String)
    → login_rule
        (str (category_of (is_some user) network family))
        (section (given (authentication_section user outcome)))
      ≡ []
unfolding section_rule category_of
login_rule-nil (some u) network family o = refl
login_rule-nil none true family o = refl
login_rule-nil none false true o = refl
login_rule-nil none false false o = refl

action-Refuses :
    (o : String) (login : Bool) (status a : String) → Refuses o (action_of login status a)
unfolding action_of action_rule get Dict.lookup
action-Refuses o true status a = refl
action-Refuses o false status a =
    if-Refuses (one_of ("deny" ∷ "denied" ∷ "block" ∷ "blocked" ∷ []) a) o _ _ refl
      (if-Refuses (one_of ("accept" ∷ "allow" ∷ "allowed" ∷ "pass" ∷ []) a) o _ _ refl refl)

agrees : (o : String) → disagrees (str o) (str o) ≡ false
agrees o =
    ground (arith, str_eq_iff o "success", str_eq_iff o "failure", str_eq_iff "success" "failure")

authentication_rule-nil :
    (user : Option String) (original : String) (done : String × String)
    → authentication_rule
        (section (given (authentication_section user done.1)))
        (some (action_section original done))
      ≡ []
unfolding authentication_rule get Dict.lookup
authentication_rule-nil none original done = refl
authentication_rule-nil (some u) original done = rw (agrees done.1) refl

module _ (py : Python) (e : ParsedEvent) (fields : Dict Json)
    (source destination : Option (Dict Json)) (transport : Option String) (from : Placed py source)
    (to : Placed py destination) where
  result-IsSound : IsSound py e (FortiGate.result py fields source destination transport)
  unfolding FortiGate.result
  result-IsSound = (
    rw (category_lem e) (
        endpoint_rule-nil py "source" _ source from
          (λ h. (network_needs _ _ _ (names_ip destination) _ h).0)),
    rw (category_lem e) (
        endpoint_rule-nil py "destination" _ destination to
          (λ h. (network_needs _ _ (names_ip source) _ _ h).1)),
    rw (category_lem e) (intrusion_rule-nil _ _ _),
    rw (category_lem e) (login_rule-nil _ _ _ _),
    action-Refuses _ _ _ _,
    (fortigate_scored-IsLabelled _).0,
    (fortigate_scored-IsLabelled _).1,
    authentication_rule-nil _ _ _,
  )

pub fortigate-IsSound :
    (py : Python) (e : ParsedEvent) {m : MappingResult}
    → FortiGate.map_event py e ≡ some m
    → IsSound py e m
unfolding FortiGate.map_event
fortigate-IsSound py e h =
    elim (Option-cases (endpoint py e.extracted_fields "src_ip" "src_port" "src_intf")) [
      | inl q ↦ none_absurd _ (rw q at h)
      | inr (src, q) ↦
          elim (Option-cases (endpoint py e.extracted_fields "dst_ip" "dst_port" "dst_intf")) [
            | inl r ↦ none_absurd _ (rw (q, r) at h)
            | inr (dst, r) ↦ elim (Option-cases (as_int py (get "protocol" e.extracted_fields))) [
              | inl w ↦ none_absurd _ (rw (q, r, w) at h)
              | inr (n, w) ↦ subst (IsSound py e) (some_inj (rw (q, r, w) at h)) (
                  result-IsSound py e e.extracted_fields src dst (protocol_name n)
                    (endpoint-Placed py e.extracted_fields _ _ _ q)
                    (endpoint-Placed py e.extracted_fields _ _ _ r))
            ]
          ]
    ]
