-- ===== src/Normalization/FortiGate.antt =====
-- src/normalization/mappings/fortinet_fortigate.py.
use ulpf_prism_sih.Prelude.{
  String, Bool, true, false, not, ◌&&◌, Option, none, some, List, [], ◌∷◌, ◌++◌, ◌==◌,
  if◌then◌else◌, str_eq, ℕ,
}
use ulpf_prism_sih.Dict.{Dict}
use ulpf_prism_sih.Int.{ℤ, pos}
use ulpf_prism_sih.Json.{Json, str}
use ulpf_prism_sih.Python.{Python, str_of, or_else, as_int, get}
use ulpf_prism_sih.Contracts.ParsedEvent.{ParsedEvent}
use ulpf_prism_sih.Normalization.Models.{MappingResult, NormalizationMapping, ◌>>=◌}
use ulpf_prism_sih.Normalization.Common.{
  fortinet_score, severity, unrecognized_severity, event_type, endpoint, names_ip, missing_if,
  with_text, given_text, with_message, no_message, one_of, has_all, action_section, network_section,
}

-- `PROTOCOLS.get(number)`, where a number was read
unfoldable pub protocol_name : Option ℤ → Option String
protocol_name (some (pos n)) =
    if n == 1
    then some "icmp"
    else if n == 6
    then some "tcp"
    else if n == 17
    then some "udp"
    else if n == 47
    then some "gre"
    else if n == 58
    then some "icmpv6"
    else none
protocol_name _ = none

abbrev refusals : List String
refusals = "deny" ∷ "denied" ∷ "block" ∷ "blocked" ∷ []

abbrev permits : List String
permits = "accept" ∷ "allow" ∷ "allowed" ∷ "pass" ∷ []

-- the outcome of a login
unfoldable pub login_outcome : String → String
login_outcome status =
    if str_eq status "failed"
    then "failure"
    else if one_of ("success" ∷ "failure" ∷ []) status
    then status
    else "unknown"

-- the normalized action and its outcome, of a login or of another action
unfoldable pub action_of : Bool → String → String → String × String
unfolding login_outcome
action_of login status a =
    if login
    then ("authenticate", login_outcome status)
    else if one_of refusals a
    then ("block", "failure")
    else if one_of permits a
    then ("allow", "success")
    else ("unknown", "unknown")

abbrev pub is_some : Option String → Bool
is_some none = false
is_some (some s) = true

unfoldable pub category_of : Bool → Bool → Bool → String
category_of login network family =
    if login
    then "authentication"
    else if network
    then "network"
    else if family
    then "unknown"
    else "system"

unfoldable pub scored : String → Option (ℕ × String) → Dict Json × List String
scored level none = (severity level 0 "unknown", unrecognized_severity)
scored level (some (score, label)) = (severity level score label, [])

abbrev pub login_user : Bool → Option String → Option String
login_user true user = user
login_user false user = none

-- the section of a login, with its user and its outcome
abbrev pub authentication_section : Option String → String → Option (Dict Json)
authentication_section none outcome = none
authentication_section (some user) outcome =
    some (("user", str user) ∷ ("result", str outcome) ∷ [])

abbrev network_of : Bool → Option String → Option (Dict Json)
network_of b none = none
network_of b (some t) = network_section b t

unfoldable pub assemble :
    Python
    → Dict Json
    → Option (Dict Json)
    → Option (Dict Json)
    → Option String
    → List String
    → Bool
    → Option String
    → Dict Json × List String
    → MappingResult
assemble py fields source destination transport missing family user (severity, warnings) =
    let action =
      str_of py
        (or_else py (get "action" fields) (or_else py (get "status" fields) (str "unknown"))) in
    let status = py.lower (str_of py (or_else py (get "status" fields) (str "unknown"))) in
    let done = action_of (is_some user) status (py.lower action) in
    let network = family && has_all missing in
    let message = given_text (or_else py (get "message" fields) (get "log_description" fields)) in
    record {
      event = with_message message (
          ("category", str (category_of (is_some user) network family))
          ∷ (
            "type",
            str (
                event_type py (or_else py (get "event_subtype" fields) (get "event_type" fields))
                  "fortigate_event"),
          )
          ∷ ("name", str "FortiGate security event")
          ∷ []);
      observer =
          with_text "hostname" (given_text (get "hostname" fields)) (("type", str "firewall") ∷ []);
      action = action_section action done;
      severity = severity;
      source = source;
      destination = destination;
      network = network_of network transport;
      threat = none;
      authentication = authentication_section user done.1;
      http = none;
      observed_at = none;
      consumed_fields =
          "event_type" ∷ "event_subtype" ∷ "hostname" ∷ "action" ∷ "status" ∷ "level" ∷ "message"
          ∷ "log_description" ∷ "src_ip" ∷ "src_port" ∷ "src_intf" ∷ "dst_ip" ∷ "dst_port"
          ∷ "dst_intf" ∷ "protocol" ∷ [];
      missing_fields = missing ++ no_message message;
      warnings = warnings;
    }

unfoldable pub result :
    Python → Dict Json → Option (Dict Json) → Option (Dict Json) → Option String → MappingResult
unfolding assemble scored
result py fields source destination transport =
    let event_family = py.lower (str_of py (or_else py (get "event_type" fields) (str ""))) in
    let family = one_of ("traffic" ∷ "utm" ∷ []) event_family in
    let missing =
      missing_if (family && not (names_ip source)) "source.ip"
      ++ missing_if (family && not (names_ip destination)) "destination.ip"
      ++ missing_if (family && not (is_some transport)) "network.transport" in
    let action =
      str_of py
        (or_else py (get "action" fields) (or_else py (get "status" fields) (str "unknown"))) in
    let user = login_user (str_eq (py.lower action) "login") (given_text (get "user" fields)) in
    let level = py.lower (str_of py (or_else py (get "level" fields) (str "unknown"))) in
    assemble py fields source destination transport missing family user
      (scored level (fortinet_score level))

-- `FortinetFortigateMapping.map`
unfoldable pub map_event : Python → ParsedEvent → Option MappingResult
unfolding result protocol_name
map_event py e = do
  source ← endpoint py e.extracted_fields "src_ip" "src_port" "src_intf"
  destination ← endpoint py e.extracted_fields "dst_ip" "dst_port" "dst_intf"
  protocol ← as_int py (get "protocol" e.extracted_fields)
  some (result py e.extracted_fields source destination (protocol_name protocol))

unfoldable pub mapping : Python → NormalizationMapping
mapping py = record {
  source_pack_id = "fortinet_fortigate";
  version = "1.0.0";
  map_event = map_event py;
}
