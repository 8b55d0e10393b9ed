-- ===== src/Normalization/CiscoAsa.antt =====
-- src/normalization/mappings/cisco_asa.py.
use ulpf_prism_sih.Prelude.{
  String, not, ◌||◌, Option, none, some, List, [], ◌∷◌, ◌++◌, if◌then◌else◌,
}
use ulpf_prism_sih.Dict.{Dict}
use ulpf_prism_sih.Json.{Json, str}
use ulpf_prism_sih.Python.{Python, str_of, or_else, get}
use ulpf_prism_sih.Python.Words.{occurs}
use ulpf_prism_sih.Contracts.ParsedEvent.{ParsedEvent}
use ulpf_prism_sih.Normalization.Models.{MappingResult, NormalizationMapping, ◌>>=◌}
use ulpf_prism_sih.Normalization.Common.{
  syslog_severity, event_type, endpoint, names_ip, missing_if, with_text, given_text, with_message,
  no_message, one_of, has_all, action_section, network_section,
}

abbrev allowed_protocols : List String
allowed_protocols = "tcp" ∷ "udp" ∷ "icmp" ∷ "icmpv6" ∷ "gre" ∷ []

-- the normalized action and its outcome
unfoldable pub action_of : String → String × String
action_of a =
    if occurs "deny" a
    then ("deny", "failure")
    else if occurs "built" a || occurs "permit" a || occurs "allow" a
    then ("allow", "success")
    else if occurs "teardown" a
    then ("disconnect", "success")
    else ("unknown", "unknown")

unfoldable pub result :
    Python
    → Dict Json
    → Option (Dict Json)
    → Option (Dict Json)
    → Dict Json × List String
    → MappingResult
unfolding action_of
result py fields source destination (severity, warnings) =
    let protocol = py.lower (str_of py (or_else py (get "protocol" fields) (str ""))) in
    let allowed = one_of allowed_protocols protocol in
    let missing =
      missing_if (not (names_ip source)) "source.ip"
      ++ missing_if (not (names_ip destination)) "destination.ip"
      ++ missing_if (not allowed) "network.transport" in
    let action = str_of py (or_else py (get "action" fields) (str "unknown")) in
    let message = given_text (get "message_text" fields) in
    record {
      event = with_message message (
          ("category", str (if has_all missing then "network" else "unknown"))
          ∷ ("type", str (event_type py (get "event_type" fields) "firewall_event"))
          ∷ ("name", str "Cisco ASA firewall event")
          ∷ []);
      observer =
          with_text "hostname" (given_text (get "hostname" fields)) (("type", str "firewall") ∷ []);
      action = action_section action (action_of (py.lower action));
      severity = severity;
      source = source;
      destination = destination;
      network = network_section (has_all missing) protocol;
      threat = none;
      authentication = none;
      http = none;
      observed_at = none;
      consumed_fields =
          "event_type" ∷ "message_text" ∷ "hostname" ∷ "action" ∷ "severity" ∷ "src_ip" ∷ "src_port"
          ∷ "src_interface" ∷ "dst_ip" ∷ "dst_port" ∷ "dst_interface" ∷ "protocol" ∷ [];
      missing_fields = missing ++ no_message message;
      warnings = warnings;
    }

-- `CiscoASAMapping.map`
unfoldable pub map_event : Python → ParsedEvent → Option MappingResult
unfolding result
map_event py e = do
  source ← endpoint py e.extracted_fields "src_ip" "src_port" "src_interface"
  destination ← endpoint py e.extracted_fields "dst_ip" "dst_port" "dst_interface"
  severity ← syslog_severity py (get "severity" e.extracted_fields)
  some (result py e.extracted_fields source destination severity)

unfoldable pub mapping : Python → NormalizationMapping
mapping py = record { source_pack_id = "cisco_asa"; version = "1.0.0"; map_event = map_event py }
