-- ===== src/Normalization/LinuxSyslog.antt =====
-- src/normalization/mappings/generic_linux_syslog.py.
use Prim.Native.String.{◌++◌ as append}
use ulpf_prism_sih.Prelude.{String, Option, none, some, List, [], ◌∷◌, if◌then◌else◌}
use ulpf_prism_sih.Dict.{Dict}
use ulpf_prism_sih.Json.{Json, str}
use ulpf_prism_sih.Python.{Python, str_of, truthy, get}
use ulpf_prism_sih.Contracts.ParsedEvent.{ParsedEvent}
use ulpf_prism_sih.Normalization.Models.{MappingResult, NormalizationMapping, ◌>>=◌}
use ulpf_prism_sih.Normalization.Common.{
  syslog_severity, event_type, with_text, given_text, with_message, no_message, action_section,
}

abbrev process_suffix : Python → Json → String
process_suffix py process =
    if truthy py process then append " (" (append (str_of py process) ")") else ""

unfoldable pub result : Python → Dict Json → Dict Json × List String → MappingResult
result py fields (severity, warnings) =
    let process = get "process" fields in
    let message = given_text (get "message" fields) in
    record {
      event = with_message message (
          ("category", str "system")
          ∷ ("type", str (event_type py process "system_log"))
          ∷ ("name", str (append "Linux Syslog" (process_suffix py process)))
          ∷ []);
      observer =
          with_text "hostname" (given_text (get "hostname" fields)) (("type", str "unknown") ∷ []);
      action = action_section "unknown" ("unknown", "unknown");
      severity = severity;
      source = none;
      destination = none;
      network = none;
      threat = none;
      authentication = none;
      http = none;
      observed_at = none;
      consumed_fields = "hostname" ∷ "process" ∷ "message" ∷ "severity" ∷ [];
      missing_fields = no_message message;
      warnings = warnings;
    }

-- `GenericLinuxSyslogMapping.map`
unfoldable pub map_event : Python → ParsedEvent → Option MappingResult
unfolding result
map_event py e = do
  severity ← syslog_severity py (get "severity" e.extracted_fields)
  some (result py e.extracted_fields severity)

unfoldable pub mapping : Python → NormalizationMapping
mapping py = record {
  source_pack_id = "generic_linux_syslog";
  version = "1.0.0";
  map_event = map_event py;
}
