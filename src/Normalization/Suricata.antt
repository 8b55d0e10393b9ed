-- ===== src/Normalization/Suricata.antt =====
-- src/normalization/mappings/suricata.py. A call on a value of the wrong type raises.
use Prim.Native.Char.{code}
use Prim.Native.String.{◌++◌ as append}
use ulpf_prism_sih.Prelude.{
  ℕ, ◌+◌, String, Bool, true, false, not, ◌&&◌, ◌||◌, Option, none, some, List, [], ◌∷◌, ◌++◌, leb,
  ◌==◌, if◌then◌else◌, str_eq,
}
use ulpf_prism_sih.Dict
use ulpf_prism_sih.Dict.{Dict}
use ulpf_prism_sih.Int.{ℤ, pos}
use ulpf_prism_sih.Json.{Json, null, boolean, int, float, str, arr, obj, fields}
use ulpf_prism_sih.Python.{Python, str_of, truthy, or_else, get}
use ulpf_prism_sih.Contracts.RawEvent.{Timestamp}
use ulpf_prism_sih.Contracts.ParsedEvent.{ParsedEvent}
use ulpf_prism_sih.Normalization.Models.{MappingResult, NormalizationMapping, ◌>>=◌}
use ulpf_prism_sih.Normalization.Common.{
  event_type, endpoint, names_ip, missing_if, with_text, given_text, or_none, one_of, severity,
  action_section,
}

pub record Score : Type 0 where
  pub score : ℕ
  pub label : String
  pub confidence : String

-- `SURICATA_SEVERITY.get(...)` at a number
unfoldable pub score_of : Option ℤ → Option Score
score_of (some (pos n)) =
    if n == 1
    then some (record { score = 8; label = "high"; confidence = "0.9" })
    else if n == 2
    then some (record { score = 5; label = "medium"; confidence = "0.7" })
    else if n == 3
    then some (record { score = 2; label = "low"; confidence = "0.5" })
    else none
score_of _ = none

-- the key's number; a list or a dictionary cannot be a key
unfoldable pub as_key : Python → Json → Option (Option ℤ)
as_key py (boolean b) = some (some (pos (if b then 1 else 0)))
as_key py (int n) = some (some n)
as_key py (float x) = some (py.integral x)
as_key py (arr vs) = none
as_key py (obj fs) = none
as_key py v = some none

-- `fields.get("alert", {})`, on which `get` is called
unfoldable pub alert_of : Option Json → Option (Dict Json)
alert_of none = some []
alert_of (some (obj fs)) = some (fields fs)
alert_of (some v) = none

-- `_integer`
unfoldable pub integer : Json → Option ℕ
integer (int (pos n)) = some n
integer v = none

-- `d.get(k, default)` in an f-string
abbrev shown : Python → String → String → Dict Json → String
shown py k default d = elim (Dict.lookup k d) [ none ↦ default | some v ↦ str_of py v ]

-- `_action` of an alert
unfoldable pub alert_action : Python → Dict Json → Dict Json
alert_action py alert =
    let original = str_of py (or_else py (get "action" alert) (str "alert")) in
    action_section original
      (if str_eq (py.lower original) "blocked" then ("block", "failure") else ("detect", "success"))

unfoldable pub scored : Python → Json → Option Score → Dict Json
scored py original none = severity (str_of py (or_else py original (str "unknown"))) 0 "unknown"
scored py original (some s) = severity (str_of py original) s.score s.label

abbrev confidence_of : Option Score → String
confidence_of none = "0.3"
confidence_of (some s) = s.confidence

abbrev with_signature : Python → Option Json → Dict Json → Dict Json
with_signature py none d = d
with_signature py (some null) d = d
with_signature py (some v) d = Dict.assign "signature_id" (str (str_of py v)) d

-- `_threat`
unfoldable pub threat : Python → Dict Json → Option Score → Dict Json
threat py alert s =
    let category = get "category" alert in
    let named = with_signature py (Dict.lookup "signature_id" alert) (
      ("name", str (str_of py (or_else py (get "signature" alert) (str "Unknown Suricata alert"))))
      ∷ ("confidence", float (confidence_of s))
      ∷ []) in
    if truthy py category
    then Dict.assign "category" (str (event_type py category "unknown")) named
    else named

-- `network[key] = sum(...)`, if both values are counts
abbrev with_sum : String → Option ℕ → Option ℕ → Dict Json → Dict Json
with_sum k (some a) (some b) d = Dict.assign k (int (pos (a + b))) d
with_sum k _ _ d = d

abbrev flow_counts : Json → Dict Json → Dict Json
flow_counts (obj fs) d =
    let flow = fields fs in
    with_sum "bytes" (integer (get "bytes_toserver" flow)) (integer (get "bytes_toclient" flow)) (
      with_sum "packets" (integer (get "pkts_toserver" flow)) (integer (get "pkts_toclient" flow))
        d)
flow_counts v d = d

-- the direction of a packet
abbrev direction : String → String
direction s =
    if str_eq s "to_server"
    then "outbound"
    else if str_eq s "to_client"
    then "inbound"
    else "unknown"

-- `_network`
unfoldable pub network : Python → Dict Json → String → Dict Json
unfolding integer
network py d transport = flow_counts (get "flow" d) (
    ("transport", str transport)
    ∷ ("application_protocol", str (str_of py (or_else py (get "app_proto" d) (str "unknown"))))
    ∷ ("direction", str (direction (str_of py (get "direction" d))))
    ∷ [])

abbrev with_method : Python → Json → Dict Json → Dict Json
with_method py (str m) d = if py.isalpha m then Dict.assign "method" (str (py.upper m)) d else d
with_method py v d = d

abbrev is_path : String → Bool
is_path String.[] = false
is_path (String.◌∷◌ c s) = code c == b'/'

abbrev with_path : Json → Dict Json → Dict Json
with_path (str s) d = if is_path s then Dict.assign "path" (str s) d else d
with_path v d = d

abbrev with_status : Json → Dict Json → Dict Json
with_status (int (pos n)) d =
    if leb 100 n && leb n 599 then Dict.assign "status_code" (int (pos n)) d else d
with_status v d = d

abbrev with_agent : Json → Dict Json → Dict Json
with_agent (str s) d = Dict.assign "user_agent" (str s) d
with_agent v d = d

-- `_http`
unfoldable pub http : Python → Json → Option (Dict Json)
http py (obj fs) =
    let source = fields fs in
    or_none (
      with_agent (get "http_user_agent" source) (
        with_status (get "status" source) (
          with_path (get "url" source) (
            with_text "host" (given_text (get "hostname" source))
              (with_method py (get "http_method" source) [])))))
http py v = none

abbrev dns_message : Python → Dict Json → String
dns_message py d =
    let rrname = get "rrname" d in
    if truthy py rrname
    then append "DNS " (append (shown py "type" "transaction" d) (append ": " (str_of py rrname)))
    else "DNS event"

abbrev http_message : Python → Dict Json → String
http_message py d =
    append "HTTP " (append (shown py "http_method" "request" d) (append " " (shown py "url" "/" d)))

abbrev flow_message : Python → Dict Json → String
flow_message py d =
    append "Flow "
      (append (shown py "state" "unknown" d) (append ": " (shown py "reason" "unspecified" d)))

-- `_message`; `None` is `null`
unfoldable pub message_of : Python → String → Json → Json
message_of py family (obj fs) =
    if str_eq family "alert"
    then get "signature" (fields fs)
    else if str_eq family "dns"
    then str (dns_message py (fields fs))
    else if str_eq family "http"
    then str (http_message py (fields fs))
    else if str_eq family "flow"
    then str (flow_message py (fields fs))
    else null
message_of py family v = null

-- `timestamp.replace("Z", "+00:00")`
unfoldable pub replace_z : String → String
replace_z String.[] = ""
replace_z (String.◌∷◌ c s) =
    let rest = replace_z s in if code c == b'Z' then append "+00:00" rest else String.◌∷◌ c rest

unfoldable pub observed : Python → Json → Option Timestamp
unfolding replace_z
observed py (str s) = py.fromisoformat (replace_z s)
observed py v = none

-- the category of a family
unfoldable pub family_category : String → String
family_category f =
    if str_eq f "alert"
    then "intrusion_detection"
    else if str_eq f "flow" || str_eq f "dns"
    then "network"
    else if str_eq f "http"
    then "web"
    else "unknown"

abbrev keys : Dict Json → List String
keys [] = []
keys ((k, v) ∷ d) = k ∷ keys d

abbrev is_given : Option (Dict Json) → Bool
is_given none = false
is_given (some d) = true

-- What an alert's severity and action give, and the threat.
pub record Alert : Type 0 where
  pub action : Dict Json
  pub severity : Dict Json
  pub threat : Option (Dict Json)

unfoldable pub read_alert : Python → Dict Json → Option Alert
unfolding score_of as_key alert_action scored threat
read_alert py alert = do
  key ← as_key py (get "severity" alert)
  some (record {
    action = alert_action py alert;
    severity = scored py (get "severity" alert) (score_of key);
    threat = some (threat py alert (score_of key));
  })

-- `_action`, `_severity` and `_threat`
unfoldable pub alert_part : Python → Dict Json → String → Option Alert
unfolding read_alert alert_of
alert_part py d family =
    if str_eq family "alert"
    then (do alert ← alert_of (Dict.lookup "alert" d); read_alert py alert)
    else some (record {
      action = action_section family ("connect", "success");
      severity = severity "informational" 0 "informational";
      threat = none;
    })

abbrev with_body : Python → Json → Dict Json → Dict Json
with_body py m d = if truthy py m then Dict.assign "message" m d else d

unfoldable pub result :
    Python → Dict Json → String → Option (Dict Json) → Option (Dict Json) → Alert → MappingResult
unfolding family_category network http message_of observed
result py d family source destination part =
    let lowered = py.lower (str_of py (or_else py (get "proto" d) (str "unknown"))) in
    let transport =
      if one_of ("tcp" ∷ "udp" ∷ "icmp" ∷ "icmpv6" ∷ "gre" ∷ []) lowered
      then lowered
      else "unknown" in
    let category = family_category family in
    let unplaced = str_eq category "network" && not (is_given source && is_given destination) in
    let message = message_of py family (get family d) in
    let packets = str_eq family "flow" || str_eq family "dns" in
    record {
      event = with_body py message (
          ("category", str (if unplaced then "unknown" else category))
          ∷ ("type", str (event_type py (str (append "suricata_" family)) "suricata_event"))
          ∷ (
            "name",
            str (
                if str_eq family "unknown"
                then "Suricata event"
                else append "Suricata " (append family " event")),
          )
          ∷ []);
      observer =
          with_text "software_version" (given_text (get "suricata_version" d))
            (("type", str "ips") ∷ []);
      action = part.action;
      severity = part.severity;
      source = source;
      destination = destination;
      network = some (network py d transport);
      threat = part.threat;
      authentication = none;
      http = if str_eq family "http" then http py (get "http" d) else none;
      observed_at = observed py (get "timestamp" d);
      consumed_fields = keys d;
      missing_fields =
          missing_if (packets && not (names_ip source)) "source.ip"
          ++ missing_if (packets && not (names_ip destination)) "destination.ip"
          ++ missing_if (not (truthy py message)) "event.message";
      warnings = [];
    }

-- `SuricataEveMapping.map`
unfoldable pub map_event : Python → ParsedEvent → Option MappingResult
unfolding alert_part result
map_event py e = do
  let family =
      py.lower (str_of py (or_else py (get "event_type" e.extracted_fields) (str "unknown")))
  source ← endpoint py e.extracted_fields "src_ip" "src_port" "in_iface"
  destination ← endpoint py e.extracted_fields "dest_ip" "dest_port" "out_iface"
  part ← alert_part py e.extracted_fields family
  some (result py e.extracted_fields family source destination part)

unfoldable pub mapping : Python → NormalizationMapping
mapping py = record { source_pack_id = "suricata_eve"; version = "1.0.0"; map_event = map_event py }
