-- ===== src/Normalization/Common.antt =====
-- src/normalization/mappings/common.py.
use ulpf_prism_sih.Prelude.{
  ℕ, String, Bool, true, false, ◌||◌, Option, none, some, List, [], ◌∷◌, leb, ◌==◌, if◌then◌else◌,
  str_eq,
}
use ulpf_prism_sih.Dict
use ulpf_prism_sih.Dict.{Dict}
use ulpf_prism_sih.Int.{ℤ, pos, negsuc}
use ulpf_prism_sih.Json.{Json, int, str}
use ulpf_prism_sih.Python.{Python, str_of, or_else, as_int, get}
use ulpf_prism_sih.Python.Words.{strip, words, named}
use ulpf_prism_sih.Normalization.Models.{◌>>=◌}

-- `SYSLOG_SEVERITY.get(code)`
unfoldable pub syslog_score : ℤ → Option (ℕ × String)
syslog_score (negsuc n) = none
syslog_score (pos n) =
    if n == 0
    then some (10, "critical")
    else if n == 1
    then some (9, "critical")
    else if n == 2
    then some (8, "high")
    else if n == 3
    then some (7, "high")
    else if n == 4
    then some (5, "medium")
    else if n == 5
    then some (4, "medium")
    else if n == 6
    then some (2, "low")
    else if n == 7
    then some (0, "informational")
    else none

-- `FORTINET_SEVERITY.get(level)`
unfoldable pub fortinet_score : String → Option (ℕ × String)
fortinet_score s =
    if str_eq s "emergency"
    then some (10, "critical")
    else if str_eq s "alert"
    then some (9, "critical")
    else if str_eq s "critical"
    then some (8, "high")
    else if str_eq s "error"
    then some (7, "high")
    else if str_eq s "warning"
    then some (5, "medium")
    else if str_eq s "notice"
    then some (4, "medium")
    else if str_eq s "information"
    then some (2, "low")
    else if str_eq s "debug"
    then some (0, "informational")
    else none

-- `valid_ip`
unfoldable pub valid_ip : Python → Json → Option String
valid_ip py (str s) = py.ip_address s
valid_ip py v = none

abbrev in_range : Option ℤ → Option ℕ
in_range none = none
in_range (some (negsuc n)) = none
in_range (some (pos n)) = if leb n 65535 then some n else none

-- `valid_port`: an `OverflowError` passes through
unfoldable pub valid_port : Python → Json → Option (Option ℕ)
valid_port py v = do port ← as_int py v; some (in_range port)

-- `event_type`
unfoldable pub event_type : Python → Json → String → String
event_type py v fallback =
    named (words (py.lower (strip (str_of py (or_else py v (str fallback)))))) fallback

-- a severity section
abbrev pub severity : String → ℕ → String → Dict Json
severity original score label =
    ("original", str original) ∷ ("normalized", int (pos score)) ∷ ("label", str label) ∷ []

abbrev pub unrecognized_severity : List String
unrecognized_severity = "Source severity is missing or unrecognized" ∷ []

abbrev pub code_of : Option ℤ → ℤ
code_of none = negsuc 0
code_of (some n) = n

unfoldable pub scored : Python → Json → Option (ℕ × String) → Dict Json × List String
scored py v none =
    (severity (str_of py (or_else py v (str "unknown"))) 0 "unknown", unrecognized_severity)
scored py v (some (score, label)) = (severity (str_of py v) score label, [])

-- `syslog_severity`
unfoldable pub syslog_severity : Python → Json → Option (Dict Json × List String)
unfolding scored
syslog_severity py v = do code ← as_int py v; some (scored py v (syslog_score (code_of code)))

-- `result[key] = value`, if there is a value
abbrev pub with_text : String → Option String → Dict Json → Dict Json
with_text k none d = d
with_text k (some s) d = Dict.assign k (str s) d

abbrev pub with_number : String → Option ℕ → Dict Json → Dict Json
with_number k none d = d
with_number k (some n) d = Dict.assign k (int (pos n)) d

-- `value`, if it is a text and not empty
abbrev pub given_text : Json → Option String
given_text (str String.[]) = none
given_text (str (String.◌∷◌ c s)) = some (String.◌∷◌ c s)
given_text v = none

-- `result or None`
abbrev pub or_none : Dict Json → Option (Dict Json)
or_none [] = none
or_none (kv ∷ d) = some (kv ∷ d)

-- `endpoint`
unfoldable pub endpoint :
    Python → Dict Json → String → String → String → Option (Option (Dict Json))
endpoint py fields ip_key port_key interface_key = do
  port ← valid_port py (get port_key fields)
  let ip = valid_ip py (get ip_key fields)
  let interface = given_text (get interface_key fields)
  some (or_none (with_text "interface" interface (with_number "port" port (with_text "ip" ip []))))

-- `source and "ip" in source`
abbrev pub has_key : String → Dict Json → Bool
has_key k [] = false
has_key k ((j, v) ∷ d) = str_eq j k || has_key k d

abbrev pub names_ip : Option (Dict Json) → Bool
names_ip none = false
names_ip (some d) = has_key "ip" d

-- the fields that a mapping lists as missing
abbrev pub missing_if : Bool → String → List String
missing_if b k = if b then k ∷ [] else []

-- `section[key] = value`, or the entry of the missing fields
abbrev pub with_message : Option String → Dict Json → Dict Json
with_message m d = with_text "message" m d

abbrev pub no_message : Option String → List String
no_message none = "event.message" ∷ []
no_message (some s) = []

-- whether a text is one of a set
abbrev pub one_of : List String → String → Bool
one_of [] s = false
one_of (x ∷ xs) s = str_eq s x || one_of xs s

abbrev pub has_all : List String → Bool
has_all [] = true
has_all (k ∷ ks) = false

-- an action section
abbrev pub action_section : String → String × String → Dict Json
action_section original (normalized, outcome) =
    ("original", str original) ∷ ("normalized", str normalized) ∷ ("outcome", str outcome) ∷ []

abbrev pub network_section : Bool → String → Option (Dict Json)
network_section false transport = none
network_section true transport =
    some (("transport", str transport) ∷ ("direction", str "unknown") ∷ [])
