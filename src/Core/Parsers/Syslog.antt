-- ===== src/Core/Parsers/Syslog.antt =====
-- core/parsers/syslog.py: the two dialects of syslog headers.
use Prim.Native.Char.{code}
use ulpf_prism_sih.Prelude.{
  ℕ, ◌/◌, ◌%◌, String, Option, none, some, ◌++◌, ◌==◌, ltb, if◌then◌else◌, take, codes,
}
use ulpf_prism_sih.Decimal
use Prim.Native.String.{◌++◌ as append}
use ulpf_prism_sih.Dict
use ulpf_prism_sih.Dict.{Dict}
use ulpf_prism_sih.Int.{ℤ, pos}
use ulpf_prism_sih.Json.{Json, int, str}
use ulpf_prism_sih.Python.{get, string}
use ulpf_prism_sih.Python.Words.{strip}
use ulpf_prism_sih.Core.Parsers.{Result, returned, unreadable, broken, ◌>>=◌, Libraries}

-- `_RFC5424_RE`
abbrev rfc5424 : String
rfc5424 =
    append
      "^<(?P<pri>\\d{1,3})>(?P<version>\\d)\\s(?P<timestamp>\\S+)\\s(?P<hostname>\\S+)\\s(?P<appname>\\S+)\\s"
      (append "(?P<procid>\\S+)\\s(?P<msgid>\\S+)\\s"
        "(?P<structured_data>(-|\\[.*?\\](?:\\[.*?\\])*))\\s?(?P<message>.*)$")

-- `_RFC3164_RE`
abbrev rfc3164 : String
rfc3164 =
    append
      "^<(?P<pri>\\d{1,3})>(?P<timestamp>[A-Z][a-z]{2}\\s+\\d{1,2}\\s\\d{2}:\\d{2}:\\d{2})\\s(?P<hostname>\\S+)\\s"
      "(?P<tag>[^:\\[\\s]+)(?:\\[(?P<pid>\\d+)\\])?:?\\s?(?P<message>.*)$"

-- `int(data["pri"])`, a number without a sign
abbrev number : Option ℤ → Option ℕ
number (some (pos n)) = some n
number _ = none

unfoldable pub priority : Dict Json → Option ℕ
priority groups = elim (get "pri" groups) [ str s ↦ number (Decimal.int (codes s)) | _ ↦ none ]

-- the entries that both dialects get
unfoldable pub with_priority : String → Dict Json → Result (Dict Json)
with_priority variant groups = elim (priority groups) [
  | none ↦ broken (codes "invalid literal for int()")
  | some pri ↦ returned (
      Dict.assign "variant" (str variant) (
        Dict.assign "severity_code" (int (pos (pri % 8)))
          (Dict.assign "facility" (int (pos (pri / 8))) groups)))
]

abbrev with_process : Dict Json → Dict Json
with_process groups =
    Dict.assign "procid" (get "pid" groups) (Dict.assign "appname" (get "tag" groups) groups)

bsd : Libraries → String → Option (Dict Json) → Result (Dict Json)
bsd l text none = unreadable (
    codes "Payload does not match RFC3164 or RFC5424 syslog header: "
    ++ l.shown (str (string (take 80 (codes text)))))
bsd l text (some groups) = do d ← with_priority "rfc3164" groups; returned (with_process d)

matched : Libraries → String → Option (Dict Json) → Result (Dict Json)
matched l text none = bsd l text (l.re_match rfc3164 text)
matched l text (some groups) = with_priority "rfc5424" groups

-- `SyslogParser.parse`
unfoldable pub parse : Libraries → String → Result (Dict Json)
unfolding bsd matched
parse l raw_payload = let text = strip raw_payload in matched l text (l.re_match rfc5424 text)

-- `severity_code_to_name`
unfoldable pub severity_code_to_name : ℕ → String
severity_code_to_name code =
    if ltb code 3
    then "critical"
    else if code == 3
    then "high"
    else if ltb code 6
    then "medium"
    else if ltb code 8
    then "info"
    else "unknown"
