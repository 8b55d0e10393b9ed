-- ===== src/Core/Parsers/KeyValue.antt =====
-- core/parsers/kv_parser.py: key=value pairs.
use ulpf_prism_sih.Prelude.{String, List, [], ◌∷◌, codes}
use ulpf_prism_sih.Dict
use ulpf_prism_sih.Dict.{Dict}
use ulpf_prism_sih.Json.{Json, str}
use ulpf_prism_sih.Python.{get}
use ulpf_prism_sih.Core.Parsers.{Result, returned, unreadable, Libraries}

-- `_KV_RE`
abbrev expression : String
expression = "(?P<key>[A-Za-z0-9_.\\-]+)=(?:\"(?P<qval>[^\"]*)\"|(?P<val>[^\\s]+))"

-- `qval` if it took part, or `val`
abbrev value_of : Dict Json → Json
value_of groups = elim (get "qval" groups) [ str s ↦ str s | _ ↦ get "val" groups ]

abbrev key_of : Json → String
key_of (str k) = k
key_of v = ""

collect : List (Dict Json) → Dict Json → Dict Json
collect [] result = result
collect (m ∷ ms) result = collect ms (Dict.assign (key_of (get "key" m)) (value_of m) result)

gathered : List (Dict Json) → Result (Dict Json)
gathered [] = unreadable (codes "No key=value pairs found in payload")
gathered (m ∷ ms) = returned (collect (m ∷ ms) [])

-- `KeyValueParser.parse`
unfoldable pub parse : Libraries → String → Result (Dict Json)
unfolding collect gathered
parse l raw_payload = gathered (l.re_finditer expression raw_payload)
