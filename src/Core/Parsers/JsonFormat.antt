-- ===== src/Core/Parsers/JsonFormat.antt =====
-- core/parsers/json_parser.py: JSON, after a header perhaps.
use Prim.Native.Char.{code}
use ulpf_prism_sih.Prelude.{String, Option, none, some, [], ◌∷◌, ◌++◌, ◌==◌, if◌then◌else◌, codes}
use ulpf_prism_sih.Dict.{Dict}
use ulpf_prism_sih.Json.{Json, obj, fields}
use ulpf_prism_sih.Python.Words.{strip}
use ulpf_prism_sih.Core.Parsers.{Result, returned, unreadable, broken, Libraries}

abbrev as_dict : Json → Dict Json
as_dict (obj fs) = fields fs
as_dict v = ("value", v) ∷ []

-- `text[text.find("{"):]`
from_brace : String → Option String
from_brace String.[] = none
from_brace (String.◌∷◌ c s) =
    let rest = from_brace s in if code c == b'{' then some (String.◌∷◌ c s) else rest

-- what the second attempt makes of its text
second : Result Json → Result (Dict Json)
second (returned v) = returned (as_dict v)
second (unreadable m) = unreadable (codes "Payload is not valid JSON: " ++ m)
second (broken m) = broken m

candidate : Libraries → Option String → Result (Dict Json)
candidate l none = unreadable (codes "No JSON object found in payload")
candidate l (some s) = second (l.loads s)

first : Libraries → String → Result Json → Result (Dict Json)
first l text (returned v) = returned (as_dict v)
first l text (unreadable m) = candidate l (from_brace text)
first l text (broken m) = broken m

-- `JSONFormatParser.parse`
unfoldable pub parse : Libraries → String → Result (Dict Json)
unfolding second candidate from_brace first
parse l raw_payload = first l (strip raw_payload) (l.loads (strip raw_payload))
