-- ===== src/Core/Parsers/RegexFormat.antt =====
-- core/parsers/regex_parser.py and core/parsers/fallback.py: expressions of a pack, and any text.
use ulpf_prism_sih.Prelude.{String, true, false, none, some, List, [], ◌∷◌, ◌++◌, codes}
use ulpf_prism_sih.Dict.{Dict}
use ulpf_prism_sih.Json.{Json, str, arr, nil}
use ulpf_prism_sih.Python.{truthy}
use ulpf_prism_sih.Core.Parsers.{Result, returned, unreadable, ◌>>=◌, Libraries, iterated, option}

abbrev groups_or_error : Libraries → Json → Dict Json → Result (Dict Json)
groups_or_error l pattern [] =
    unreadable (codes "Regex pattern matched but defines no named groups: " ++ l.shown pattern)
groups_or_error l pattern (g ∷ gs) = returned (g ∷ gs)

-- the loop over the patterns, at the result of the first
unfoldable pub try_patterns : Libraries → String → List Json → Result (Dict Json)
try_patterns l raw_payload [] = unreadable (codes "No supplied regex pattern matched the payload")
try_patterns l raw_payload (p ∷ ps) = do
  m ← l.re_search p raw_payload
  elim m [ none ↦ try_patterns l raw_payload ps | some groups ↦ groups_or_error l p groups ]

-- `RegexFormatParser.parse`
unfoldable pub parse : Libraries → String → Dict Json → Result (Dict Json)
parse l raw_payload options =
    let patterns = option "patterns" (arr nil) options in
    elim (truthy l.python patterns) [
      | true ↦ do ps ← iterated patterns; try_patterns l raw_payload ps
      | false ↦ unreadable (codes "RegexFormatParser requires at least one pattern")
    ]

-- `FallbackParser.parse`
unfoldable pub fallback : String → Result (Dict Json)
fallback raw_payload = returned (("message", str raw_payload) ∷ [])
