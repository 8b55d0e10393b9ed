-- ===== src/Core/Parsers/Selection.antt =====
-- core/parsers/__init__.py: the built-in parsers by the names of their formats.
use ulpf_prism_sih.Prelude.{String, none, some, [], ◌∷◌}
use ulpf_prism_sih.Dict
use ulpf_prism_sih.Dict.{Dict}
use ulpf_prism_sih.Json.{Json}
use ulpf_prism_sih.Core.Parsers.{Result, Libraries}
use ulpf_prism_sih.Core.Parsers.JsonFormat
use ulpf_prism_sih.Core.Parsers.CsvFormat
use ulpf_prism_sih.Core.Parsers.KeyValue
use ulpf_prism_sih.Core.Parsers.Cef
use ulpf_prism_sih.Core.Parsers.RegexFormat
use ulpf_prism_sih.Core.Parsers.Syslog

pub data Format : Type 0 where
  syslog json key_value csv cef regex unknown : Format

-- `BUILTIN_PARSERS`
abbrev builtin_parsers : Dict Format
builtin_parsers =
    ("syslog", syslog)
    ∷ ("json", json)
    ∷ ("key_value", key_value)
    ∷ ("csv", csv)
    ∷ ("cef", cef)
    ∷ ("regex", regex)
    ∷ ("unknown", unknown)
    ∷ []

-- `get_parser`
unfoldable pub get_parser : String → Format
get_parser format_name = elim (Dict.lookup format_name builtin_parsers) [
  | none ↦ unknown
  | some f ↦ f
]

-- the parser's `parse` with a pack's options
unfoldable pub parse : Libraries → Format → String → Dict Json → Result (Dict Json)
parse l syslog raw options = Syslog.parse l raw
parse l json raw options = JsonFormat.parse l raw
parse l key_value raw options = KeyValue.parse l raw
parse l csv raw options = CsvFormat.parse l raw options
parse l cef raw options = Cef.parse l raw
parse l regex raw options = RegexFormat.parse l raw options
parse l unknown raw options = RegexFormat.fallback raw
