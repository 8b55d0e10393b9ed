-- ===== src/Core/Parsers/Sample.antt =====
-- Small libraries for the examples: every text is one JSON object, and nothing matches.
use ulpf_prism_sih.Prelude.{none, []}
use ulpf_prism_sih.Json.{str, obj, end, field}
use ulpf_prism_sih.Python.Sample.{python}
use ulpf_prism_sih.Core.Parsers.{Libraries, returned, unreadable}

abbrev pub libraries : Libraries
libraries = record {
  python = python;
  decode_replace = λ raw. "deny";
  shown = λ v. [];
  loads = λ s. returned (obj (field "src" (str "10.0.0.1") end));
  csv_row = λ d q s. unreadable [];
  re_match = λ e s. none;
  re_finditer = λ e s. [];
  re_search = λ p s. returned none;
}
