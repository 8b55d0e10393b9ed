-- ===== src/Core/Parsers/CsvFormat.antt =====
-- core/parsers/csv_parser.py: one line of CSV. A column that is no text counts as an exception.
use ulpf_prism_sih.Prelude.{ℕ, suc, String, true, false, List, [], ◌∷◌, ◌++◌, codes}
use ulpf_prism_sih.Decimal
use Prim.Native.String.{◌++◌ as append}
use ulpf_prism_sih.Dict
use ulpf_prism_sih.Dict.{Dict}
use ulpf_prism_sih.Json.{Json, str}
use ulpf_prism_sih.Python.{truthy, get, string}
use ulpf_prism_sih.Python.Words.{strip}
use ulpf_prism_sih.Core.Parsers.{
  Result, returned, unreadable, broken, ◌>>=◌, Libraries, iterated, option,
}

-- `row + [""] * (len(columns) - len(row))`
unfoldable pub padded : List Json → List String → List String
padded [] row = row
padded (c ∷ cs) [] = "" ∷ padded cs []
padded (c ∷ cs) (v ∷ row) = v ∷ padded cs row

-- `{col: row[i] for i, col in enumerate(columns)}` of a row that is long enough
unfoldable pub by_column : List Json → List String → Dict Json → Result (Dict Json)
by_column [] row d = returned d
by_column (str c ∷ cs) (v ∷ row) d = by_column cs row (Dict.assign c (str v) d)
by_column (str c ∷ cs) [] d = broken (codes "list index out of range")
by_column (v ∷ cs) row d = broken (codes "unsupported column")

-- `{f"col_{i}": val for i, val in enumerate(row)}`
unfoldable pub by_position : ℕ → List String → Dict Json
by_position i [] = []
by_position i (v ∷ row) = (append "col_" (string (Decimal.show i)), str v) ∷ by_position (suc i) row

with_columns : Libraries → Json → List String → Result (Dict Json)
with_columns l columns row = elim (truthy l.python columns) [
  | true ↦ do cs ← iterated columns; by_column cs (padded cs row) []
  | false ↦ returned (by_position 0 row)
]

in_row : Result (List String) → Result (List String)
in_row (returned row) = returned row
in_row (unreadable m) = unreadable (codes "Failed to parse CSV row: " ++ m)
in_row (broken m) = broken m

read : Libraries → String → Dict Json → Result (Dict Json)
read l String.[] options = unreadable (codes "Empty CSV payload")
read l (String.◌∷◌ c s) options = do
  row ← in_row (
      l.csv_row (option "delimiter" (str ",") options) (option "quotechar" (str "\"") options)
        (String.◌∷◌ c s))
  with_columns l (get "columns" options) row

-- `CSVFormatParser.parse`
unfoldable pub parse : Libraries → String → Dict Json → Result (Dict Json)
unfolding with_columns in_row read
parse l raw_payload options = read l (strip raw_payload) options
