-- ===== src/Core/Parsers.antt =====
-- core/parsers: the built-in format parsers and their selection. `json.loads`, `csv.reader` and the
-- regular expressions of `re` are fields of a record, which take the text of an expression.
pub mod JsonFormat
pub mod CsvFormat
pub mod KeyValue
pub mod Cef
pub mod RegexFormat
pub mod Syslog
pub mod Selection
pub mod Sample
use Prim.Native.Char.{code}
use ulpf_prism_sih.Prelude.{
  ℕ, zero, suc, ◌-◌, ◌/◌, ◌%◌, String, Bool, true, false, ◌&&◌, not, Option, none, some, List, [],
  ◌∷◌, ◌++◌, ◌==◌, ltb, if◌then◌else◌, str_eq, length, take, Text, codes,
}
use ulpf_prism_sih.Decimal
use ulpf_prism_sih.Dict
use ulpf_prism_sih.Dict.{Dict}
use ulpf_prism_sih.Int.{ℤ, pos, negsuc}
use ulpf_prism_sih.Json.{
  Json, null, boolean, int, float, str, arr, obj, Items, nil, fields, items, of_dict,
}
use ulpf_prism_sih.Python.{Python, truthy, get, or_null, string}
use ulpf_prism_sih.Python.Words.{strip}

-- How a call ends: it returns, raises a `FormatParsingError` with a text, or raises another exception
-- with its text.
pub data Result (A : Type 0) : Type 0 where
  returned : A → Result A
  unreadable : Text → Result A
  broken : Text → Result A

infixl 5 ◌>>=◌
abbrev pub ◌>>=◌ : {A B : Type 0} → Result A → (A → Result B) → Result B
returned a >>= f = f a
unreadable m >>= f = unreadable m
broken m >>= f = broken m

pub record Libraries : Type 0 where
  pub python : Python
  -- `raw.decode("utf-8", errors="replace")`
  pub decode_replace : List ℕ → String
  -- `repr(value)`
  pub shown : Json → Text
  -- `json.loads`; a `JSONDecodeError` is `unreadable` with its text
  pub loads : String → Result Json
  -- `next(csv.reader(...))` with a delimiter and a quote; `csv.Error` and `StopIteration` are
  -- `unreadable` with their texts
  pub csv_row : Json → Json → String → Result (List String)
  -- the groups of `re.match` with a compiled expression
  pub re_match : String → String → Option (Dict Json)
  -- the groups of the matches of `re.finditer`
  pub re_finditer : String → String → List (Dict Json)
  -- the groups of `re.search` with a value as the expression, or its exception
  pub re_search : Json → String → Result (Option (Dict Json))

-- what a loop over a value gets
chars : String → List Json
chars String.[] = []
chars (String.◌∷◌ c s) = str (String.◌∷◌ c "") ∷ chars s

keys : Dict Json → List Json
keys [] = []
keys ((k, v) ∷ d) = str k ∷ keys d

-- `for x in value`, and the `TypeError`
unfoldable pub iterated : Json → Result (List Json)
unfolding chars keys
iterated (str s) = returned (chars s)
iterated (arr vs) = returned (items vs)
iterated (obj fs) = returned (keys (fields fs))
iterated v = broken (codes "object is not iterable")

-- `options.get(key, default)`
abbrev pub option : String → Json → Dict Json → Json
option key default options = elim (Dict.lookup key options) [ none ↦ default | some v ↦ v ]
