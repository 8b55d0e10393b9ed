-- ===== src/Core/Parsers/Cef.antt =====
-- core/parsers/cef_parser.py: the Common Event Format.
use Prim.Native.Char.{Char, code}
use ulpf_prism_sih.Prelude.{
  ℕ, zero, suc, String, Bool, true, false, ◌&&◌, not, Option, none, some, List, [], ◌∷◌, ◌++◌, ◌==◌,
  ltb, if◌then◌else◌, length, codes,
}
use ulpf_prism_sih.Decimal
use ulpf_prism_sih.Dict
use ulpf_prism_sih.Dict.{Dict}
use ulpf_prism_sih.Json.{Json, str, obj, of_dict}
use ulpf_prism_sih.Python.Words.{strip}
use ulpf_prism_sih.Core.Parsers.{Result, returned, unreadable, broken, ◌>>=◌, Libraries}
use ulpf_prism_sih.Core.Parsers.KeyValue

abbrev pub push : Char → String × List String → String × List String
push c p = (String.◌∷◌ c p.0, p.1)

abbrev pub parts_of : String × List String → List String
parts_of p = p.0 ∷ p.1

-- `_UNESCAPED_PIPE_SPLIT.split(s, maxsplit=n)`: the first part and the rest; the flag says whether
-- the character before is a backslash
unfoldable pub split : ℕ → Bool → String → String × List String
split zero escaped s = (s, [])
split (suc n) escaped String.[] = ("", [])
split (suc n) escaped (String.◌∷◌ c s) = elim (code c == b'|' && not escaped) [
  | true ↦ ("", parts_of (split n false s))
  | false ↦ push c (split (suc n) (code c == b'\\') s)
]

-- `value.replace("\\|", "|")`
unfoldable pub unescaped : String → String
unescaped String.[] = ""
unescaped (String.◌∷◌ c String.[]) = String.◌∷◌ c ""
unescaped (String.◌∷◌ c (String.◌∷◌ d s)) =
    let after = unescaped s in
    let rest = unescaped (String.◌∷◌ d s) in
    if code c == b'\\' && code d == b'|' then String.◌∷◌ d after else String.◌∷◌ c rest

abbrev names : List String
names =
    "cef_version" ∷ "device_vendor" ∷ "device_product" ∷ "device_version" ∷ "signature_id" ∷ "name"
    ∷ "severity" ∷ []

-- the extension, which may be unreadable
abbrev pub extension_of : Result (Dict Json) → Result (Dict Json)
extension_of (unreadable m) = returned []
extension_of r = r

-- the header's fields by their names, and the extension at the end
unfoldable pub fields_of : Libraries → List String → List String → Dict Json → Result (Dict Json)
fields_of l (n ∷ ns) (p ∷ ps) result = fields_of l ns ps (Dict.assign n (str (unescaped p)) result)
fields_of l [] (extension ∷ []) result = do
  e ← extension_of (KeyValue.parse l extension)
  returned (Dict.assign "extension" (obj (of_dict e)) result)
fields_of l _ _ result = broken (codes "list index out of range")

-- the parts, if there are eight
unfoldable pub with_parts : Libraries → List String → Result (Dict Json)
with_parts l parts =
    if ltb (length parts) 8
    then unreadable (
        codes "CEF payload does not have the required 8 pipe-delimited fields (found "
        ++ Decimal.show (length parts)
        ++ codes ")")
    else fields_of l names parts []

-- the text behind a prefix
unfoldable pub after_prefix : String → String → Option String
after_prefix String.[] s = some s
after_prefix (String.◌∷◌ c t) String.[] = none
after_prefix (String.◌∷◌ c t) (String.◌∷◌ d s) = elim (code c == code d) [
  | true ↦ after_prefix t s
  | false ↦ none
]

unfoldable pub read : Libraries → Option String → Result (Dict Json)
read l none = unreadable (codes "Payload is not a CEF event (missing 'CEF:' prefix)")
read l (some text) = with_parts l (parts_of (split 7 false text))

-- `CEFFormatParser.parse`
unfoldable pub parse : Libraries → String → Result (Dict Json)
parse l raw_payload = read l (after_prefix "CEF:" (strip raw_payload))
