-- ===== src/Integrations/Cef.antt =====
-- src/integrations/cef.py: an event as one line of the Common Event Format.
mod Escaping
pub mod RoundTrip
mod Examples
use Prim.Native.Char.{code}
use Prim.Native.String.{◌++◌ as append}
use ulpf_prism_sih.Prelude.{
  String, Bool, true, false, ◌&&◌, Option, none, some, List, [], ◌∷◌, ◌++◌, ◌==◌, if◌then◌else◌,
}
use ulpf_prism_sih.Dict
use ulpf_prism_sih.Dict.{Dict}
use ulpf_prism_sih.Json.{Json, null, str, obj, fields}
use ulpf_prism_sih.Python.{Python, str_of, truthy, get}

infixl 5 ◌>>=◌
abbrev ◌>>=◌ : {A B : Type 0} → Option A → (A → Option B) → Option B
none >>= f = none
some a >>= f = f a

-- The replacements of `_escape` on a text. Each one leaves the others' characters alone, but for the
-- backslash, which comes first.
unfoldable pub escape : Bool → String → String
escape extension String.[] = ""
escape extension (String.◌∷◌ c s) =
    let rest = escape extension s in
    if code c == b'\\'
    then String.◌∷◌ "\\" (String.◌∷◌ "\\" rest)
    else if code c == 13
    then String.◌∷◌ "\\" (String.◌∷◌ "r" rest)
    else if code c == 10
    then String.◌∷◌ "\\" (String.◌∷◌ "n" rest)
    else if code c == b'|'
    then String.◌∷◌ "\\" (String.◌∷◌ c rest)
    else if code c == b'=' && extension
    then String.◌∷◌ "\\" (String.◌∷◌ c rest)
    else String.◌∷◌ c rest

-- `d[key]` that is a dictionary
abbrev section : String → Dict Json → Option (Dict Json)
section key d = elim (Dict.lookup key d) [ some (obj fs) ↦ some (fields fs) | _ ↦ none ]

-- `event.get(key, {})`, on which `get` is called
abbrev section_or_empty : String → Dict Json → Option (Dict Json)
section_or_empty key d = elim (Dict.lookup key d) [
  | none ↦ some []
  | some (obj fs) ↦ some (fields fs)
  | some v ↦ none
]

abbrev pub Fields : Type 0
Fields = List (String × Json)

-- `if endpoint.get(key)`
abbrev if_given : Python → String → Json → Fields
if_given py name v = if truthy py v then (name, v) ∷ [] else []

-- `if endpoint.get(key) is not None`
abbrev if_some : String → Json → Fields
if_some name null = []
if_some name v = (name, v) ∷ []

-- the pairs of the extension
unfoldable pub extension_fields : Python → Dict Json → Option Fields
extension_fields py event = do
  metadata ← section "event" event
  trace ← section "traceability" event
  action ← section "action" event
  pack ← section "source_pack" trace
  parser ← section "parser" trace
  quality ← section "quality" event
  version ← Dict.lookup "schema_version" event
  id ← Dict.lookup "id" metadata
  hash ← Dict.lookup "raw_sha256" trace
  pack_name ← Dict.lookup "name" pack
  pack_version ← Dict.lookup "version" pack
  parser_name ← Dict.lookup "name" parser
  parser_version ← Dict.lookup "version" parser
  status ← Dict.lookup "status" quality
  act ← Dict.lookup "normalized" action
  source ← section_or_empty "source" event
  destination ← section_or_empty "destination" event
  some (
      (("schemaVersion", version)
        ∷ ("externalId", id)
        ∷ ("rawSha256", hash)
        ∷ ("sourcePack", pack_name)
        ∷ ("sourcePackVersion", pack_version)
        ∷ ("parser", parser_name)
        ∷ ("parserVersion", parser_version)
        ∷ ("quality", status)
        ∷ ("act", act)
        ∷ [])
      ++ if_given py "msg" (get "message" metadata)
      ++ if_given py "src" (get "ip" source)
      ++ if_some "spt" (get "port" source)
      ++ if_given py "dst" (get "ip" destination)
      ++ if_some "dpt" (get "port" destination))

abbrev pair : Python → String × Json → String
pair py (k, v) = append k (append "=" (escape true (str_of py v)))

-- the pairs, with a space between them
unfoldable pub pairs : Python → Fields → String
pairs py [] = ""
pairs py (f ∷ []) = pair py f
pairs py (f ∷ g ∷ fs) = append (pair py f) (append " " (pairs py (g ∷ fs)))

-- a header and an extension, with a pipe behind each field of the header
unfoldable pub joined : List String → String → String
joined [] extension = extension
joined (f ∷ fs) extension = append f (String.◌∷◌ "|" (joined fs extension))

-- the line of a version, a type, a name, a severity and the pairs
unfoldable pub line : Python → Json → Json → Json → Json → Fields → String
line py version type name score fs =
    joined
      ("CEF:0"
        ∷ "ULPF"
        ∷ "Prism"
        ∷ escape false (str_of py version)
        ∷ escape false (str_of py type)
        ∷ escape false (str_of py name)
        ∷ str_of py score
        ∷ [])
      (pairs py fs)

-- `serialize_cef`, before the encoding
unfoldable pub serialize_cef : Python → Dict Json → Option String
serialize_cef py event = do
  fs ← extension_fields py event
  metadata ← section "event" event
  severity ← section "severity" event
  version ← Dict.lookup "schema_version" event
  type ← Dict.lookup "type" metadata
  name ← Dict.lookup "name" metadata
  score ← Dict.lookup "normalized" severity
  some (line py version type name score fs)
