-- ===== src/Integrations/Cef/RoundTrip.antt =====
-- The header of a serialized event through the parser of the Common Event Format.
use Prim.Native.String.{◌++◌ as append}
use text.Mathlib.TextLemmas.{cons-append}
use ulpf_prism_sih.Prelude.{
  suc, String, true, false, some, List, [], ◌∷◌, ◌++◌, ◌≡◌, refl, sym, ap, ◌∙◌, length,
}
use mathlib.Core.Path.{subst}
use ulpf_prism_sih.Dict
use ulpf_prism_sih.Dict.{Dict}
use ulpf_prism_sih.Json.{Json, str, obj, of_dict}
use ulpf_prism_sih.Python.{str_of}
use ulpf_prism_sih.Python.Words.{strip}
use ulpf_prism_sih.Integrations.Cef.{escape, joined, line, Fields, pairs}
use ulpf_prism_sih.Core.Parsers.{Result, returned, ◌>>=◌, Libraries}
use ulpf_prism_sih.Core.Parsers.Cef.{
  split, parts_of, unescaped, fields_of, with_parts, read, parse, after_prefix, extension_of,
}
use ulpf_prism_sih.Core.Parsers.KeyValue
use ulpf_prism_sih.Integrations.Cef.Escaping.{is_plain, split-escape, unescaped-escape}

-- Fields that a serializer wrote.
abbrev AreEscaped : List String → Type 0
AreEscaped [] = Unit
AreEscaped (g ∷ gs) = ((f : String) × (is_plain f ≡ true) × (escape false f ≡ g)) × AreEscaped gs

split_zero : (x : String) → parts_of (split 0 false x) ≡ x ∷ []
unfolding split
split_zero x = refl

split-joined :
    (gs : List String) (x : String)
    → AreEscaped gs
    → parts_of (split (length gs) false (joined gs x)) ≡ gs ++ x ∷ []
unfolding joined
split-joined [] x h = split_zero x
split-joined (g ∷ gs) x ((f, plain, e), h) =
    rw
      (subst
        (λ y.
          split (suc (length gs)) false (append y (String.◌∷◌ "|" (joined gs x)))
          ≡ (y, parts_of (split (length gs) false (joined gs x))))
        e (split-escape (length gs) f (joined gs x) plain))
      (ap (λ ps. g ∷ ps) (split-joined gs x h))

after_header : (z : String) → after_prefix "CEF:" (append "CEF:0" z) ≡ some (append "0" z)
unfolding after_prefix
after_header z =
    rw (cons-append "C" "EF:0" z)
      (rw (cons-append "E" "F:0" z) (rw (cons-append "F" ":0" z) (rw (cons-append ":" "0" z) refl)))

module _ (l : Libraries) (a b c d fields_text : String) where
  abbrev Parsed : Result (Dict Json)
  Parsed = do
    e ← extension_of (KeyValue.parse l fields_text)
    returned (
        ("cef_version", str "0")
        ∷ ("device_vendor", str "ULPF")
        ∷ ("device_product", str "Prism")
        ∷ ("device_version", str a)
        ∷ ("signature_id", str b)
        ∷ ("name", str c)
        ∷ ("severity", str d)
        ∷ ("extension", obj (of_dict e))
        ∷ [])

  with_parts-header :
      (w x y : String)
      → unescaped w ≡ a
      → unescaped x ≡ b
      → unescaped y ≡ c
      → unescaped d ≡ d
      → with_parts l ("0" ∷ "ULPF" ∷ "Prism" ∷ w ∷ x ∷ y ∷ d ∷ fields_text ∷ []) ≡ Parsed
  unfolding with_parts fields_of Dict.assign unescaped
  with_parts-header w x y p q r s = rw (p, q, r, s) refl

-- A serialized event, read by the CEF parser: the header's fields are the version, the type, the name
-- and the severity of the event, and the extension is what the key/value parser reads of its pairs, or
-- nothing; provided that no white space stands at the line's ends, that these texts have no backslash
-- and no line end, and that the severity's has nothing to escape.
pub line-parse :
    (l : Libraries) (version type name score : Json) (fs : Fields)
    → is_plain (str_of l.python version) ≡ true
    → is_plain (str_of l.python type) ≡ true
    → is_plain (str_of l.python name) ≡ true
    → is_plain (str_of l.python score) ≡ true
    → escape false (str_of l.python score) ≡ str_of l.python score
    → strip (line l.python version type name score fs) ≡ line l.python version type name score fs
    → parse l (line l.python version type name score fs) ≡ (do
      e ← extension_of (KeyValue.parse l (pairs l.python fs))
      returned (
          ("cef_version", str "0")
          ∷ ("device_vendor", str "ULPF")
          ∷ ("device_product", str "Prism")
          ∷ ("device_version", str (str_of l.python version))
          ∷ ("signature_id", str (str_of l.python type))
          ∷ ("name", str (str_of l.python name))
          ∷ ("severity", str (str_of l.python score))
          ∷ ("extension", obj (of_dict e))
          ∷ []))
unfolding parse read line joined escape is_plain
line-parse l version type name score fs v t n s fixed stripped =
    let py = l.python in
    let gs =
      "ULPF"
      ∷ "Prism"
      ∷ escape false (str_of py version)
      ∷ escape false (str_of py type)
      ∷ escape false (str_of py name)
      ∷ str_of py score
      ∷ [] in
    ap (λ x. read l (after_prefix "CEF:" x)) stripped
    ∙ ap (read l) (after_header (String.◌∷◌ "|" (joined gs (pairs py fs))))
    ∙ ap (with_parts l) (
        split-joined ("0" ∷ gs) (pairs py fs) (
          ("0", refl, refl),
          (
            ("ULPF", refl, refl),
            (
              ("Prism", refl, refl),
              (
                (str_of py version, v, refl),
                (
                  (str_of py type, t, refl),
                  ((str_of py name, n, refl), ((str_of py score, s, fixed), tt)),
                ),
              ),
            ),
          ),
        ))
    ∙ with_parts-header l _ _ _ _ _ _ _ _ (unescaped-escape (str_of py version) v)
        (unescaped-escape (str_of py type) t) (unescaped-escape (str_of py name) n)
        (ap unescaped (sym fixed) ∙ unescaped-escape (str_of py score) s)
