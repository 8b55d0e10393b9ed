-- ===== src/Integrations/Cef/Examples.antt =====
-- The round trip of a header at a concrete event.
use ulpf_prism_sih.Prelude.{[], ◌∷◌, ◌≡◌, refl, true, false}
use ulpf_prism_sih.Json.{Json, str, obj, end}
use ulpf_prism_sih.Python.{str_of}
use ulpf_prism_sih.Python.Words.{strip}
use ulpf_prism_sih.Python.Sample.{python}
use ulpf_prism_sih.Core.Parsers.{returned}
use ulpf_prism_sih.Core.Parsers.Sample.{libraries}
use ulpf_prism_sih.Core.Parsers.Cef.{parse}
use ulpf_prism_sih.Integrations.Cef.{escape, line, Fields}
use ulpf_prism_sih.Integrations.Cef.RoundTrip.{line-parse}
use ulpf_prism_sih.Integrations.Cef.Escaping.{is_plain}

abbrev action : Fields
action = ("act", str "deny") ∷ []

abbrev score : Json
score = str "5"

stripped :
    strip (line python (str "1.0.0") (str "deny") (str "a|b") score action)
    ≡ line python (str "1.0.0") (str "deny") (str "a|b") score action
unfolding line strip ulpf_prism_sih.Integrations.Cef.joined escape str_of
    ulpf_prism_sih.Integrations.Cef.pairs
stripped = refl

plain : is_plain (str_of python (str "1.0.0")) ≡ true
unfolding is_plain str_of
plain = refl

plain_type : is_plain (str_of python (str "deny")) ≡ true
unfolding is_plain str_of
plain_type = refl

plain_name : is_plain (str_of python (str "a|b")) ≡ true
unfolding is_plain str_of
plain_name = refl

plain_score : is_plain (str_of python score) ≡ true
unfolding is_plain str_of
plain_score = refl

fixed : escape false (str_of python score) ≡ str_of python score
unfolding str_of escape
fixed = refl

line-parse_example :
    parse libraries (line python (str "1.0.0") (str "deny") (str "a|b") score action)
    ≡ returned (
        ("cef_version", str "0")
        ∷ ("device_vendor", str "ULPF")
        ∷ ("device_product", str "Prism")
        ∷ ("device_version", str "1.0.0")
        ∷ ("signature_id", str "deny")
        ∷ ("name", str "a|b")
        ∷ ("severity", str "5")
        ∷ ("extension", obj end)
        ∷ [])
unfolding ulpf_prism_sih.Core.Parsers.KeyValue.parse str_of
line-parse_example =
    line-parse libraries (str "1.0.0") (str "deny") (str "a|b") score action plain plain_type
      plain_name plain_score fixed stripped
