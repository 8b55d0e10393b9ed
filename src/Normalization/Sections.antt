-- ===== src/Normalization/Sections.antt =====
-- The semantic rules on the sections that the normalizer writes itself.
use Prim.Native.String.{◌++◌ as append}
use text.Mathlib.TextLemmas.{cons-append}
use ulpf_prism_sih.Prelude.{
  ℕ, ◌≤◌, String, true, ◌&&◌, Option, none, some, [], ◌∷◌, ◌≡◌, refl, ap, inl, inr, arith, str_eq,
  str_eq_iff, str_eq_refl, Bool-cases, Option-cases, none_absurd, some_inj, Bytes, length, ◌==◌,
}
use ulpf_prism_sih.Dict
use ulpf_prism_sih.Dict.{Dict, lookup-assign}
use ulpf_prism_sih.Json.{Json, str}
use ulpf_prism_sih.Python.{Python, get}
use ulpf_prism_sih.Python.Words.{is_snake_case}
use ulpf_prism_sih.Python.Words.Snake.{named-words}
use ulpf_prism_sih.Contracts.Platform.{Platform}
use ulpf_prism_sih.Contracts.RawEvent.{Timestamp, utc, raw_bytes, verify_evidence}
use ulpf_prism_sih.Contracts.ParsedEvent.{ParsedEvent}
use ulpf_prism_sih.Normalization.Models.{NormalizationMapping}
use ulpf_prism_sih.Normalization.Normalizer.{
  Times, times, utc_z, namespace, traceability, extensions, raw_text_of, text_or,
}
use ulpf_prism_sih.Normalization.Assembled.{time_section}
use ulpf_prism_sih.Validation.Semantics.{
  ends_in_z, but_last, parse_utc, timestamp_order, time_rule, namespace_rule, extension_rule,
  content_rule, integrity_rule,
}

ends_in_z-append : (s : String) → ends_in_z (append s "Z") ≡ true
unfolding ends_in_z
ends_in_z-append String.[] = refl
ends_in_z-append (String.◌∷◌ c String.[]) = rw cons-append refl
ends_in_z-append (String.◌∷◌ c (String.◌∷◌ d s)) =
    rw (cons-append c (String.◌∷◌ d s) "Z", cons-append d s "Z")
      (rw (cons-append d s "Z") at (ends_in_z-append (String.◌∷◌ d s)))

but_last-append : (s : String) → but_last (append s "Z") ≡ s
unfolding but_last
but_last-append String.[] = refl
but_last-append (String.◌∷◌ c String.[]) = rw cons-append refl
but_last-append (String.◌∷◌ c (String.◌∷◌ d s)) =
    rw (cons-append c (String.◌∷◌ d s) "Z", cons-append d s "Z")
      (ap (String.◌∷◌ c) (rw (cons-append d s "Z") at (but_last-append (String.◌∷◌ d s))))

pub parse_utc-utc_z :
    (py : Python) (t : ℕ)
    → parse_utc py (str (utc_z py t)) ≡ some (record { instant = t; zone = utc })
unfolding parse_utc utc_z
parse_utc-utc_z py t =
    rw (ends_in_z-append (py.isoformat t), but_last-append (py.isoformat t))
      (py.fromisoformat-isoformat t)

-- The instants are in order.
pub times-ordered :
    (now : ℕ) (a b : Timestamp) (c : Option Timestamp) {t : Times}
    → times now a b c ≡ some t
    → (t.observed ≤ t.ingested) × (t.ingested ≤ t.normalized)
unfolding times
times-ordered now a b none h = ground arith
times-ordered now a b (some c) h = ground arith

pub time_rule-nil :
    (py : Python) (t : Times)
    → t.observed ≤ t.ingested
    → t.ingested ≤ t.normalized
    → time_rule py (some (time_section py t)) ≡ []
unfolding time_rule timestamp_order get Dict.lookup
time_rule-nil py t h k =
    rw
      (
        parse_utc-utc_z py t.observed,
        parse_utc-utc_z py t.ingested,
        parse_utc-utc_z py t.normalized,
      )
      (ground arith)

pub namespace-is_snake_case :
    (py : Python) (id : Option String) → is_snake_case (namespace py id) ≡ true
unfolding namespace is_snake_case
namespace-is_snake_case py id =
    named-words (py.lower (text_or "unknown_source" id)) "unknown_source" refl

namespace_rule-assign :
    (k j : String) (v w : Json)
    → is_snake_case k ≡ true
    → is_snake_case j ≡ true
    → namespace_rule (Dict.assign j v ((k, w) ∷ [])) ≡ []
unfolding namespace_rule Dict.assign
namespace_rule-assign k j v w h g = elim (Bool-cases (str_eq k j)) [
  | inl e ↦ rw e (rw h)
  | inr e ↦ rw e (rw (h, g))
]

ulpf_name : is_snake_case "ulpf" ≡ true
unfolding is_snake_case
ulpf_name = refl

pub extension_rule-nil :
    (py : Python) (e : ParsedEvent) (m : Option NormalizationMapping)
    → extension_rule (some (extensions py e m)) ≡ []
unfolding extension_rule extensions
extension_rule-nil py e m =
    namespace_rule-assign (namespace py e.source_pack_id) "ulpf" _ _
      (namespace-is_snake_case py e.source_pack_id) ulpf_name

-- A text that UTF-8 gives back hashes as the bytes do.
content_rule-nil :
    (p : Platform) (py : Python) (raw : Bytes) (claimed s : String)
    → str_eq (p.hexdigest raw) claimed ≡ true
    → py.decode raw ≡ some s
    → content_rule p (str s) (str claimed) ≡ []
unfolding content_rule
content_rule-nil p py raw claimed s h d =
    let e = (str_eq_iff (p.hexdigest raw) claimed).0 h in
    rw (py.encode-decode raw d, e, str_eq_refl claimed)

matches :
    (p : Platform) (e : ParsedEvent) (raw : Bytes)
    → (length raw == e.raw_event.raw_size && str_eq (p.hexdigest raw) e.raw_event.raw_sha256) ≡ true
    → str_eq (p.hexdigest raw) e.raw_event.raw_sha256 ≡ true
matches p e raw h = ground arith

pub integrity_rule-nil :
    (p : Platform) (py : Python) (e : ParsedEvent) (raw_text : Option String)
    → verify_evidence p e.raw_event ≡ true
    → raw_text_of py (raw_bytes e.raw_event) ≡ some raw_text
    → integrity_rule p (some (traceability e raw_text)) ≡ []
unfolding integrity_rule traceability get Dict.lookup verify_evidence
integrity_rule-nil p py e none v d = refl
integrity_rule-nil p py e (some s) v d = elim (Option-cases (raw_bytes e.raw_event)) [
  | inl q ↦ none_absurd (some s) (rw q at d)
  | inr (raw, q) ↦
      content_rule-nil p py raw e.raw_event.raw_sha256 s (matches p e raw (rw q at v))
        (some_inj (rw q at d))
]
