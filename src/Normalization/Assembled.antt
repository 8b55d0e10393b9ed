-- ===== src/Normalization/Assembled.antt =====
-- The sections of an assembled event.
use ulpf_prism_sih.Prelude.{
  String, Option, none, some, [], ◌∷◌, ◌≡◌, refl, if◌then◌else◌, str_eq, arith,
}
use ulpf_prism_sih.Dict
use ulpf_prism_sih.Dict.{Dict, lookup-assign}
use ulpf_prism_sih.Json.{Json, str, obj, of_dict}
use ulpf_prism_sih.Python.{Python, update}
use ulpf_prism_sih.Contracts.ParsedEvent.{ParsedEvent}
use ulpf_prism_sih.Normalization.Models.{MappingResult, NormalizationMapping}
use ulpf_prism_sih.Normalization.Normalizer.{
  Times, utc_z, traceability, quality, extensions, with_section, unify, missing_of, warnings_of,
}

-- the value that `with_section` writes
abbrev pub given : Option (Dict Json) → Option Json
given none = none
given (some []) = none
given (some (kv ∷ s)) = some (obj (of_dict (kv ∷ s)))

abbrev or_old : Option Json → Option Json → Option Json
or_old none old = old
or_old (some v) old = some v

or_old-none : (o : Option Json) → or_old o none ≡ o
or_old-none none = refl
or_old-none (some v) = refl

lookup-with_section :
    (k j : String) (s : Option (Dict Json)) (d : Dict Json)
    → Dict.lookup j (with_section k s d)
      ≡ (if str_eq k j then or_old (given s) (Dict.lookup j d) else Dict.lookup j d)
lookup-with_section k j none d = ground arith
lookup-with_section k j (some []) d = ground arith
lookup-with_section k j (some (kv ∷ s)) d = lookup-assign k j (obj (of_dict (kv ∷ s))) d

abbrev pub event_meta : ParsedEvent → MappingResult → Dict Json
event_meta e m = update (("id", str e.event_id) ∷ ("kind", str "event") ∷ []) m.event

abbrev pub time_section : Python → Times → Dict Json
time_section py t =
    ("observed_at", str (utc_z py t.observed))
    ∷ ("ingested_at", str (utc_z py t.ingested))
    ∷ ("normalized_at", str (utc_z py t.normalized))
    ∷ []

module _ (py : Python) (e : ParsedEvent) (mapping : Option NormalizationMapping) (m : MappingResult)
    (t : Times) (raw_text : Option String) where
  -- What the rules read of an event with a quality section.
  abbrev pub IsAssembled : Dict Json → Dict Json → Type 0
  IsAssembled q d =
      (Dict.lookup "event" d ≡ some (obj (of_dict (event_meta e m))))
      × (Dict.lookup "time" d ≡ some (obj (of_dict (time_section py t))))
      × (Dict.lookup "action" d ≡ some (obj (of_dict m.action)))
      × (Dict.lookup "severity" d ≡ some (obj (of_dict m.severity)))
      × (Dict.lookup "traceability" d ≡ some (obj (of_dict (traceability e raw_text))))
      × (Dict.lookup "quality" d ≡ some (obj (of_dict q)))
      × (Dict.lookup "extensions" d ≡ some (obj (of_dict (extensions py e mapping))))
      × (Dict.lookup "source" d ≡ given m.source)
      × (Dict.lookup "destination" d ≡ given m.destination)
      × (Dict.lookup "threat" d ≡ given m.threat)
      × (Dict.lookup "authentication" d ≡ given m.authentication)

  pub unify-IsAssembled :
      IsAssembled
        (quality e.status (missing_of e m) (warnings_of e m t.late))
        (unify py e mapping m t raw_text)
  unfolding unify Dict.lookup
  unify-IsAssembled = (
    simp lookup-with_section,
    simp lookup-with_section,
    simp lookup-with_section,
    simp lookup-with_section,
    simp lookup-with_section,
    simp lookup-with_section,
    simp lookup-with_section,
    simp lookup-with_section (or_old-none (given m.source)),
    simp lookup-with_section (or_old-none (given m.destination)),
    simp lookup-with_section (or_old-none (given m.threat)),
    simp lookup-with_section (or_old-none (given m.authentication)),
  )

  -- Another quality section takes the old one's place.
  pub assign-IsAssembled :
      (q r d : Dict Json)
      → IsAssembled q d
      → IsAssembled r (Dict.assign "quality" (obj (of_dict r)) d)
  assign-IsAssembled q r d (event, time, action, sev, trace, old, ext, src, dst, thr, auth) = (
    rw lookup-assign event,
    rw lookup-assign time,
    rw lookup-assign action,
    rw lookup-assign sev,
    rw lookup-assign trace,
    rw lookup-assign refl,
    rw lookup-assign ext,
    rw lookup-assign src,
    rw lookup-assign dst,
    rw lookup-assign thr,
    rw lookup-assign auth,
  )
