-- ===== src/Normalization/Keeping.antt =====
-- src/normalization/normalizer.py: the sections that hold what the parser found.
use mathlib.Core.Path.{subst}
use ulpf_prism_sih.Prelude.{
  ℕ, String, Bool, true, false, Option, some, List, ◌≡◌, refl, inl, inr, some_inj, none_absurd,
  Option-cases, if◌then◌else◌, str_eq, str_eq_refl,
}
use ulpf_prism_sih.Dict
use ulpf_prism_sih.Dict.{Dict}
use ulpf_prism_sih.Json.{
  Json, null, boolean, int, float, str, arr, obj, Items, nil, cons, Fields, end, field, of_dict,
}
use ulpf_prism_sih.Python.{Python}
use ulpf_prism_sih.Contracts.Platform.{Platform}
use ulpf_prism_sih.Contracts.RawEvent.{raw_bytes}
use ulpf_prism_sih.Contracts.ParsedEvent.{ParsedEvent}
use ulpf_prism_sih.Normalization.Models.{MappingResult, NormalizationMapping}
use ulpf_prism_sih.Normalization.Registry
use ulpf_prism_sih.Normalization.Registry.{Mappings}
use ulpf_prism_sih.Normalization.Normalizer.{
  Times, times, raw_text_of, mapped_by, unify, checked, normalize, namespace, extensions,
  json_value, json_values, json_fields, traceability,
}
use ulpf_prism_sih.Normalization.Assembled.{IsAssembled, unify-IsAssembled, assign-IsAssembled}
use ulpf_prism_sih.Validation.Issue.{ValidationIssue}

mutual
  unfolding json_value json_values json_fields

  json_value_same : (v : Json) → json_value v ≡ v
  json_value_same null = refl
  json_value_same (boolean b) = refl
  json_value_same (int n) = refl
  json_value_same (float x) = refl
  json_value_same (str s) = refl
  json_value_same (arr vs) = cc (json_values_same vs)
  json_value_same (obj fs) = cc (json_fields_same fs)

  json_values_same : (vs : Items) → json_values vs ≡ vs
  json_values_same nil = refl
  json_values_same (cons v vs) = cc (json_value_same v, json_values_same vs)

  json_fields_same : (fs : Fields) → json_fields fs ≡ fs
  json_fields_same end = refl
  json_fields_same (field k v fs) = cc (json_value_same v, json_fields_same fs)

-- The pack's namespace holds the extracted fields.
extensions-namespace :
    (py : Python) (e : ParsedEvent) (mapping : Option NormalizationMapping)
    → str_eq (namespace py e.source_pack_id) "ulpf" ≡ false
    → Dict.lookup (namespace py e.source_pack_id) (extensions py e mapping)
      ≡ some (obj (of_dict e.extracted_fields))
unfolding extensions Dict.lookup Dict.assign
extensions-namespace py e mapping h = rw h (
    rw (str_eq_refl (namespace py e.source_pack_id), json_fields_same (of_dict e.extracted_fields))
      refl)

module _ (p : Platform) (py : Python) (structure : Dict Json → List ValidationIssue)
    (e : ParsedEvent) (mapping : Option NormalizationMapping) (m : MappingResult) (t : Times)
    (raw_text : Option String) where
  if-IsAssembled :
      (b : Bool) (q s x y : Dict Json)
      → IsAssembled py e mapping m t raw_text q x
      → IsAssembled py e mapping m t raw_text s y
      → (o : Dict Json) × IsAssembled py e mapping m t raw_text o (if b then x else y)
  if-IsAssembled true q s x y h k = (q, h)
  if-IsAssembled false q s x y h k = (s, k)

  checked-IsAssembled :
      (q : Dict Json) × IsAssembled py e mapping m t raw_text q
        (checked p py structure e m t (unify py e mapping m t raw_text))
  unfolding checked
  checked-IsAssembled =
      let a = unify-IsAssembled py e mapping m t raw_text in
      if-IsAssembled _ _ _ _ _ a (assign-IsAssembled py e mapping m t raw_text _ _ _ a)

  -- The traceability section names the raw event's hash.
  abbrev pub NamesHash : Dict Json → Type 0
  NamesHash u =
      (trace : Dict Json) × (Dict.lookup "traceability" u ≡ some (obj (of_dict trace)))
      × (Dict.lookup "raw_sha256" trace ≡ some (str e.raw_event.raw_sha256))

  checked-NamesHash : NamesHash (checked p py structure e m t (unify py e mapping m t raw_text))
  unfolding traceability Dict.lookup
  checked-NamesHash = (traceability e raw_text, (checked-IsAssembled).1.4, refl)

  abbrev Kept : Dict Json → Type 0
  Kept u =
      (extension : Dict Json) × (trace : Dict Json) × (Dict.lookup "extensions" u
        ≡ some (obj (of_dict extension)))
      × (Dict.lookup (namespace py e.source_pack_id) extension
          ≡ some (obj (of_dict e.extracted_fields)))
      × (Dict.lookup "traceability" u ≡ some (obj (of_dict trace)))
      × (Dict.lookup "raw_event_id" trace ≡ some (str e.raw_event.event_id))
      × (Dict.lookup "raw_sha256" trace ≡ some (str e.raw_event.raw_sha256))

  checked-Kept :
      str_eq (namespace py e.source_pack_id) "ulpf" ≡ false
      → Kept (checked p py structure e m t (unify py e mapping m t raw_text))
  unfolding traceability Dict.lookup
  checked-Kept n =
      let (q, a) = checked-IsAssembled in
      (
        extensions py e mapping,
        traceability e raw_text,
        a.6,
        extensions-namespace py e mapping n,
        a.4,
        refl,
        refl,
      )

module _ (p : Platform) (py : Python) (structure : Dict Json → List ValidationIssue) (r : Mappings)
    (now : ℕ) (e : ParsedEvent) where
  -- Whatever the mapping says, a normalized event has all the extracted fields, unchanged, under
  -- the namespace of its pack, provided that this namespace is not `ulpf`; and it names the raw
  -- event's id and hash.
  pub normalize-extracted_fields :
      {u : Dict Json}
      → str_eq (namespace py e.source_pack_id) "ulpf" ≡ false
      → normalize p py structure r now e ≡ some u
      → (extension : Dict Json) × (trace : Dict Json) × (Dict.lookup "extensions" u
          ≡ some (obj (of_dict extension)))
        × (Dict.lookup (namespace py e.source_pack_id) extension
            ≡ some (obj (of_dict e.extracted_fields)))
        × (Dict.lookup "traceability" u ≡ some (obj (of_dict trace)))
        × (Dict.lookup "raw_event_id" trace ≡ some (str e.raw_event.event_id))
        × (Dict.lookup "raw_sha256" trace ≡ some (str e.raw_event.raw_sha256))
  unfolding normalize
  normalize-extracted_fields n h =
      let mapping = Registry.get e.source_pack_id r in
      elim (Option-cases (mapped_by mapping e)) [
        | inl q ↦ none_absurd _ (rw q at h)
        | inr (m, q) ↦
            elim (Option-cases (times now e.parsed_at e.raw_event.ingested_at m.observed_at)) [
              | inl w ↦ none_absurd _ (rw (q, w) at h)
              | inr (t, w) ↦ elim (Option-cases (raw_text_of py (raw_bytes e.raw_event))) [
                | inl x ↦ none_absurd _ (rw (q, w, x) at h)
                | inr (raw_text, x) ↦
                    subst (Kept p py structure e mapping m t raw_text)
                      (some_inj (rw (q, w, x) at h))
                      (checked-Kept p py structure e mapping m t raw_text n)
              ]
            ]
      ]

  pub normalize-raw_sha256 :
      {u : Dict Json}
      → normalize p py structure r now e ≡ some u
      → (trace : Dict Json) × (Dict.lookup "traceability" u ≡ some (obj (of_dict trace)))
        × (Dict.lookup "raw_sha256" trace ≡ some (str e.raw_event.raw_sha256))
  unfolding normalize
  normalize-raw_sha256 h =
      let mapping = Registry.get e.source_pack_id r in
      elim (Option-cases (mapped_by mapping e)) [
        | inl q ↦ none_absurd _ (rw q at h)
        | inr (m, q) ↦
            elim (Option-cases (times now e.parsed_at e.raw_event.ingested_at m.observed_at)) [
              | inl w ↦ none_absurd _ (rw (q, w) at h)
              | inr (t, w) ↦ elim (Option-cases (raw_text_of py (raw_bytes e.raw_event))) [
                | inl x ↦ none_absurd _ (rw (q, w, x) at h)
                | inr (raw_text, x) ↦
                    subst (NamesHash p py structure e mapping m t raw_text)
                      (some_inj (rw (q, w, x) at h))
                      (checked-NamesHash p py structure e mapping m t raw_text)
              ]
            ]
      ]
