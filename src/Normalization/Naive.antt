-- ===== src/Normalization/Naive.antt =====
-- src/normalization/mappings/suricata.py and normalizer.py: a source time without an offset.
use Prim.Native.Char.{code}
use mathlib.Core.Bool.{false≢true}
use ulpf_prism_sih.Prelude.{
  ℕ, String, Bool, false, Bool-cases, ◌==◌, if◌then◌else◌, true, Option, none, some, List, ◌≡◌,
  refl, sym, ◌∙◌, ap, inl, inr, arith, some_inj, none_absurd, Option-cases,
}
use ulpf_prism_sih.Dict.{Dict}
use ulpf_prism_sih.Json.{Json, str}
use ulpf_prism_sih.Python.{Python, get}
use ulpf_prism_sih.Contracts.Platform.{Platform}
use ulpf_prism_sih.Contracts.RawEvent.{Timestamp}
use ulpf_prism_sih.Contracts.ParsedEvent.{ParsedEvent}
use ulpf_prism_sih.Normalization.Models.{MappingResult, ◌>>=◌}
use ulpf_prism_sih.Normalization.Common.{endpoint}
use ulpf_prism_sih.Normalization.Registry
use ulpf_prism_sih.Normalization.Registry.{Mappings}
use ulpf_prism_sih.Normalization.Suricata
use ulpf_prism_sih.Normalization.Suricata.{Alert, alert_part, observed, replace_z}
use ulpf_prism_sih.Normalization.Normalizer.{times, is_naive, normalize}
use ulpf_prism_sih.Validation.Issue.{ValidationIssue}

-- The time of a result that is put together from parts, where each part may be missing.
assembled-observed :
    (py : Python) (d : Dict Json) (family : String)
    (source destination : Option (Option (Dict Json))) (part : Option Alert) (m : MappingResult)
    → (source >>= λ s. destination >>= λ t. part >>= λ a. some (Suricata.result py d family s t a))
      ≡ some m
    → m.observed_at ≡ observed py (get "timestamp" d)
unfolding Suricata.result
assembled-observed py d family none destination part m h = none_absurd m h
assembled-observed py d family (some s) none part m h = none_absurd m h
assembled-observed py d family (some s) (some t) none m h = none_absurd m h
assembled-observed py d family (some s) (some t) (some a) m h =
    sym (ap (λ m. m.observed_at) (some_inj h))

-- An event's time is its timestamp, whatever the rest of the record says.
map_event-observed :
    (py : Python) (e : ParsedEvent) {m : MappingResult}
    → Suricata.map_event py e ≡ some m
    → m.observed_at ≡ observed py (get "timestamp" e.extracted_fields)
unfolding Suricata.map_event
map_event-observed py e {m} h =
    assembled-observed py e.extracted_fields _
      (endpoint py e.extracted_fields "src_ip" "src_port" "in_iface")
      (endpoint py e.extracted_fields "dest_ip" "dest_port" "out_iface")
      (alert_part py e.extracted_fields _) m h

times-naive : (now : ℕ) (a b t : Timestamp) → is_naive t.zone ≡ true → times now a b (some t) ≡ none
unfolding times
times-naive now a b t h = ground (arith, h)

abbrev pub has_z : String → Bool
has_z String.[] = false
has_z (String.◌∷◌ c s) = let rest = has_z s in if code c == b'Z' then true else rest

replace_z-same : (s : String) → has_z s ≡ false → replace_z s ≡ s
unfolding replace_z
replace_z-same String.[] h = refl
replace_z-same (String.◌∷◌ c s) h = elim (Bool-cases (code c == b'Z')) [
  | inl z ↦ absurd (false≢true (sym (rw z at h)))
  | inr z ↦ rw z (ap (String.◌∷◌ c) (replace_z-same s (rw z at h)))
]

module _ (p : Platform) (py : Python) (structure : Dict Json → List ValidationIssue) (r : Mappings)
    (now : ℕ) (e : ParsedEvent) where
  -- An event of a pack with the Suricata mapping whose timestamp is a text without the letter Z that
  -- reads as a time without an offset makes the normalizer raise, whatever its other fields and its
  -- own times are.
  pub normalize-naive :
      {t : Timestamp} (s : String)
      → Registry.get e.source_pack_id r ≡ some (Suricata.mapping py)
      → get "timestamp" e.extracted_fields ≡ str s
      → has_z s ≡ false
      → py.fromisoformat s ≡ some t
      → is_naive t.zone ≡ true
      → normalize p py structure r now e ≡ none
  unfolding normalize Suricata.mapping observed
  normalize-naive {t} s g given no_z read z = elim (Option-cases (Suricata.map_event py e)) [
    | inl q ↦ rw (g, q) refl
    | inr (m, q) ↦
        let o : m.observed_at ≡ some t =
          map_event-observed py e q
          ∙ ap (observed py) given
          ∙ ap py.fromisoformat (replace_z-same s no_z)
          ∙ read in
        rw (g, q) (rw o (rw (times-naive now e.parsed_at e.raw_event.ingested_at t z) refl))
  ]
