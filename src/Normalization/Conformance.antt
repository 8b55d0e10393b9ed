-- ===== src/Normalization/Conformance.antt =====
-- The normalizer with the bundled mappings against the semantic rules.
use mathlib.Core.Path.{subst}
use ulpf_prism_sih.Prelude.{
  ℕ, String, true, false, Option, none, some, List, [], ◌∷◌, ◌++◌, ◌≡◌, ◌≢◌, refl, ◌⊎◌, inl, inr,
  arith, ap, some_inj, none_absurd, Option-cases,
}
use ulpf_prism_sih.Dict
use ulpf_prism_sih.Dict.{Dict}
use ulpf_prism_sih.Json.{Json, obj, of_dict}
use ulpf_prism_sih.Python.{Python, get}
use ulpf_prism_sih.Python.Ordered.{insert, sorted_set, unique}
use ulpf_prism_sih.Contracts.Platform.{Platform}
use ulpf_prism_sih.Contracts.RawEvent.{raw_bytes, verify_evidence}
use ulpf_prism_sih.Contracts.Status.{ParseStatus}
use ulpf_prism_sih.Contracts.ParsedEvent.{ParsedEvent}
use ulpf_prism_sih.Normalization.Models.{MappingResult, NormalizationMapping}
use ulpf_prism_sih.Normalization.Registry
use ulpf_prism_sih.Normalization.Registry.{Mappings}
use ulpf_prism_sih.Normalization.CiscoAsa
use ulpf_prism_sih.Normalization.FortiGate
use ulpf_prism_sih.Normalization.LinuxSyslog
use ulpf_prism_sih.Normalization.Normalizer.{
  Times, times, raw_text_of, mapped_by, quality, invalidated, unify, missing_of, warnings_of,
  checked, normalize,
}
use ulpf_prism_sih.Normalization.Assembled.{unify-IsAssembled, assign-IsAssembled, time_section}
use ulpf_prism_sih.Normalization.Sections.{times-ordered, time_rule-nil, integrity_rule-nil}
use ulpf_prism_sih.Normalization.Quality.{
  warnings_of-mapping, warnings_of-issues, uncertainty_rule-nil, partial_rule-nil,
  invalidated_rules,
}
use ulpf_prism_sih.Normalization.Soundness.{IsSound, rules-nil}
use ulpf_prism_sih.Normalization.Soundness.Mappings.{asa-IsSound, syslog-IsSound, unknown-IsSound}
use ulpf_prism_sih.Normalization.Soundness.Logins.{fortigate-IsSound}
use ulpf_prism_sih.Validation.Issue.{ValidationIssue, canonical, order, is_valid}
use ulpf_prism_sih.Validation.Semantics.{rules, validate_semantics, time_rule}
use ulpf_prism_sih.Validation.Events.{validate_event}

-- No mapping, or one of the bundled ones but that of Suricata.
abbrev pub IsBundled : Python → Option NormalizationMapping → Type 0
IsBundled py mapping =
    (mapping ≡ none)
    ⊎ ((mapping ≡ some (CiscoAsa.mapping py))
        ⊎ ((mapping ≡ some (LinuxSyslog.mapping py)) ⊎ (mapping ≡ some (FortiGate.mapping py))))

bundled-IsSound :
    (py : Python) (e : ParsedEvent) (mapping : Option NormalizationMapping) {m : MappingResult}
    → IsBundled py mapping
    → mapped_by mapping e ≡ some m
    → IsSound py e m
unfolding CiscoAsa.mapping LinuxSyslog.mapping FortiGate.mapping
bundled-IsSound py e mapping (inl b) h =
    subst (IsSound py e) (some_inj (rw b at h)) (unknown-IsSound py e)
bundled-IsSound py e mapping (inr (inl b)) h = asa-IsSound py e (rw b at h)
bundled-IsSound py e mapping (inr (inr (inl b))) h = syslog-IsSound py e (rw b at h)
bundled-IsSound py e mapping (inr (inr (inr b))) h = fortigate-IsSound py e (rw b at h)

-- A partial event carries an issue.
abbrev pub IsExplained : ParsedEvent → Type 0
IsExplained e = e.status ≡ ParseStatus.partial → e.issues ≢ []

is_valid-insert :
    (i : ValidationIssue) (is : List ValidationIssue) → is_valid (insert order i is) ≡ false
unfolding insert
is_valid-insert i [] = refl
is_valid-insert i (j ∷ is) = ground arith

canonical-nil : (is : List ValidationIssue) → is_valid (canonical is) ≡ true → is ≡ []
unfolding canonical
canonical-nil [] h = refl
canonical-nil (i ∷ is) h = cc (is_valid-insert i (sorted_set order is))

append-nil_right : {A : Type 0} (xs ys : List A) → xs ++ ys ≡ [] → ys ≡ []
append-nil_right [] ys h = h
append-nil_right (x ∷ xs) ys h = cc

module _ (p : Platform) (py : Python) (e : ParsedEvent) (mapping : Option NormalizationMapping)
    {m : MappingResult} (t : Times) (raw_text : Option String) (now : ℕ)
    (bundled : IsBundled py mapping) (verified : verify_evidence p e.raw_event ≡ true)
    (mapped : mapped_by mapping e ≡ some m)
    (timed : times now e.parsed_at e.raw_event.ingested_at m.observed_at ≡ some t)
    (decoded : raw_text_of py (raw_bytes e.raw_event) ≡ some raw_text) where
  clock : time_rule py (some (time_section py t)) ≡ []
  clock = let (a, b) = times-ordered now _ _ m.observed_at timed in time_rule-nil py t a b

  sound : IsSound py e m
  sound = bundled-IsSound py e mapping bundled mapped

  assembled_rules : IsExplained e → rules p py (unify py e mapping m t raw_text) ≡ []
  assembled_rules explained =
      rules-nil p py e mapping m t raw_text _ _ sound (unify-IsAssembled py e mapping m t raw_text)
        (partial_rule-nil py e.status (missing_of e m) (warnings_of e m t.late)
          (λ h. warnings_of-issues e m t.late (explained h)))
        (uncertainty_rule-nil py e.status (missing_of e m) (warnings_of e m t.late)
          (get "label" m.severity) (λ h. warnings_of-mapping e m t.late (sound.6 h)))
        clock (integrity_rule-nil p py e raw_text verified decoded)

  unify-semantics : IsExplained e → validate_semantics p py (unify py e mapping m t raw_text) ≡ []
  unfolding validate_semantics canonical sorted_set
  unify-semantics explained = rw (assembled_rules explained)

  -- the rules on the event with the quality section of its issues
  invalidated_semantics :
      (i : ValidationIssue) (is : List ValidationIssue)
      → validate_semantics p py (
          Dict.assign "quality"
            (obj (
              of_dict (
                invalidated
                  (unique (warnings_of e m t.late))
                  (quality e.status (missing_of e m) (warnings_of e m t.late))
                  (i ∷ is))))
            (unify py e mapping m t raw_text))
        ≡ []
  unfolding validate_semantics canonical sorted_set
  invalidated_semantics i is =
      let q = quality e.status (missing_of e m) (warnings_of e m t.late) in
      let (told, known) =
        invalidated_rules py (unique (warnings_of e m t.late)) q i is (get "label" m.severity) in
      rw (
        rules-nil p py e mapping m t raw_text _ _ sound
          (assign-IsAssembled py e mapping m t raw_text q _ _
            (unify-IsAssembled py e mapping m t raw_text))
          told known clock (integrity_rule-nil p py e raw_text verified decoded))

  module _ (structure : Dict Json → List ValidationIssue) where
    checked-semantics :
        (issues : List ValidationIssue)
        → validate_event p py structure (unify py e mapping m t raw_text) ≡ issues
        → validate_semantics p py (checked p py structure e m t (unify py e mapping m t raw_text))
          ≡ []
    unfolding checked validate_event
    checked-semantics [] h = rw h (
        append-nil_right (structure (unify py e mapping m t raw_text)) _
          (canonical-nil _ (ap is_valid h)))
    checked-semantics (i ∷ is) h = rw h (invalidated_semantics i is)

    unify-validate_event :
        structure (unify py e mapping m t raw_text) ≡ []
        → IsExplained e
        → validate_event p py structure (unify py e mapping m t raw_text) ≡ []
    unfolding validate_event canonical sorted_set
    unify-validate_event accepted explained = rw (accepted, unify-semantics explained)

module _ (p : Platform) (py : Python) (structure : Dict Json → List ValidationIssue) (r : Mappings)
    (now : ℕ) (e : ParsedEvent) where
  -- Every event that the normalizer returns passes the semantic rules, whatever the JSON schema
  -- says of it: if its raw event's evidence verifies, and its pack has no mapping or the Cisco ASA,
  -- the Linux syslog or the FortiGate mapping.
  pub normalize-validate_semantics :
      {u : Dict Json}
      → verify_evidence p e.raw_event ≡ true
      → IsBundled py (Registry.get e.source_pack_id r)
      → normalize p py structure r now e ≡ some u
      → validate_semantics p py u ≡ []
  unfolding normalize
  normalize-validate_semantics v b h =
      elim (Option-cases (mapped_by (Registry.get e.source_pack_id r) e)) [
        | inl q ↦ none_absurd _ (rw q at h)
        | inr (m, q) ↦
            elim (Option-cases (times now e.parsed_at e.raw_event.ingested_at m.observed_at)) [
              | inl w ↦ none_absurd _ (rw (q, w) at h)
              | inr (t, w) ↦ elim (Option-cases (raw_text_of py (raw_bytes e.raw_event))) [
                | inl x ↦ none_absurd _ (rw (q, w, x) at h)
                | inr (raw_text, x) ↦
                    subst (λ u. validate_semantics p py u ≡ []) (some_inj (rw (q, w, x) at h))
                      (checked-semantics p py e _ t raw_text now b v q w x structure _ refl)
              ]
            ]
      ]

  -- Where the schema accepts the assembled event, it is returned as it is.
  pub normalize-unify :
      {m : MappingResult} {t : Times} (raw_text : Option String)
      → verify_evidence p e.raw_event ≡ true
      → IsBundled py (Registry.get e.source_pack_id r)
      → IsExplained e
      → mapped_by (Registry.get e.source_pack_id r) e ≡ some m
      → times now e.parsed_at e.raw_event.ingested_at m.observed_at ≡ some t
      → raw_text_of py (raw_bytes e.raw_event) ≡ some raw_text
      → structure (unify py e (Registry.get e.source_pack_id r) m t raw_text) ≡ []
      → normalize p py structure r now e
        ≡ some (unify py e (Registry.get e.source_pack_id r) m t raw_text)
  unfolding normalize checked
  normalize-unify raw_text v b explained q w x accepted =
      rw (q, w, x)
        (rw (unify-validate_event p py e _ _ raw_text now b v q w x structure accepted explained)
          refl)
