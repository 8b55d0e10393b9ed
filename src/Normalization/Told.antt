-- ===== src/Normalization/Told.antt =====
-- The quality section of a normalized event: src/normalization/normalizer.py, `_quality_status` and
-- the lists of missing fields and warnings, against what the event and its mapping say.
use ulpf_prism_sih.Prelude.{
  ℕ, String, true, Option, none, some, List, [], ◌∷◌, ◌++◌, ◌≡◌, refl, ◌∙◌, ap, arith, contains,
  str_eq_refl,
}
use ulpf_prism_sih.Dict
use ulpf_prism_sih.Dict.{Dict}
use ulpf_prism_sih.Json.{Json, str, obj, of_dict}
use ulpf_prism_sih.Python.{Python, string}
use ulpf_prism_sih.Python.Ordered.{sorted_texts, unique}
use ulpf_prism_sih.Python.Ordered.Members.{contains-append, contains-sorted_texts, contains-unique}
use ulpf_prism_sih.Contracts.Platform.{Platform}
use ulpf_prism_sih.Contracts.RawEvent.{raw_bytes, verify_evidence}
use ulpf_prism_sih.Contracts.Status.{ParseStatus}
use ulpf_prism_sih.Contracts.ParsedEvent.{ParsedEvent, ParseIssue}
use ulpf_prism_sih.Normalization.Models.{MappingResult}
use ulpf_prism_sih.Normalization.Registry
use ulpf_prism_sih.Normalization.Registry.{Mappings}
use ulpf_prism_sih.Normalization.Normalizer.{
  Times, times, raw_text_of, mapped_by, is_nil, texts, quality, quality_status, messages, unify,
  missing_of, warnings_of, if_absent, normalize,
}
use ulpf_prism_sih.Normalization.Assembled.{unify-IsAssembled}
use ulpf_prism_sih.Normalization.Quality.{is_nil-sorted_texts, is_nil-unique}
use ulpf_prism_sih.Normalization.Conformance.{IsBundled, IsExplained, normalize-unify}
use ulpf_prism_sih.Validation.Issue.{ValidationIssue}

-- The status that a parse with these missing fields and warnings has in the quality section.
abbrev pub told_status : ParseStatus → List String → List String → String
told_status ParseStatus.failed missing warnings = "invalid"
told_status ParseStatus.unrecognized missing warnings = "unknown"
told_status ParseStatus.partial missing warnings = "partial"
told_status ParseStatus.success [] [] = "valid"
told_status ParseStatus.success [] (w ∷ ws) = "partial"
told_status ParseStatus.success (x ∷ xs) warnings = "partial"

-- The message of every issue is in a list.
abbrev pub AllTold : List ParseIssue → List String → Type 0
AllTold [] warnings = Unit
AllTold (i ∷ is) warnings = (contains (string i.message) warnings ≡ true) × AllTold is warnings

-- An attribute that the event has not is in the list.
abbrev pub TellsAbsent : Option String → String → List String → Type 0
TellsAbsent none name xs = contains name xs ≡ true
TellsAbsent (some v) name xs = Unit

-- What a quality section tells of an event and of its mapping's result.
abbrev pub IsTold : ParsedEvent → MappingResult → Dict Json → Type 0
IsTold e m q =
    (missing : List String) × (warnings : List String) × (Dict.lookup "status" q
      ≡ some (str (told_status e.status missing warnings)))
    × (Dict.lookup "missing_fields" q ≡ some (texts missing))
    × (Dict.lookup "warnings" q ≡ some (texts warnings))
    × ((s : String) → contains s m.missing_fields ≡ true → contains s missing ≡ true)
    × TellsAbsent e.vendor "observer.vendor" missing
    × TellsAbsent e.product "observer.product" missing
    × ((s : String) → contains s m.warnings ≡ true → contains s warnings ≡ true)
    × AllTold e.issues warnings

contains-left :
    (s : String) (xs ys : List String) → contains s xs ≡ true → contains s (xs ++ ys) ≡ true
contains-left s xs ys h = rw (contains-append s xs ys) (ground (arith, h))

contains-lefts :
    (s : String) (xs a b c d f : List String)
    → contains s xs ≡ true
    → contains s (xs ++ a ++ b ++ c ++ d ++ f) ≡ true
contains-lefts s xs a b c d f h =
    contains-left s _ f
      (contains-left s _ d (contains-left s _ c (contains-left s _ b (contains-left s xs a h))))

contains-right :
    (s : String) (xs ys : List String) → contains s ys ≡ true → contains s (xs ++ ys) ≡ true
contains-right s xs ys h = rw (contains-append s xs ys) (ground (arith, h))

absent-Tells :
    (o : Option String) (name : String) (xs : List String)
    → (contains name (if_absent o name) ≡ true → contains name xs ≡ true)
    → TellsAbsent o name xs
absent-Tells none name xs h = h (rw (str_eq_refl name) refl)
absent-Tells (some v) name xs h = tt

messages-AllTold :
    (is : List ParseIssue) (xs : List String)
    → ((s : String) → contains s (messages is) ≡ true → contains s xs ≡ true)
    → AllTold is xs
unfolding messages
messages-AllTold [] xs h = tt
messages-AllTold (i ∷ is) xs h = (
  h (string i.message) (rw (str_eq_refl (string i.message)) refl),
  messages-AllTold is xs (λ s e. h s (ground (arith, e))),
)

told_by_emptiness :
    (status : ParseStatus) (missing warnings ms ws : List String)
    → is_nil ms ≡ is_nil missing
    → is_nil ws ≡ is_nil warnings
    → quality_status status missing warnings ≡ told_status status ms ws
unfolding quality_status
told_by_emptiness ParseStatus.failed missing warnings ms ws p q = refl
told_by_emptiness ParseStatus.unrecognized missing warnings ms ws p q = refl
told_by_emptiness ParseStatus.partial missing warnings ms ws p q = refl
told_by_emptiness ParseStatus.success missing warnings [] [] p q = rw (← p, ← q) refl
told_by_emptiness ParseStatus.success missing warnings [] (w ∷ ws) p q = rw (← p, ← q) refl
told_by_emptiness ParseStatus.success missing warnings (x ∷ xs) ws p q = rw (← p) refl

module _ (e : ParsedEvent) (m : MappingResult) (late : List String) where
  in_missing :
      (s : String)
      → contains s (missing_of e m) ≡ true
      → contains s (sorted_texts (missing_of e m)) ≡ true
  in_missing s h = contains-sorted_texts s (missing_of e m) ∙ h

  in_warnings :
      (s : String)
      → contains s (warnings_of e m late) ≡ true
      → contains s (unique (warnings_of e m late)) ≡ true
  in_warnings s h = contains-unique s (warnings_of e m late) ∙ h

  mapping-missing :
      (s : String) → contains s m.missing_fields ≡ true → contains s (missing_of e m) ≡ true
  unfolding missing_of
  mapping-missing s h = contains-left s _ _ (contains-left s m.missing_fields _ h)

  vendor-missing :
      (s : String)
      → contains s (if_absent e.vendor "observer.vendor") ≡ true
      → contains s (missing_of e m) ≡ true
  unfolding missing_of
  vendor-missing s h = contains-left s _ _ (contains-right s m.missing_fields _ h)

  product-missing :
      (s : String)
      → contains s (if_absent e.product "observer.product") ≡ true
      → contains s (missing_of e m) ≡ true
  unfolding missing_of
  product-missing s h =
      contains-right s (m.missing_fields ++ if_absent e.vendor "observer.vendor") _ h

  mapping-warnings :
      (s : String) → contains s m.warnings ≡ true → contains s (warnings_of e m late) ≡ true
  unfolding warnings_of
  mapping-warnings s h = contains-lefts s _ _ _ _ _ _ (contains-left s m.warnings _ h)

  issues-warnings :
      (s : String)
      → contains s (messages e.issues) ≡ true
      → contains s (warnings_of e m late) ≡ true
  unfolding warnings_of
  issues-warnings s h =
      contains-lefts s _ _ _ _ _ _ (contains-right s m.warnings (messages e.issues) h)

  quality-IsTold : IsTold e m (quality e.status (missing_of e m) (warnings_of e m late))
  unfolding quality missing_of warnings_of Dict.lookup
  quality-IsTold = (
    sorted_texts (missing_of e m),
    unique (warnings_of e m late),
    ap (λ s. some (str s))
        (told_by_emptiness e.status (missing_of e m) (warnings_of e m late) _ _
          (is_nil-sorted_texts (missing_of e m)) (is_nil-unique (warnings_of e m late))),
    refl,
    refl,
    (λ s h. in_missing s (mapping-missing s h)),
    absent-Tells e.vendor "observer.vendor" _ (λ h. in_missing _ (vendor-missing _ h)),
    absent-Tells e.product "observer.product" _ (λ h. in_missing _ (product-missing _ h)),
    (λ s h. in_warnings s (mapping-warnings s h)),
    messages-AllTold e.issues _ (λ s h. in_warnings s (issues-warnings s h)),
  )

module _ (p : Platform) (py : Python) (structure : Dict Json → List ValidationIssue) (r : Mappings)
    (now : ℕ) (e : ParsedEvent) where
  -- The normalizer returns an event, and its quality section tells the truth about the parse: the
  -- status is `invalid` for a failed parse, `unknown` for an unrecognized one, `partial` for a partial
  -- one, and for a successful one `valid` exactly if nothing is missing and nothing was warned of,
  -- and `partial` otherwise; the missing fields have all those of the mapping, and the vendor and the
  -- product where the event has none; the warnings have all those of the mapping and the message of
  -- every issue of the parser. This holds if the JSON schema accepts the assembled event: provided
  -- that the evidence verifies, that a partial event carries an issue, and that the pack has no
  -- mapping or the Cisco ASA, the Linux syslog or the FortiGate mapping, which returns.
  pub normalize-IsTold :
      {m : MappingResult} {t : Times} (raw_text : Option String)
      → verify_evidence p e.raw_event ≡ true
      → IsBundled py (Registry.get e.source_pack_id r)
      → IsExplained e
      → mapped_by (Registry.get e.source_pack_id r) e ≡ some m
      → times now e.parsed_at e.raw_event.ingested_at m.observed_at ≡ some t
      → raw_text_of py (raw_bytes e.raw_event) ≡ some raw_text
      → structure (unify py e (Registry.get e.source_pack_id r) m t raw_text) ≡ []
      → (u : Dict Json) × (q : Dict Json) × (normalize p py structure r now e ≡ some u)
        × (Dict.lookup "quality" u ≡ some (obj (of_dict q)))
        × IsTold e m q
  normalize-IsTold {m} {t} raw_text v b explained q w x accepted = (
    unify py e (Registry.get e.source_pack_id r) m t raw_text,
    quality e.status (missing_of e m) (warnings_of e m t.late),
    normalize-unify p py structure r now e raw_text v b explained q w x accepted,
    (unify-IsAssembled py e (Registry.get e.source_pack_id r) m t raw_text).5,
    quality-IsTold e m t.late,
  )
