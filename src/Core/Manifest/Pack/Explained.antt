-- ===== src/Core/Manifest/Pack/Explained.antt =====
-- What a manifest pack's `parse` says of the fields that it declares.
use ulpf_prism_sih.Prelude.{
  ℕ, String, Bool, true, false, ◌||◌, Option, none, some, List, [], ◌∷◌, ◌++◌, ◌≡◌, refl, sym, ◌∙◌,
  arith, str_eq, str_eq_refl, inl, inr, Bool-cases,
}
use mathlib.Core.Path.{subst}
use ulpf_prism_sih.Dict
use ulpf_prism_sih.Dict.{Dict, lookup-assign}
use ulpf_prism_sih.Json.{Json, null, boolean, int, float, str, arr, obj}
use ulpf_prism_sih.Contracts.RawEvent.{RawEventEnvelope, raw_bytes}
use ulpf_prism_sih.Contracts.ParsedEvent
use ulpf_prism_sih.Contracts.Status.{ParseStatus}
use ulpf_prism_sih.Contracts.ParsedEvent.{ParsedEvent, ParseIssue, verify_event_identity}
use ulpf_prism_sih.Core.Parsers.{Result, returned, unreadable, broken, ◌>>=◌, Libraries}
use ulpf_prism_sih.Core.Parsers.Selection
use ulpf_prism_sih.Core.Parsers.Selection.{get_parser}
use ulpf_prism_sih.Core.Engine.Identity.{RefersTo, MakesValidEvents}
use ulpf_prism_sih.Core.SourcePack.{parsed}
use ulpf_prism_sih.Core.Manifest.{FieldRule, ManifestPack}
use ulpf_prism_sih.Core.Manifest.Pack.{
  Extracted, extracted, extract_all, extraction_failed, field_value, event_of, built, validated,
  raw_text, parse, status_of, parsing, as_source_pack,
}

abbrev is_some : Option Json → Bool
is_some none = false
is_some (some v) = true

abbrev names : String → Option String → Bool
names n none = false
names n (some m) = str_eq m n

-- An issue names a field.
unfoldable pub has_issue : String → List ParseIssue → Bool
has_issue n [] = false
has_issue n (i ∷ is) = names n i.field || has_issue n is

-- A field has a value or an issue.
abbrev pub covered : List ParseIssue → Dict Json → FieldRule → Bool
covered issues values r = is_some (Dict.lookup r.name values) || has_issue r.name issues

has_issue-append :
    (n : String) (is js : List ParseIssue)
    → has_issue n (is ++ js) ≡ (has_issue n is || has_issue n js)
unfolding has_issue
has_issue-append n [] js = refl
has_issue-append n (i ∷ is) js = rw (has_issue-append n is js) (ground arith)

extracted-covered :
    (r r' : FieldRule) (o : Option Json) (x : Extracted)
    → covered x.issues x.values r ≡ true
    → covered (extracted r' o x).issues (extracted r' o x).values r ≡ true
unfolding extracted
extracted-covered r r' none x h =
    rw (has_issue-append r.name x.issues (extraction_failed r' ∷ [])) (ground (arith, h))
extracted-covered r r' (some v) x h =
    rw (lookup-assign r'.name r.name v x.values)
      (elim (Bool-cases (str_eq r'.name r.name)) [ inl q ↦ rw q refl | inr q ↦ rw q h ])

extracted-covers :
    (r : FieldRule) (o : Option Json) (x : Extracted)
    → covered (extracted r o x).issues (extracted r o x).values r ≡ true
unfolding extracted has_issue
extracted-covers r none x =
    rw (has_issue-append r.name x.issues (extraction_failed r ∷ []))
      (rw (str_eq_refl r.name) (ground arith))
extracted-covers r (some v) x =
    rw (lookup-assign r.name r.name v x.values) (rw (str_eq_refl r.name) refl)

extract_all-covered :
    (l : Libraries) (values : Dict Json) (r : FieldRule) (rs : List FieldRule) (x : Extracted)
    → covered x.issues x.values r ≡ true
    → covered (extract_all l values rs x).issues (extract_all l values rs x).values r ≡ true
unfolding extract_all
extract_all-covered l values r [] x h = h
extract_all-covered l values r (r' ∷ rs) x h =
    extract_all-covered l values r rs (extracted r' (field_value l values r') x)
      (extracted-covered r r' (field_value l values r') x h)

-- Every rule is covered.
abbrev pub AllCovered : List ParseIssue → Dict Json → List FieldRule → Type 0
AllCovered issues values [] = Unit
AllCovered issues values (r ∷ rs) = (covered issues values r ≡ true) × AllCovered issues values rs

extract_all-AllCovered :
    (l : Libraries) (values : Dict Json) (rs : List FieldRule) (x : Extracted)
    → AllCovered (extract_all l values rs x).issues (extract_all l values rs x).values rs
unfolding extract_all
extract_all-AllCovered l values [] x = tt
extract_all-AllCovered l values (r ∷ rs) x =
    let y = extracted r (field_value l values r) x in
    (
      extract_all-covered l values r rs y (extracted-covers r (field_value l values r) x),
      extract_all-AllCovered l values rs y,
    )

-- The status that the issues call for.
abbrev pub StatusFits : List ParseIssue → ParseStatus → Type 0
StatusFits [] status = status ≡ ParseStatus.success
StatusFits (i ∷ is) status = status ≡ ParseStatus.partial

status_of-StatusFits : (is : List ParseIssue) → StatusFits is (status_of is)
status_of-StatusFits [] = refl
status_of-StatusFits (i ∷ is) = refl

Explained : ManifestPack → RawEventEnvelope → Result ParsedEvent → Type 0
Explained pack e (returned event) =
    RefersTo e event
    × StatusFits event.issues event.status
    × AllCovered event.issues event.extracted_fields pack.field_rules
Explained pack e r = Unit

validated-Explained :
    (now : ℕ) (pack : ManifestPack) (id : Option String) (e : RawEventEnvelope) (x : Extracted)
    → AllCovered x.issues x.values pack.field_rules
    → Explained pack e (validated (ParsedEvent.validate (event_of now pack id e x)))
unfolding Explained validated ParsedEvent.validate verify_event_identity event_of
validated-Explained now pack id e x h =
    rw (str_eq_refl e.event_id) ((refl, refl, refl), status_of-StatusFits x.issues, h)

built-Explained :
    (now : ℕ) (pack : ManifestPack) (id : Json) (e : RawEventEnvelope) (x : Extracted)
    → AllCovered x.issues x.values pack.field_rules
    → Explained pack e (built now pack id e x)
unfolding built Explained
built-Explained now pack (str id) e x h = validated-Explained now pack (some id) e x h
built-Explained now pack null e x h = validated-Explained now pack none e x h
built-Explained now pack (boolean b) e x h = tt
built-Explained now pack (int n) e x h = tt
built-Explained now pack (float s) e x h = tt
built-Explained now pack (arr vs) e x h = tt
built-Explained now pack (obj fs) e x h = tt

bind-Explained :
    {A : Type 0} (pack : ManifestPack) (e : RawEventEnvelope) (r : Result A)
    (f : A → Result ParsedEvent)
    → ((a : A) → Explained pack e (f a))
    → Explained pack e (r >>= f)
unfolding Explained
bind-Explained pack e (returned a) f h = h a
bind-Explained pack e (unreadable m) f h = tt
bind-Explained pack e (broken m) f h = tt

parse-result :
    (l : Libraries) (now : ℕ) (pack : ManifestPack) (e : RawEventEnvelope)
    → Explained pack e (parse l now pack e)
unfolding parse
parse-result l now pack e = bind-Explained pack e (raw_text l (raw_bytes e)) _ (λ text.
    bind-Explained pack e (Selection.parse l (get_parser pack.format_type) text pack.format_options)
      _
      (λ values.
        built-Explained now pack pack.pack_id e _
          (extract_all-AllCovered l values pack.field_rules _)))

-- An event that a manifest pack returns refers to its envelope by id and hash; its status is partial
-- if it has an issue and success otherwise; and every field that the manifest declares has an entry
-- in the extracted fields or an issue that names it.
pub parse-AllCovered :
    (l : Libraries) (now : ℕ) (pack : ManifestPack) (e : RawEventEnvelope) {event : ParsedEvent}
    → parse l now pack e ≡ returned event
    → RefersTo e event
      × StatusFits event.issues event.status
      × AllCovered event.issues event.extracted_fields pack.field_rules
unfolding Explained
parse-AllCovered l now pack e h = subst (Explained pack e) h (parse-result l now pack e)

returned-parsing :
    (r : Result ParsedEvent) {event : ParsedEvent} → parsing r ≡ parsed event → r ≡ returned event
returned-parsing (returned a) h = cc
returned-parsing (unreadable m) h = cc
returned-parsing (broken m) h = cc

-- A manifest pack builds its events by the validating constructor, as the engine expects of packs.
pub as_source_pack-MakesValidEvents :
    (l : Libraries) (now : ℕ) (id : String) (pack : ManifestPack)
    → MakesValidEvents (as_source_pack l now id pack)
unfolding as_source_pack verify_event_identity
as_source_pack-MakesValidEvents l now id pack e event h =
    let (refers, status, covered_all) = parse-AllCovered l now pack e (returned-parsing _ h) in
    let (a, b, c) = refers in rw (a ∙ sym b) (str_eq_refl event.raw_event.event_id)
