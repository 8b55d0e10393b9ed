-- ===== src/Pipeline/Runner/Traceable.antt =====
-- From the bytes that a collector hands over to the event that the store answers.
use mathlib.Core.Path.{subst}
use ulpf_prism_sih.Prelude.{
  ℕ, String, Bool, true, false, Option, none, some, List, [], ◌∷◌, ◌≡◌, ◌≢◌, refl, sym, ◌∙◌,
  if◌then◌else◌, str_eq_refl, inl, inr, Option-cases, Bool-cases, some_inj, none_absurd, AreBytes,
  Bytes,
}
use ulpf_prism_sih.Dict
use ulpf_prism_sih.Dict.{Dict, lookup-assign}
use ulpf_prism_sih.Json.{Json, str, obj, of_dict, fields-of_dict}
use ulpf_prism_sih.Python.{Python, get}
use ulpf_prism_sih.Contracts.Platform.{Platform, is_sha256}
use ulpf_prism_sih.Contracts.RawEvent.{RawEventEnvelope, raw_bytes}
use ulpf_prism_sih.Contracts.ParsedEvent.{ParsedEvent}
use ulpf_prism_sih.Core.Engine.Identity.{MakesValidEvents, RefersTo, process-RefersTo}
use ulpf_prism_sih.Core.Registry.Best.{All}
use ulpf_prism_sih.Collection.Archive.{retrieve, meta_of}
use ulpf_prism_sih.Collection.Pipeline.{
  CollectionPipeline, Circumstances, IngestResult, Event, ingest,
}
use ulpf_prism_sih.Collection.Pipeline.Evidence.{accepted_evidence, accepted_hash}
use ulpf_prism_sih.Normalization.Keeping.{normalize-raw_sha256}
use ulpf_prism_sih.Storage.ClickHouse.{WriteResult}
use ulpf_prism_sih.Pipeline.Visibility
use ulpf_prism_sih.Pipeline.Visibility.Indexed.{names}
use ulpf_prism_sih.Pipeline.Visibility.Counted.{write_batch-get_by_raw_hash}
use ulpf_prism_sih.Pipeline.Runner.{
  State, Outcome, completed, rejected, storage_failed, raised, PipelineResult, Stages, is_zero,
  mark_quality, mark, process, written, stored, validated, normalized, accepted, collected,
}
use ulpf_prism_sih.Validation.Issue.{ValidationIssue, is_valid}

-- The traceability section names a hash.
abbrev NamesHash : String → Dict Json → Type 0
NamesHash h u =
    (trace : Dict Json) × (Dict.lookup "traceability" u ≡ some (obj (of_dict trace)))
    × (Dict.lookup "raw_sha256" trace ≡ some (str h))

mark-NamesHash :
    (h : String) (issues : List ValidationIssue) (u u' : Dict Json)
    → NamesHash h u
    → mark issues u ≡ some u'
    → NamesHash h u'
unfolding mark
mark-NamesHash h issues u u' (trace, a, b) e = elim (Bool-cases (is_valid issues)) [
  | inl q ↦ subst (NamesHash h) (some_inj (rw q at e)) (trace, a, b)
  | inr q ↦ elim (Option-cases (mark_quality issues (Dict.lookup "quality" u))) [
    | inl r ↦ none_absurd u' (rw (q, r) at e)
    | inr (d, r) ↦ subst (NamesHash h) (some_inj (rw (q, r) at e)) (trace, rw lookup-assign a, b)
  ]
]

-- The key that the store files such an event under.
names-NamesHash :
    (h : String) (u : Dict Json)
    → h ≢ ""
    → NamesHash h u
    → names h (Visibility.field_of "traceability" "raw_sha256" u) ≡ true
unfolding Visibility.field_of get
names-NamesHash String.[] u n k = absurd (n refl)
names-NamesHash (String.◌∷◌ c s) u n (trace, a, b) =
    rw a (rw (fields-of_dict trace) (rw b (str_eq_refl (String.◌∷◌ c s))))

is_sha256_ne_empty : (h : String) → is_sha256 h ≡ true → h ≢ ""
unfolding is_sha256
is_sha256_ne_empty String.[] k = cc
is_sha256_ne_empty (String.◌∷◌ c s) k = λ q. cc

hexdigest_ne_empty : (p : Platform) (raw : Bytes) → p.hexdigest raw ≢ ""
hexdigest_ne_empty p raw = is_sha256_ne_empty (p.hexdigest raw) (p.hexdigest-is_sha256 raw)

module _ (p : Platform) (py : Python) (g : Stages) (valid : Dict Json → Bool) (c : Circumstances)
    (parse_clock clock : ℕ) (e : Event) where
  abbrev pub Store : Type 0
  Store = Visibility.AnalyticalVisibilityStore

  abbrev pub write : List (Dict Json) → Store → Option WriteResult × Store
  write = Visibility.write_batch py valid

  -- An envelope that holds the event's bytes, in the archive too.
  abbrev pub Kept : CollectionPipeline → RawEventEnvelope → Type 0
  Kept s v =
      (raw_bytes v ≡ some e.raw)
      × (retrieve s.archive v.event_id ≡ some (meta_of v, e.raw))
      × (v.raw_sha256 ≡ p.hexdigest e.raw)

  abbrev pub Follows : PipelineResult → State Store → Type 0
  Follows r st =
      Kept st.collector r.raw_event
      × RefersTo r.raw_event r.parsed
      × (Visibility.get_by_raw_hash (p.hexdigest e.raw) st.store ≡ some r.unified)

  abbrev Traced : Outcome × State Store → Type 0
  Traced (completed r, st) = Follows r st
  Traced (rejected r, st) = Unit
  Traced (storage_failed w, st) = Unit
  Traced (raised, st) = Unit

  if-Traced :
      (b : Bool) (x y : Outcome × State Store) → Traced x → Traced y → Traced (if b then x else y)
  if-Traced true x y h k = h
  if-Traced false x y h k = k

  written-Traced :
      (s : CollectionPipeline) (r : PipelineResult) (x : Option WriteResult × Store)
      → Kept s r.raw_event
      → RefersTo r.raw_event r.parsed
      → ((w : WriteResult)
          → x.0 ≡ some w
          → Visibility.get_by_raw_hash (p.hexdigest e.raw) x.1 ≡ some r.unified)
      → Traced (written p py g write s r x)
  unfolding written
  written-Traced s r (none, t) h k f = tt
  written-Traced s r (some w, t) h k f = if-Traced (is_zero w.failed_count) _ _ (h, k, f w refl) tt

  stored-Traced :
      (v : RawEventEnvelope) (parsed : ParsedEvent) (issues : List ValidationIssue)
      (o : Option (Dict Json)) (st : State Store)
      → Kept st.collector v
      → RefersTo v parsed
      → ((u : Dict Json) → o ≡ some u → NamesHash (p.hexdigest e.raw) u)
      → Traced (stored p py g write v parsed issues o st)
  unfolding stored
  stored-Traced v parsed issues none st h k f = tt
  stored-Traced v parsed issues (some u) st h k f =
      written-Traced st.collector _ (write (u ∷ []) st.store) h k (λ w q.
        write_batch-get_by_raw_hash py valid u st.store (p.hexdigest e.raw) q
          (names-NamesHash (p.hexdigest e.raw) u (hexdigest_ne_empty p e.raw) (f u refl)))

  validated-Traced :
      (v : RawEventEnvelope) (parsed : ParsedEvent) (o : Option (Dict Json)) (st : State Store)
      → Kept st.collector v
      → RefersTo v parsed
      → ((u : Dict Json) → o ≡ some u → NamesHash (p.hexdigest e.raw) u)
      → Traced (validated p py g write v parsed o st)
  unfolding validated
  validated-Traced v parsed none st h k f = tt
  validated-Traced v parsed (some u) st h k f =
      stored-Traced v parsed _ _ st h k (λ u' m. mark-NamesHash _ _ u u' (f u refl) m)

  normalized-Traced :
      (v : RawEventEnvelope) (st : State Store)
      → All MakesValidEvents g.packs
      → Kept st.collector v
      → Traced (normalized p py g write parse_clock clock v st)
  unfolding normalized
  normalized-Traced v st packs h =
      let refers = process-RefersTo g.packs parse_clock v packs in
      validated-Traced v _ _ st h refers (λ u n.
        subst (λ x. NamesHash x u) (refers.2 ∙ h.2)
          (normalize-raw_sha256 p py g.structure g.mappings clock _ n))

  accepted-Traced :
      (r : IngestResult) (b : Bool) (o : Option RawEventEnvelope) (st : State Store)
      → All MakesValidEvents g.packs
      → (b ≡ true → (v : RawEventEnvelope) → o ≡ some v → Kept st.collector v)
      → Traced (accepted p py g write parse_clock clock r b o st)
  unfolding accepted
  accepted-Traced r false o st packs h = tt
  accepted-Traced r true none st packs h = tt
  accepted-Traced r true (some v) st packs h = normalized-Traced v st packs (h refl v refl)

  collected-Traced :
      (t : Store) (x : Option IngestResult × CollectionPipeline)
      → All MakesValidEvents g.packs
      → ((r : IngestResult)
          → x.0 ≡ some r
          → r.accepted ≡ true
          → (v : RawEventEnvelope) → r.envelope ≡ some v
          → Kept x.1 v)
      → Traced (collected p py g write parse_clock clock t x)
  unfolding collected
  collected-Traced t (none, s) packs h = tt
  collected-Traced t (some r, s) packs h =
      accepted-Traced r r.accepted r.envelope (record { collector = s; store = t }) packs (h r refl)

  kept :
      (r : IngestResult) (v : RawEventEnvelope) (st : State Store)
      → AreBytes e.raw
      → (ingest p c e st.collector).0 ≡ some r
      → r.accepted ≡ true
      → r.envelope ≡ some v
      → Kept (ingest p c e st.collector).1 v
  kept r v st bytes came ok is =
      let (w, same, decoded, found, hash) = accepted_evidence p c e st.collector r bytes came ok in
      let q = some_inj (sym same ∙ is) in
      (
        subst (λ (x : RawEventEnvelope). raw_bytes x ≡ some e.raw) q decoded,
        subst
            (λ (x : RawEventEnvelope).
              retrieve (ingest p c e st.collector).1.archive x.event_id ≡ some (meta_of x, e.raw))
            q found,
        accepted_hash p c e st.collector r v bytes came ok is,
      )

  process-Traced :
      (st : State Store)
      → AreBytes e.raw
      → All MakesValidEvents g.packs
      → Traced (process p py g write c parse_clock clock e st)
  unfolding process
  process-Traced st bytes packs =
      collected-Traced st.store (ingest p c e st.collector) packs
        (λ r came ok v is. kept r v st bytes came ok is)

  -- An event that the runner completes: the archive gives its bytes back under the id of its
  -- envelope, which decodes to them; the parsed event refers to the envelope by its id and hash; and
  -- the in-memory store answers the normalized event for the SHA-256 of the bytes. The packs build
  -- their events by the validating constructor.
  pub process-Follows :
      (st : State Store) {r : PipelineResult} {st' : State Store}
      → AreBytes e.raw
      → All MakesValidEvents g.packs
      → process p py g write c parse_clock clock e st ≡ (completed r, st')
      → Follows r st'
  process-Follows st bytes packs h = subst Traced h (process-Traced st bytes packs)
