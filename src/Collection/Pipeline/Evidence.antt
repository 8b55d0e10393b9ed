-- ===== src/Collection/Pipeline/Evidence.antt =====
-- src/collection/pipeline.py: the outcome of `ingest`, and what the archive and the publisher hold
-- after it.
use ulpf_prism_sih.Prelude.{
  ◌≡◌, refl, sym, ap, some_inj, ◌∙◌, ◌⊎◌, String, Bool, true, false, Option, none, some, List, [],
  ◌++◌, arith, ◌==◌, ltb, if◌then◌else◌, length, AreBytes, Bool-cases, inl, inr,
}
use mathlib.Core.List.{append-nil}
use mathlib.Core.Option
use mathlib.Core.Bool.{false≢true}
use ulpf_prism_sih.Contracts.Platform.{Platform}
use ulpf_prism_sih.Contracts.RawEvent.{RawEventEnvelope, raw_bytes, envelope_of, ip_accepted}
use ulpf_prism_sih.Collection.Archive.{retrieve, verify, meta_of, store}
use ulpf_prism_sih.Collection.Archive.RoundTrip.{first_fault, retrieve-store_self, verify-store}
use ulpf_prism_sih.Collection.Metrics.{record_received}
use ulpf_prism_sih.Collection.Pipeline.{
  with_metrics, CollectionPipeline, Circumstances, Event, IngestResult, ingest, keep_evidence,
  with_envelope, refuse_early, build, record_rejection,
}
use ulpf_prism_sih.Collection.Pipeline.Keeping.{
  taken, is_none, bare, marked, build_lem, marked-raw_bytes, late_reason, expected_reason,
  keep_evidence_archive, keep_evidence_envelope, keep_evidence_accepted, with_envelope_outcome,
  with_envelope_published,
}

module _ (p : Platform) (c : Circumstances) (e : Event) where
  -- The state once the event is counted.
  abbrev pub counted : CollectionPipeline → CollectionPipeline
  counted = with_metrics (record_received (length e.raw))

  abbrev early : String → CollectionPipeline → Option IngestResult × CollectionPipeline
  early reason s = let (r, t) = refuse_early p c e reason (counted s) in (some r, t)

  module _ (s : CollectionPipeline) where
    ingest-empty : (length e.raw == 0) ≡ true → ingest p c e s ≡ early "empty_event" s
    unfolding ingest
    ingest-empty empty = rw empty

    ingest-oversized :
        (length e.raw == 0) ≡ false
        → ltb s.config.max_event_size_bytes (length e.raw) ≡ true
        → ingest p c e s ≡ early "oversized_event" s
    unfolding ingest
    ingest-oversized full large = rw full (rw large)

    ingest-in_range :
        (length e.raw == 0) ≡ false
        → ltb s.config.max_event_size_bytes (length e.raw) ≡ false
        → ingest p c e s ≡ with_envelope p c e (build p c e) (counted s)
    unfolding ingest
    ingest-in_range full fits = rw full (rw fits)

    early_published : (reason : String) → (early reason s).1.published ≡ s.published
    unfolding refuse_early record_rejection
    early_published reason = refl

    early_reason :
        (reason : String)
        → Option.map (λ (r : IngestResult). r.reason) (early reason s).0 ≡ some (some reason)
    unfolding refuse_early
    early_reason reason = refl

  -- Which envelopes a call adds to the stream.
  abbrev pub added : Option (Option String) → RawEventEnvelope → List RawEventEnvelope
  added (some reason) v = taken reason v
  added none v = []

  in_range_outcome :
      (s : CollectionPipeline)
      → AreBytes e.raw
      → (b : Bool)
      → (Option.map
            (λ (r : IngestResult). r.reason)
            (with_envelope p c e (if b then some (bare p c e) else none) (counted s)).0
          ≡ (if b then some (late_reason p c e) else none))
        × ((with_envelope p c e (if b then some (bare p c e) else none) (counted s)).1.published
            ≡ s.published ++ added (if b then some (late_reason p c e) else none) (marked p c e s))
  unfolding with_envelope
  in_range_outcome s h true =
      (with_envelope_outcome p c e (counted s) h, with_envelope_published p c e (counted s) h)
  in_range_outcome s h false = (refl, sym (append-nil s.published))

  -- On every branch of `ingest`: the reason of the result is the first that applies of an empty
  -- event, an oversized one, a failing archive and a failing publisher, the call raises exactly if
  -- the size is in range and the source address is refused, and the event is published, once and
  -- last, exactly if there is no reason.
  pub ingest_outcome :
      (s : CollectionPipeline)
      → AreBytes e.raw
      → (Option.map (λ (r : IngestResult). r.reason) (ingest p c e s).0 ≡ expected_reason p c e s)
        × ((ingest p c e s).1.published
            ≡ s.published ++ added (expected_reason p c e s) (marked p c e s))
  ingest_outcome s h = elim (Bool-cases (length e.raw == 0)) [
    | inl empty ↦
        rw (ingest-empty s empty)
          (rw empty (early_reason s _, early_published s _ ∙ sym (append-nil s.published)))
    | inr full ↦ elim (Bool-cases (ltb s.config.max_event_size_bytes (length e.raw))) [
      | inl large ↦ rw (ingest-oversized s full large) (
          rw full (rw large (early_reason s _, early_published s _ ∙ sym (append-nil s.published))))
      | inr fits ↦ rw (ingest-in_range s full fits) (
          rw full
            (rw fits (rw (build_lem p c e h) (in_range_outcome s h (ip_accepted p e.source_ip)))))
    ]
  ]

  early_accepted :
      (s : CollectionPipeline) (reason : String) (r : IngestResult)
      → (early reason s).0 ≡ some r
      → r.accepted ≡ false
  unfolding refuse_early
  early_accepted s reason r h = ground arith

  with_envelope-none :
      (s : CollectionPipeline) (r : IngestResult) → (with_envelope p c e none s).0 ≡ some r → ⊥
  unfolding with_envelope
  with_envelope-none s r h = cc

  -- A call that accepts went all the way.
  pub accepted_in_range :
      (s : CollectionPipeline) (r : IngestResult)
      → AreBytes e.raw
      → (ingest p c e s).0 ≡ some r
      → r.accepted ≡ true
      → (ingest p c e s ≡ with_envelope p c e (some (bare p c e)) (counted s))
        × (ip_accepted p e.source_ip ≡ true)
  accepted_in_range s r h came ok = elim (Bool-cases (length e.raw == 0)) [
    | inl empty ↦
        absurd (false≢true (sym (early_accepted s _ r (rw (ingest-empty s empty) at came)) ∙ ok))
    | inr full ↦ elim (Bool-cases (ltb s.config.max_event_size_bytes (length e.raw))) [
      | inl large ↦ absurd (
          false≢true (sym (early_accepted s _ r (rw (ingest-oversized s full large) at came)) ∙ ok))
      | inr fits ↦ elim (Bool-cases (ip_accepted p e.source_ip)) [
        | inl known ↦ (rw (ingest-in_range s full fits) (rw (build_lem p c e h) (rw known)), known)
        | inr refused ↦ absurd (
            with_envelope-none (counted s) r (
              rw refused at (rw (build_lem p c e h) at (rw (ingest-in_range s full fits) at came))))
      ]
    ]
  ]

  no_late_fault : is_none (late_reason p c e) ≡ true → first_fault c.store_faults ≡ none
  no_late_fault h = ground arith

  with_envelope_result :
      (s : CollectionPipeline) (r : IngestResult)
      → (with_envelope p c e (some (bare p c e)) s).0 ≡ some r
      → r ≡ (keep_evidence p c e (bare p c e) s).0
  unfolding with_envelope
  with_envelope_result s r h = cc

  with_envelope_archive :
      (s : CollectionPipeline)
      → AreBytes e.raw
      → (with_envelope p c e (some (bare p c e)) s).1.archive
        ≡ (store s.archive (marked p c e s) c.store_faults).1
  unfolding with_envelope
  with_envelope_archive s h = keep_evidence_archive p c e s h

  -- An accepted event went into the marked envelope, and both writes of the archive succeeded.
  pub accepted_stored :
      (s : CollectionPipeline) (r : IngestResult)
      → AreBytes e.raw
      → (ingest p c e s).0 ≡ some r
      → r.accepted ≡ true
      → (r.envelope ≡ some (marked p c e s))
        × (first_fault c.store_faults ≡ none)
        × ((ingest p c e s).1.archive ≡ (store s.archive (marked p c e s) c.store_faults).1)
  accepted_stored s r h came ok =
      let same = (accepted_in_range s r h came ok).0 in
      let kept = with_envelope_result (counted s) r (rw same at came) in
      (
        rw kept (keep_evidence_envelope p c e (counted s) h),
        no_late_fault (sym (keep_evidence_accepted p c e (counted s) h) ∙ (rw kept at ok)),
        rw same (with_envelope_archive (counted s) h),
      )

  -- The envelope of an accepted event decodes to the event's bytes; the archive gives those bytes
  -- back with the envelope's metadata, and verifies their hash.
  pub accepted_evidence :
      (s : CollectionPipeline) (r : IngestResult)
      → AreBytes e.raw
      → (ingest p c e s).0 ≡ some r
      → r.accepted ≡ true
      → (v : RawEventEnvelope) × (r.envelope ≡ some v)
        × (raw_bytes v ≡ some e.raw)
        × (retrieve (ingest p c e s).1.archive v.event_id ≡ some (meta_of v, e.raw))
        × (verify p (ingest p c e s).1.archive v.event_id ≡ true)
  accepted_evidence s r h came ok =
      let (envelope, fine, archive) = accepted_stored s r h came ok in
      let held = marked-raw_bytes p c e s h in
      (
        marked p c e s,
        envelope,
        held,
        rw archive (retrieve-store_self s.archive (marked p c e s) c.store_faults e.raw held fine),
        rw archive (
            verify-store s.archive (marked p c e s) c.store_faults e.raw held p
              (unfold envelope_of in refl) fine),
      )

  pub accepted_hash :
      (s : CollectionPipeline) (r : IngestResult) (v : RawEventEnvelope)
      → AreBytes e.raw
      → (ingest p c e s).0 ≡ some r
      → r.accepted ≡ true
      → r.envelope ≡ some v
      → v.raw_sha256 ≡ p.hexdigest e.raw
  unfolding envelope_of
  accepted_hash s r v h came ok is =
      let same = some_inj (sym is ∙ (accepted_stored s r h came ok).0) in
      ap (λ (w : RawEventEnvelope). w.raw_sha256) same

  -- An empty or oversized event reaches neither the hash cache, nor the archive, nor the publisher.
  pub out_of_range_untouched :
      (s : CollectionPipeline)
      → ((length e.raw == 0) ≡ true) ⊎ (ltb s.config.max_event_size_bytes (length e.raw) ≡ true)
      → let t = (ingest p c e s).1 in
        (t.seen_hashes ≡ s.seen_hashes) × (t.archive ≡ s.archive) × (t.published ≡ s.published)
  unfolding ingest refuse_early record_rejection
  out_of_range_untouched s h = ground arith
