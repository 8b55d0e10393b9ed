-- ===== src/Collection/Pipeline/Keeping.antt =====
-- src/collection/pipeline.py: `ingest` from the envelope on.
use ulpf_prism_sih.Prelude.{
  refl, ◌∙◌, ◌≡◌, ap, String, Bool, true, false, Option, none, some, List, [], ◌∷◌, ◌++◌, arith,
  ◌==◌, ltb, if◌then◌else◌, length, AreBytes,
}
use mathlib.Core.List.{append-nil}
use mathlib.Core.Option
use ulpf_prism_sih.Dict
use ulpf_prism_sih.Json.{boolean}
use ulpf_prism_sih.Contracts.Platform.{Platform}
use ulpf_prism_sih.Contracts.RawEvent.{
  RawEventEnvelope, raw_bytes, validate, from_bytes, envelope_of, ip_accepted,
}
use ulpf_prism_sih.Contracts.RawEvent.Laws.{from_bytes_lem, raw_bytes-envelope_of}
use ulpf_prism_sih.Collection.Dedup.{check_and_add}
use ulpf_prism_sih.Collection.Archive.{store}
use ulpf_prism_sih.Collection.Archive.RoundTrip.{first_fault, store-fault}
use ulpf_prism_sih.Collection.Pipeline.{
  CollectionPipeline, Circumstances, Event, IngestResult, keep_evidence, after_archive,
  publish_event, with_envelope, refuse_late, accept, build, or_else, collector_id,
  collector_version, record_rejection,
}

-- What the publisher takes under a reason for a refusal, or none.
abbrev pub taken : Option String → RawEventEnvelope → List RawEventEnvelope
taken none v = v ∷ []
taken (some reason) v = []

abbrev pub is_none {ℓ} : {A : Type ℓ} → Option A → Bool
is_none none = true
is_none (some a) = false

module _ (p : Platform) (c : Circumstances) (e : Event) where
  -- The envelope that the call builds, before it is marked.
  abbrev pub bare : RawEventEnvelope
  bare =
      envelope_of p c.event_id c.wall_clock e.raw
        (or_else e.source_id (or_else e.source_ip "unknown")) e.transport e.source_ip collector_id
        collector_version e.metadata

  -- The envelope with its duplicate mark, as a pipeline in state `s` makes it.
  abbrev pub marked : CollectionPipeline → RawEventEnvelope
  marked s = record bare {
    metadata =
        Dict.assign "duplicate" (boolean (check_and_add s.seen_hashes (bare.raw_sha256)).0)
          (bare).metadata;
  }

  pub build_lem :
      AreBytes e.raw → build p c e ≡ (if ip_accepted p e.source_ip then some bare else none)
  unfolding build
  build_lem h =
      from_bytes_lem p c.event_id c.wall_clock e.raw _ e.transport e.source_ip collector_id
        collector_version e.metadata h

  pub marked-raw_bytes :
      (s : CollectionPipeline) → AreBytes e.raw → raw_bytes (marked s) ≡ some e.raw
  unfolding raw_bytes
  marked-raw_bytes s h =
      raw_bytes-envelope_of p c.event_id c.wall_clock e.raw
        (or_else e.source_id (or_else e.source_ip "unknown")) e.transport e.source_ip collector_id
        collector_version e.metadata h

  -- The marked envelope is one that the contract accepts.
  pub marked-validate :
      (s : CollectionPipeline)
      → AreBytes e.raw
      → ip_accepted p e.source_ip ≡ true
      → validate p (marked s) ≡ some (marked s)
  unfolding from_bytes envelope_of
  marked-validate s h known =
      from_bytes_lem p c.event_id c.wall_clock e.raw
        (or_else e.source_id (or_else e.source_ip "unknown")) e.transport e.source_ip collector_id
        collector_version (marked s).metadata h
      ∙ rw known refl

  -- Why an event in range is refused, if it is: the archive comes before the publisher.
  abbrev pub late_reason : Option String
  late_reason = elim (first_fault c.store_faults) [
    | some x ↦ some "archive_failed"
    | none ↦ elim c.publish_fault [ some x ↦ some "publish_failed" | none ↦ none ]
  ]

  -- The reason of the result; `none` where the call raises.
  abbrev pub expected_reason : CollectionPipeline → Option (Option String)
  expected_reason s =
      if length e.raw == 0
      then some (some "empty_event")
      else if ltb s.config.max_event_size_bytes (length e.raw)
      then some (some "oversized_event")
      else if ip_accepted p e.source_ip
      then some late_reason
      else none

  module _ (s : CollectionPipeline) (h : AreBytes e.raw) where
    archive_fault : (store s.archive (marked s) c.store_faults).0 ≡ first_fault c.store_faults
    archive_fault = store-fault s.archive (marked s) c.store_faults e.raw (marked-raw_bytes s h)

    keep_evidence_reason : (keep_evidence p c e bare s).0.reason ≡ late_reason
    unfolding keep_evidence after_archive publish_event accept refuse_late
    keep_evidence_reason = ground (arith, archive_fault)

    keep_evidence_published :
        (keep_evidence p c e bare s).1.published ≡ s.published ++ taken late_reason (marked s)
    unfolding keep_evidence after_archive publish_event accept refuse_late record_rejection
    keep_evidence_published = ground (arith, archive_fault, append-nil s.published)

    pub keep_evidence_archive :
        (keep_evidence p c e bare s).1.archive ≡ (store s.archive (marked s) c.store_faults).1
    unfolding keep_evidence after_archive publish_event accept refuse_late record_rejection
    keep_evidence_archive = ground (arith, archive_fault)

    pub keep_evidence_envelope : (keep_evidence p c e bare s).0.envelope ≡ some (marked s)
    unfolding keep_evidence after_archive publish_event accept refuse_late
    keep_evidence_envelope = ground (arith, archive_fault)

    pub keep_evidence_accepted : (keep_evidence p c e bare s).0.accepted ≡ is_none late_reason
    unfolding keep_evidence after_archive publish_event accept refuse_late
    keep_evidence_accepted = ground (arith, archive_fault)

    pub with_envelope_outcome :
        Option.map (λ (r : IngestResult). r.reason) (with_envelope p c e (some bare) s).0
        ≡ some late_reason
    unfolding with_envelope
    with_envelope_outcome = ap some keep_evidence_reason

    pub with_envelope_published :
        (with_envelope p c e (some bare) s).1.published
        ≡ s.published ++ taken late_reason (marked s)
    unfolding with_envelope
    with_envelope_published = keep_evidence_published

    with_envelope_accepted :
        Option.map (λ (r : IngestResult). r.accepted) (with_envelope p c e (some bare) s).0
        ≡ some (is_none late_reason)
    unfolding with_envelope
    with_envelope_accepted = ap some keep_evidence_accepted
