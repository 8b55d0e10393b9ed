-- ===== src/Collection/Replay/RoundTrip.antt =====
-- src/collection/replay.py, pipeline.py and archive.py: what a replay publishes.
use ulpf_prism_sih.Prelude.{
  ℕ, suc, ◌+◌, ◌≡◌, refl, sym, String, true, false, Option, none, some, List, [], ◌∷◌, arith,
  length, str_eq, str_eq_refl, str_eq_iff, Bytes, AreBytes, Bool-cases, inl, inr, AllOf,
}
use mathlib.Core.Path.{subst}
use ulpf_prism_sih.Contracts.Base64.{encode}
use ulpf_prism_sih.Contracts.Platform.{Platform}
use ulpf_prism_sih.Contracts.RawEvent.{RawEventEnvelope, raw_bytes, validate, envelope_of}
use ulpf_prism_sih.Contracts.RawEvent.Laws.{validate_sound}
use ulpf_prism_sih.Collection.Archive.{RawEventArchive, retrieve, meta_of}
use ulpf_prism_sih.Collection.Archive.RoundTrip.{retrieve-store_self}
use ulpf_prism_sih.Collection.Pipeline.{
  CollectionPipeline, Circumstances, Event, IngestResult, ingest,
}
use ulpf_prism_sih.Collection.Pipeline.Keeping.{marked, marked-raw_bytes, marked-validate}
use ulpf_prism_sih.Collection.Pipeline.Evidence.{accepted_in_range, accepted_stored}
use ulpf_prism_sih.Collection.Replay.{
  Faults, Replayed, sent, failed_at, publish, check_id, check_stored, replay_one, note, replay_loop,
  replay_events,
}

-- No fault.
abbrev pub quiet : Faults
quiet = record { read_raises = false; publish_raises = false }

-- The payload of an envelope belongs to its id, its size and its hash.
abbrev pub IsEvidence : Platform → RawEventEnvelope → Type 0
IsEvidence p v =
    (raw : Bytes) × (raw_bytes v ≡ some raw)
    × (length raw ≡ v.raw_size)
    × (p.hexdigest raw ≡ v.raw_sha256)

module _ (p : Platform) where
  abbrev pub Sound : String → Replayed → Type 0
  Sound id (sent v) = (v.event_id ≡ id) × IsEvidence p v
  Sound id (failed_at code) = Unit

  publish-Sound :
      (f : Faults) (id : String) (v : RawEventEnvelope)
      → v.event_id ≡ id
      → IsEvidence p v
      → Sound id (publish f v)
  unfolding publish
  publish-Sound f id v same ok = elim (Bool-cases f.publish_raises) [
    | inl bad ↦ simp bad tt
    | inr good ↦ simp good (same, ok)
  ]

  check_id-Sound :
      (f : Faults) (id : String) (w : RawEventEnvelope) (o : Option RawEventEnvelope)
      → validate p w ≡ o
      → Sound id (check_id f id o)
  unfolding check_id
  check_id-Sound f id w none e = tt
  check_id-Sound f id w (some v) e = elim (Bool-cases (str_eq v.event_id id)) [
    | inl same ↦
        let (unchanged, ok) = validate_sound p w v e in
        rw same
          (publish-Sound f id v ((str_eq_iff _ _).0 same) (subst (IsEvidence p) (sym unchanged) ok))
    | inr other ↦ rw other tt
  ]

  check_stored-Sound :
      (f : Faults) (id : String) (o : Option (RawEventEnvelope × Bytes))
      → Sound id (check_stored p f id o)
  unfolding check_stored
  check_stored-Sound f id none = tt
  check_stored-Sound f id (some (metadata, raw)) = check_id-Sound f id _ _ refl

  replay_one-Sound :
      (f : Faults) (archive : RawEventArchive) (id : String) → Sound id (replay_one p f archive id)
  unfolding replay_one
  replay_one-Sound f archive id = elim (Bool-cases f.read_raises) [
    | inl bad ↦ simp bad tt
    | inr good ↦ simp good (check_stored-Sound f id (retrieve archive id))
  ]

  note-counts :
      (id : String) (r : Replayed) (so_far : List RawEventEnvelope × List (String × String))
      → let (vs, errors) = note id r so_far in
        length vs + length errors ≡ suc (length so_far.0 + length so_far.1)
  note-counts id (sent v) so_far = omega arith
  note-counts id (failed_at code) so_far = omega arith

  replay_loop-counts :
      (faults : ℕ → Faults) (archive : RawEventArchive) (ids : List String)
      → let (vs, errors) = replay_loop p faults archive ids in
        length vs + length errors ≡ length ids
  unfolding replay_loop
  replay_loop-counts faults archive [] = omega arith
  replay_loop-counts faults archive (id ∷ ids) = omega (
    arith,
    note-counts id (replay_one p (faults 0) archive id)
        (replay_loop p (λ n. faults (suc n)) archive ids),
    replay_loop-counts (λ n. faults (suc n)) archive ids,
  )

  note-IsEvidence :
      (id : String) (r : Replayed) (so_far : List RawEventEnvelope × List (String × String))
      → Sound id r
      → AllOf (IsEvidence p) so_far.0
      → AllOf (IsEvidence p) (note id r so_far).0
  note-IsEvidence id (sent v) so_far (same, ok) all = (ok, all)
  note-IsEvidence id (failed_at code) so_far ok all = all

  replay_loop-IsEvidence :
      (faults : ℕ → Faults) (archive : RawEventArchive) (ids : List String)
      → AllOf (IsEvidence p) (replay_loop p faults archive ids).0
  unfolding replay_loop
  replay_loop-IsEvidence faults archive [] = tt
  replay_loop-IsEvidence faults archive (id ∷ ids) =
      note-IsEvidence id (replay_one p (faults 0) archive id) _
        (replay_one-Sound (faults 0) archive id)
        (replay_loop-IsEvidence (λ n. faults (suc n)) archive ids)

  -- Whatever the archive holds, and whatever reads and publishes fail: each envelope that a replay
  -- publishes has a payload of its size and hash; the published and the failed events add up to the
  -- attempted, and each failed one has an error.
  pub replay_events-IsEvidence :
      (faults : ℕ → Faults) (archive : RawEventArchive) (ids : List String)
      → let (report, vs) = replay_events p faults archive ids in
        AllOf (IsEvidence p) vs
        × (report.attempted ≡ length ids)
        × (report.published ≡ length vs)
        × (report.published + report.failed ≡ report.attempted)
        × (length report.errors ≡ report.failed)
  unfolding replay_events
  replay_events-IsEvidence faults archive ids =
      let counts = replay_loop-counts faults archive ids in
      (
        replay_loop-IsEvidence faults archive ids,
        refl,
        refl,
        omega (arith, counts),
        omega (arith, counts),
      )

replay_stored :
    (p : Platform) (archive : RawEventArchive) (v : RawEventEnvelope) (raw : Bytes)
    → retrieve archive v.event_id ≡ some (meta_of v, raw)
    → v.raw_payload_b64 ≡ encode raw
    → validate p v ≡ some v
    → replay_one p quiet archive v.event_id ≡ sent v
unfolding replay_one check_stored check_id publish meta_of
replay_stored p archive v raw held payload valid =
    rw held (rw (← payload) (rw valid (rw (str_eq_refl v.event_id) refl)))

-- An event that the pipeline accepted is replayed from its archive by its id, with reads and publishes
-- that succeed, as exactly the envelope of its result.
pub replay_one-ingest :
    (p : Platform) (c : Circumstances) (e : Event) (s : CollectionPipeline) (r : IngestResult)
    → AreBytes e.raw
    → (ingest p c e s).0 ≡ some r
    → r.accepted ≡ true
    → (v : RawEventEnvelope) × (r.envelope ≡ some v)
      × (replay_one p quiet (ingest p c e s).1.archive v.event_id ≡ sent v)
unfolding envelope_of
replay_one-ingest p c e s r h came ok =
    let (envelope, fine, archive) = accepted_stored p c e s r h came ok in
    let (_, known) = accepted_in_range p c e s r h came ok in
    let v = marked p c e s in
    let held =
      retrieve-store_self s.archive v c.store_faults e.raw (marked-raw_bytes p c e s h) fine in
    (
      v,
      envelope,
      rw archive (replay_stored p _ v e.raw held refl (marked-validate p c e s h known)),
    )
