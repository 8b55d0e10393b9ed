-- ===== src/Collection/Pipeline/Accounting.antt =====
-- src/collection/pipeline.py: the counters, the cache and the latency window over a sequence of
-- calls.
use ulpf_prism_sih.Prelude.{
  ℕ, suc, ◌+◌, ◌-◌, ◌≤◌, ◌<◌, ◌≡◌, String, Option, none, some, List, [], ◌∷◌, arith, ◌==◌, ltb,
  length, Bool-cases, inl, inr,
}
use ulpf_prism_sih.Contracts.Platform.{Platform}
use ulpf_prism_sih.Contracts.RawEvent.{RawEventEnvelope}
use ulpf_prism_sih.Collection.Dedup
use ulpf_prism_sih.Collection.Dedup.{check_and_add, size}
use ulpf_prism_sih.Collection.Dedup.Recency.{size-check_and_add, max_entries-check_and_add}
use ulpf_prism_sih.Collection.Metrics
use ulpf_prism_sih.Collection.Metrics.{
  CollectorMetrics, record_received, record_accepted, record_rejected, record_duplicate,
  record_latency, push_latency,
}
use ulpf_prism_sih.Collection.Metrics.Window.{length-push_latency}
use ulpf_prism_sih.Collection.Archive.{RawEventArchive}
use ulpf_prism_sih.Collection.Rejected.{RejectedEventLog}
use ulpf_prism_sih.Collection.Pipeline.{
  CollectionPipeline, CollectorConfig, Circumstances, Event, IngestResult, create, ingest, reject,
  record_rejection, keep_evidence, after_archive, publish_event, with_envelope, refuse_early,
  refuse_late, accept, build,
}

-- `raised` counts the calls that ended in an exception.
pub record IsAccounted (config : CollectorConfig) (raised : ℕ) (s : CollectionPipeline)
    : Type 0 where
  pub configured : s.config ≡ config
  pub balanced : s.metrics.received ≡ s.metrics.accepted + s.metrics.rejected + raised
  pub duplicates_accepted : s.metrics.duplicates ≤ s.metrics.accepted
  pub window_open : 0 < s.metrics.latency_window_size
  pub window_kept : s.metrics.latency_window_size ≡ config.latency_window_size
  pub window_bounded : length s.metrics.latencies ≤ s.metrics.latency_window_size
  pub cache_kept : s.seen_hashes.max_entries ≡ config.dedup_max_entries
  pub cache_bounded : size s.seen_hashes ≤ s.seen_hashes.max_entries

-- The calls of a pipeline, each in its circumstances; the result says whether the call raised.
pub data Call : Type 0 where
  ingesting : Event → Call
  rejecting : Event → String → Call

abbrev pub raised_after : ℕ → Option IngestResult → ℕ
raised_after n none = suc n
raised_after n (some r) = n

unfoldable pub perform :
    Platform → Circumstances → Call → CollectionPipeline → Option IngestResult × CollectionPipeline
perform p c (ingesting e) s = ingest p c e s
perform p c (rejecting e reason) s = let (r, t) = reject p c e reason s in (some r, t)

module _ (p : Platform) (c : Circumstances) {config : CollectorConfig} {n : ℕ}
    {s : CollectionPipeline} (ok : IsAccounted config n s) where
  pub reject-IsAccounted :
      (e : Event) (reason : String) → IsAccounted config n (reject p c e reason s).1
  unfolding reject record_rejection record_received record_rejected record_latency
  reject-IsAccounted e reason = ground (
    arith,
    length-push_latency s.metrics.latency_window_size (c.finished - c.started) s.metrics.latencies,
  )

  refuse_early-IsAccounted :
      (e : Event) (reason : String)
      → IsAccounted config n
          (refuse_early p c e reason
            (record s { metrics = record_received (length e.raw) s.metrics })).1
  unfolding refuse_early record_rejection record_received record_rejected record_latency
  refuse_early-IsAccounted e reason = ground (
    arith,
    length-push_latency s.metrics.latency_window_size (c.finished - c.started) s.metrics.latencies,
  )

  keep_evidence-IsAccounted :
      (e : Event) (bare : RawEventEnvelope)
      → IsAccounted config n
          (keep_evidence p c e bare
            (record s { metrics = record_received (length e.raw) s.metrics })).1
  unfolding keep_evidence after_archive publish_event accept refuse_late record_rejection
      record_received record_rejected record_latency record_accepted record_duplicate
  keep_evidence-IsAccounted e bare = ground (
    arith,
    length-push_latency s.metrics.latency_window_size (c.finished - c.started) s.metrics.latencies,
    size-check_and_add s.seen_hashes bare.raw_sha256,
    max_entries-check_and_add s.seen_hashes bare.raw_sha256,
  )

  with_envelope-IsAccounted :
      (e : Event) (o : Option RawEventEnvelope)
      → let (r, t) =
          with_envelope p c e o (record s { metrics = record_received (length e.raw) s.metrics }) in
        IsAccounted config (raised_after n r) t
  unfolding with_envelope record_received
  with_envelope-IsAccounted e none = ground arith
  with_envelope-IsAccounted e (some bare) = ground (arith, keep_evidence-IsAccounted e bare)

  ingest-IsAccounted :
      (e : Event) → let (r, t) = ingest p c e s in IsAccounted config (raised_after n r) t
  unfolding ingest
  ingest-IsAccounted e = elim (Bool-cases (length e.raw == 0)) [
    | inl empty ↦ rw empty (refuse_early-IsAccounted e "empty_event")
    | inr full ↦ rw full (elim (Bool-cases (ltb s.config.max_event_size_bytes (length e.raw))) [
      | inl large ↦ rw large (refuse_early-IsAccounted e "oversized_event")
      | inr fits ↦ rw fits (with_envelope-IsAccounted e (build p c e))
    ])
  ]

  perform-IsAccounted :
      (k : Call) → let (r, t) = perform p c k s in IsAccounted config (raised_after n r) t
  unfolding perform
  perform-IsAccounted (ingesting e) = ingest-IsAccounted e
  perform-IsAccounted (rejecting e reason) = reject-IsAccounted e reason

-- A sequence of calls, each in its circumstances, with the number of those that raised.
unfoldable pub run :
    Platform → ℕ → CollectionPipeline → List (Circumstances × Call) → ℕ × CollectionPipeline
run p n s [] = (n, s)
run p n s ((c, k) ∷ calls) = let (r, t) = perform p c k s in run p (raised_after n r) t calls

run-IsAccounted :
    (p : Platform) (calls : List (Circumstances × Call)) {config : CollectorConfig} {n : ℕ}
    {s : CollectionPipeline}
    → IsAccounted config n s
    → let (m, t) = run p n s calls in IsAccounted config m t
unfolding run
run-IsAccounted p [] ok = ok
run-IsAccounted p ((c, k) ∷ calls) {n} {s} ok =
    run-IsAccounted p calls (perform-IsAccounted p c ok k)

create-IsAccounted :
    (config : CollectorConfig) (archive : RawEventArchive) (log : Option RejectedEventLog)
    (s : CollectionPipeline)
    → create config archive log ≡ some s
    → IsAccounted config 0 s
unfolding create Metrics.create Dedup.create size
create-IsAccounted config archive log s made = ground arith

-- A pipeline that was created with any configuration, after any sequence of `ingest` and `reject`
-- calls under any failures: every received event is counted as accepted or rejected, or its call
-- raised; duplicates are accepted events; the hash cache and the latency window stay within the
-- configured sizes.
pub pipeline_accounting :
    (p : Platform) (config : CollectorConfig) (archive : RawEventArchive)
    (log : Option RejectedEventLog) (s : CollectionPipeline)
    → create config archive log ≡ some s
    → (calls : List (Circumstances × Call))
    → let (raised, t) = run p 0 s calls in
      (t.metrics.received ≡ t.metrics.accepted + t.metrics.rejected + raised)
      × (t.metrics.duplicates ≤ t.metrics.accepted)
      × (size t.seen_hashes ≤ config.dedup_max_entries)
      × (length t.metrics.latencies ≤ config.latency_window_size)
pipeline_accounting p config archive log s made calls =
    let ok = run-IsAccounted p calls (create-IsAccounted config archive log s made) in
    (
      ok.balanced,
      ok.duplicates_accepted,
      omega (arith, ok.cache_bounded, ok.cache_kept),
      omega (arith, ok.window_bounded, ok.window_kept),
    )
