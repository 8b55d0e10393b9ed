-- ===== src/Collection/Pipeline.antt =====
-- src/collection/pipeline.py: the transport-agnostic core of collection. What a call meets outside
-- the program (the new id, the clocks, the failures of the disk and of the publisher) is a record
-- of `Circumstances`.
pub mod Accounting
pub mod Keeping
pub mod Evidence
use ulpf_prism_sih.Prelude.{
  ℕ, String, Bool, true, false, Option, none, some, List, [], ◌∷◌, ◌++◌, ltb, ◌==◌, if◌then◌else◌,
  length, Bytes, str_eq,
}
use ulpf_prism_sih.Dict
use ulpf_prism_sih.Dict.{Dict}
use ulpf_prism_sih.Json.{Json, boolean, str}
use ulpf_prism_sih.Contracts.Platform.{Platform}
use ulpf_prism_sih.Contracts.RawEvent.{RawEventEnvelope, Transport, from_bytes}
use ulpf_prism_sih.Collection.Dedup
use ulpf_prism_sih.Collection.Dedup.{HashCache, check_and_add}
use ulpf_prism_sih.Collection.Metrics
use ulpf_prism_sih.Collection.Metrics.{
  CollectorMetrics, record_received, record_accepted, record_rejected, record_duplicate,
  record_latency,
}
use ulpf_prism_sih.Collection.Archive.{RawEventArchive, StoreFaults, store}
use ulpf_prism_sih.Collection.Rejected.{RejectedEventLog, rejected_record, write}

pub record IngestResult : Type 0 where
  pub accepted : Bool
  pub envelope : Option RawEventEnvelope
  pub reason : Option String
  pub duplicate : Bool

pub record CollectorConfig : Type 0 where
  pub max_event_size_bytes : ℕ
  pub dedup_max_entries : ℕ
  pub latency_window_size : ℕ

-- `published` is what the publisher has taken, the oldest first.
pub record CollectionPipeline : Type 0 where
  pub config : CollectorConfig
  pub metrics : CollectorMetrics
  pub seen_hashes : HashCache
  pub archive : RawEventArchive
  pub rejected_log : Option RejectedEventLog
  pub published : List RawEventEnvelope

-- What one call meets: failures are the type names of exceptions.
pub record Circumstances : Type 0 where
  pub event_id : String
  pub wall_clock : ℕ
  pub started : ℕ
  pub finished : ℕ
  pub store_faults : StoreFaults
  pub publish_fault : Option String
  pub rejection_id : String
  pub rejection_fails : Bool

infixl 5 ◌>>=◌
abbrev ◌>>=◌ {ℓ κ} : {A : Type ℓ} {B : Type κ} → Option A → (A → Option B) → Option B
none >>= k = none
some a >>= k = k a

-- the constructor, with no metrics given
unfoldable pub create :
    CollectorConfig → RawEventArchive → Option RejectedEventLog → Option CollectionPipeline
create config archive rejected_log = do
  metrics ← Metrics.create config.latency_window_size
  seen ← Dedup.create config.dedup_max_entries
  some (record {
    config = config;
    metrics = metrics;
    seen_hashes = seen;
    archive = archive;
    rejected_log = rejected_log;
    published = [];
  })

abbrev collector_id : String
collector_id = "ulpf-collector-01"

abbrev collector_version : String
collector_version = "0.1.0"

-- Python's `a or b` on texts: an empty text counts as missing
abbrev or_else : Option String → String → String
or_else none other = other
or_else (some s) other = if str_eq s "" then other else s

abbrev pub with_metrics :
    (CollectorMetrics → CollectorMetrics) → CollectionPipeline → CollectionPipeline
with_metrics f s = record s { metrics = f s.metrics }

-- An event as a collector hands it over.
pub record Event : Type 0 where
  pub raw : Bytes
  pub transport : Transport
  pub source_ip : Option String
  pub source_id : Option String
  pub metadata : Dict Json

module _ (p : Platform) (c : Circumstances) where
  log_rejection : Event → String → Dict Json → Option RejectedEventLog → Option RejectedEventLog
  log_rejection e reason metadata none = none
  log_rejection e reason metadata (some log) =
      if c.rejection_fails
      then some log
      else some (
          write
            (rejected_record p c.rejection_id c.wall_clock e.raw e.transport reason e.source_ip
              e.source_id metadata)
            log)

  -- `_record_rejection`: a failing disk is swallowed
  unfoldable pub record_rejection :
      Event → String → Dict Json → CollectionPipeline → CollectionPipeline
  unfolding log_rejection
  record_rejection e reason metadata s = record s {
    rejected_log = log_rejection e reason metadata s.rejected_log;
  }

  abbrev timed : CollectionPipeline → CollectionPipeline
  timed = with_metrics (record_latency c.started c.finished)

  abbrev pub refused : Option RawEventEnvelope → String → IngestResult
  refused envelope reason = record {
    accepted = false;
    envelope = envelope;
    reason = some reason;
    duplicate = false;
  }

  -- `reject`
  unfoldable pub reject : Event → String → CollectionPipeline → IngestResult × CollectionPipeline
  reject e reason s = (
    refused none reason,
    timed (
        with_metrics record_rejected
          (record_rejection e reason e.metadata (with_metrics (record_received (length e.raw)) s))),
  )

  -- the two early returns of `ingest`
  refuse_early : Event → String → CollectionPipeline → IngestResult × CollectionPipeline
  refuse_early e reason s = (
    refused none reason,
    timed (record_rejection e reason e.metadata (with_metrics record_rejected s)),
  )

  abbrev failure_metadata : String → String → Dict Json
  failure_metadata error_type stage =
      ("error_type", str error_type) ∷ ("failure_stage", str stage) ∷ []

  -- the handlers of a failing archive and a failing publisher
  refuse_late :
      Event
      → RawEventEnvelope
      → String
      → Dict Json
      → CollectionPipeline
      → IngestResult × CollectionPipeline
  refuse_late e envelope reason metadata s = (
    refused (some envelope) reason,
    timed (with_metrics record_rejected (record_rejection e reason metadata s)),
  )

  accept : RawEventEnvelope → Bool → CollectionPipeline → IngestResult × CollectionPipeline
  accept envelope duplicate s = (
    record { accepted = true; envelope = some envelope; reason = none; duplicate = duplicate },
    timed (
        with_metrics (λ m. if duplicate then record_duplicate m else m)
          (with_metrics record_accepted s)),
  )

  publish_event :
      Event
      → RawEventEnvelope
      → Bool
      → Option String
      → CollectionPipeline
      → IngestResult × CollectionPipeline
  publish_event e envelope duplicate (some failure) s =
      refuse_late e envelope "publish_failed" (failure_metadata failure "publish") s
  publish_event e envelope duplicate none s =
      accept envelope duplicate (record s { published = s.published ++ envelope ∷ [] })

  after_archive :
      Event
      → RawEventEnvelope
      → Bool
      → Option String
      → CollectionPipeline
      → IngestResult × CollectionPipeline
  after_archive e envelope duplicate (some failure) s =
      refuse_late e envelope "archive_failed" (failure_metadata failure "archive") s
  after_archive e envelope duplicate none s = publish_event e envelope duplicate c.publish_fault s

  -- from the cache lookup on
  pub keep_evidence :
      Event → RawEventEnvelope → CollectionPipeline → IngestResult × CollectionPipeline
  keep_evidence e bare s =
      let (duplicate, seen) = check_and_add s.seen_hashes bare.raw_sha256 in
      let envelope : RawEventEnvelope = record bare {
        metadata = Dict.assign "duplicate" (boolean duplicate) bare.metadata;
      } in
      let (failure, archive) = store s.archive envelope c.store_faults in
      after_archive e envelope duplicate failure
        (record s { seen_hashes = seen; archive = archive })

  pub build : Event → Option RawEventEnvelope
  build e =
      from_bytes p c.event_id c.wall_clock e.raw
        (or_else e.source_id (or_else e.source_ip "unknown")) e.transport e.source_ip collector_id
        collector_version e.metadata

  -- a `ValidationError` of the envelope passes through `ingest`
  pub with_envelope :
      Event
      → Option RawEventEnvelope
      → CollectionPipeline
      → Option IngestResult × CollectionPipeline
  with_envelope e none s = (none, s)
  with_envelope e (some bare) s = let (r, t) = keep_evidence e bare s in (some r, t)

  -- `ingest`; the result is `none` where the call raises
  unfoldable pub ingest : Event → CollectionPipeline → Option IngestResult × CollectionPipeline
  unfolding refuse_early refuse_late accept publish_event after_archive keep_evidence build
      with_envelope
  ingest e s =
      let received = with_metrics (record_received (length e.raw)) s in
      if length e.raw == 0
      then (let (r, t) = refuse_early e "empty_event" received in (some r, t))
      else if ltb s.config.max_event_size_bytes (length e.raw)
      then (let (r, t) = refuse_early e "oversized_event" received in (some r, t))
      else with_envelope e (build e) received
