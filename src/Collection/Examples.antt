-- ===== src/Collection/Examples.antt =====
-- The theorems about collection at concrete events.
use ulpf_prism_sih.Prelude.{
  AllOf, ◌≡◌, ◌≤◌, ◌+◌, refl, String, true, false, none, some, List, [], ◌∷◌, ◌++◌, length,
  AreBytes, arith, contains,
}
use mathlib.Core.Option
use ulpf_prism_sih.Contracts.Base64.{encode, decode}
use ulpf_prism_sih.Contracts.Platform.{is_sha256}
use ulpf_prism_sih.Contracts.RawEvent
use ulpf_prism_sih.Contracts.RawEvent.{RawEventEnvelope, raw_bytes, tcp}
use ulpf_prism_sih.Collection.Dedup
use ulpf_prism_sih.Collection.Dedup.{HashCache, check_and_add, evict, size}
use ulpf_prism_sih.Collection.Dedup.Recency
use ulpf_prism_sih.Collection.Dedup.LastUses.{last, last_uses, check_and_add-last_uses}
use ulpf_prism_sih.Collection.Metrics
use ulpf_prism_sih.Collection.Archive.{RawEventArchive, store, retrieve, verify, meta_of}
use ulpf_prism_sih.Collection.Pipeline.{
  CollectionPipeline, CollectorConfig, Circumstances, Event, IngestResult, create, ingest,
}
use ulpf_prism_sih.Collection.Pipeline.Accounting
use ulpf_prism_sih.Collection.Pipeline.Accounting.{pipeline_accounting, Call, ingesting, rejecting}
use ulpf_prism_sih.Collection.Pipeline.Evidence.{ingest_outcome, accepted_evidence, added}
use ulpf_prism_sih.Collection.Pipeline.Keeping.{expected_reason, marked}
use ulpf_prism_sih.Collection.Tcp.{
  Received, chunk, closed, handle_conn, drain, split_line, recv_size,
}
use ulpf_prism_sih.Collection.Tcp.Framing.{IsSchedule, frame, stream, ending}
use ulpf_prism_sih.Collection.Tcp.Stream.{handle_conn-frame}
use ulpf_prism_sih.Collection.Tcp.Bounds.{handle_conn-AllWithin, AllWithin}
use ulpf_prism_sih.Collection.Replay.{sent, replay_one, replay_events}
use ulpf_prism_sih.Collection.Replay.RoundTrip.{
  quiet, IsEvidence, replay_one-ingest, replay_events-IsEvidence,
}
use ulpf_prism_sih.Samples.{platform, line}

abbrev config : CollectorConfig
config = record { max_event_size_bytes = 16; dedup_max_entries = 2; latency_window_size = 3 }

abbrev no_files : RawEventArchive
no_files = record { raw_files = []; meta_files = [] }

abbrev denied : Event
denied = record {
  raw = line;
  transport = tcp;
  source_ip = some "10.0.0.1";
  source_id = none;
  metadata = [];
}

abbrev nothing : Event
nothing = record denied { raw = [] }

abbrev fine : Circumstances
fine = record {
  event_id = "e-1";
  wall_clock = 1_000_000;
  started = 10;
  finished = 12;
  store_faults = record { raw_write = none; meta_write = none };
  publish_fault = none;
  rejection_id = "r-1";
  rejection_fails = false;
}

abbrev full_disk : Circumstances
full_disk = record fine { store_faults = record { raw_write = none; meta_write = some "OSError" } }

abbrev fresh : CollectionPipeline
fresh = record {
  config = config;
  metrics = record {
    received = 0;
    accepted = 0;
    rejected = 0;
    duplicates = 0;
    bytes_received = 0;
    latency_window_size = 3;
    latencies = [];
  };
  seen_hashes = record { entries = []; max_entries = 2 };
  archive = no_files;
  rejected_log = none;
  published = [];
}

line-AreBytes : AreBytes line
line-AreBytes = (omega arith, (omega arith, (omega arith, (omega arith, tt))))

created : create config no_files none ≡ some fresh
unfolding create Metrics.create Dedup.create
created = refl

abbrev calls : List (Circumstances × Call)
calls =
    (fine, ingesting denied)
    ∷ (full_disk, ingesting denied)
    ∷ (fine, rejecting nothing "bad_frame")
    ∷ []

pipeline_accounting_example :
    let (raised, t) = Accounting.run platform 0 fresh calls in
    (t.metrics.received ≡ t.metrics.accepted + t.metrics.rejected + raised)
    × (t.metrics.duplicates ≤ t.metrics.accepted)
    × (size t.seen_hashes ≤ 2)
    × (length t.metrics.latencies ≤ 3)
pipeline_accounting_example = pipeline_accounting platform config no_files none fresh created calls

ingest_outcome_example :
    (Option.map (λ (r : IngestResult). r.reason) (ingest platform full_disk denied fresh).0
      ≡ expected_reason platform full_disk denied fresh)
    × ((ingest platform full_disk denied fresh).1.published
        ≡ []
          ++ added platform full_disk denied
              (expected_reason platform full_disk denied fresh)
              (marked platform full_disk denied fresh))
ingest_outcome_example = ingest_outcome platform full_disk denied fresh line-AreBytes

abbrev accepted_result : IngestResult
accepted_result = record {
  accepted = true;
  envelope = some (marked platform fine denied fresh);
  reason = none;
  duplicate = false;
}

ingested : (ingest platform fine denied fresh).0 ≡ some accepted_result
unfolding ingest RawEvent.from_bytes is_sha256 RawEvent.verify_evidence decode encode store
    check_and_add
ingested = refl

accepted_evidence_example :
    (v : RawEventEnvelope) × (some (marked platform fine denied fresh) ≡ some v)
    × (raw_bytes v ≡ some line)
    × (retrieve (ingest platform fine denied fresh).1.archive v.event_id ≡ some (meta_of v, line))
    × (verify platform (ingest platform fine denied fresh).1.archive v.event_id ≡ true)
accepted_evidence_example =
    accepted_evidence platform fine denied fresh accepted_result line-AreBytes ingested refl

abbrev history : List String
history = "a" ∷ "b" ∷ "a" ∷ []

abbrev empty_cache : HashCache
empty_cache = record { entries = []; max_entries = 2 }

made_cache : Dedup.create 2 ≡ some empty_cache
unfolding Dedup.create
made_cache = refl

check_and_add-last_uses_example :
    ((Recency.run empty_cache history).entries ≡ last 2 (last_uses history))
    × ((check_and_add (Recency.run empty_cache history) "b").0
        ≡ contains "b" (last 2 (last_uses history)))
check_and_add-last_uses_example = check_and_add-last_uses 2 empty_cache history "b" made_cache

-- A connection that closes after a delimited line and a half.
abbrev connection : List Received
connection = chunk (100 ∷ 10 ∷ []) ∷ chunk (101 ∷ []) ∷ closed ∷ []

abbrev recut : List Received
recut = chunk (100 ∷ []) ∷ chunk (10 ∷ 101 ∷ []) ∷ closed ∷ []

scheduled : IsSchedule 3 [] connection
unfolding recv_size drain split_line
scheduled = (omega arith, (omega arith, tt))

rescheduled : IsSchedule 3 [] recut
unfolding recv_size drain split_line
rescheduled = (omega arith, (omega arith, tt))

handle_conn-frame_example :
    handle_conn 3 [] connection ≡ frame 3 [] (stream connection) (ending connection)
handle_conn-frame_example = handle_conn-frame 3 [] connection tt (omega arith) scheduled

handle_conn-AllWithin_example : AllWithin (3 + 1) (handle_conn 3 [] connection)
handle_conn-AllWithin_example = handle_conn-AllWithin 3 connection scheduled

replay_one-ingest_example :
    (v : RawEventEnvelope) × (some (marked platform fine denied fresh) ≡ some v)
    × (replay_one platform quiet (ingest platform fine denied fresh).1.archive v.event_id ≡ sent v)
replay_one-ingest_example =
    replay_one-ingest platform fine denied fresh accepted_result line-AreBytes ingested refl

replay_events-IsEvidence_example :
    let (report, vs) = replay_events platform (λ n. quiet) no_files ("e-1" ∷ []) in
    AllOf (IsEvidence platform) vs
    × (report.attempted ≡ 1)
    × (report.published ≡ length vs)
    × (report.published + report.failed ≡ report.attempted)
    × (length report.errors ≡ report.failed)
replay_events-IsEvidence_example =
    replay_events-IsEvidence platform (λ n. quiet) no_files ("e-1" ∷ [])
