-- ===== src/Pipeline/Examples.antt =====
-- Tests of the store and the runner, and the theorems at concrete events.
use ulpf_prism_sih.Prelude.{
  ◌+◌, String, true, false, none, some, List, [], ◌∷◌, ◌++◌, ◌≡◌, refl, max, take, length, AreBytes,
  arith,
}
use ulpf_prism_sih.Dict
use ulpf_prism_sih.Dict.{Dict}
use ulpf_prism_sih.Json.{Json, str, obj, end, field}
use ulpf_prism_sih.Samples
use ulpf_prism_sih.Samples.{platform, line}
use ulpf_prism_sih.Python.{get}
use ulpf_prism_sih.Python.Sample.{python}
use ulpf_prism_sih.Contracts.RawEvent.{RawEventEnvelope, tcp}
use ulpf_prism_sih.Contracts.ParsedEvent.{unrecognized}
use ulpf_prism_sih.Collection.Pipeline.{CollectionPipeline, Circumstances, ingest}
use ulpf_prism_sih.Collection.Pipeline
use ulpf_prism_sih.Storage.ClickHouse.{WriteResult}
use ulpf_prism_sih.Pipeline.Visibility.{
  AnalyticalVisibilityStore, Filters, empty, add_event, field_of, get_by_id, get_by_raw_hash,
  write_batch, search, matches, reversed, write_loop, write_one, is_refused, index, attribute,
  text_of, in_time, in_text,
}
use ulpf_prism_sih.Pipeline.Visibility.Searched.{filtered, search-filtered}
use ulpf_prism_sih.Pipeline.Visibility.Counted.{write_batch-stored}
use ulpf_prism_sih.Pipeline.Runner.{State, Stages, PipelineResult, Outcome, completed, process}
use ulpf_prism_sih.Pipeline.Runner.Traceable.{Follows, process-Follows}

abbrev event : String → String → Dict Json
event id label =
    ("event", obj (field "id" (str id) end))
    ∷ ("severity", obj (field "label" (str label) end))
    ∷ []

abbrev stored : AnalyticalVisibilityStore
stored =
    (write_batch python (λ e. true) (event "a" "low" ∷ event "b" "high" ∷ event "c" "low" ∷ [])
      empty).1

abbrev low : Filters
low = record {
  query = none;
  vendor = none;
  category = none;
  action = none;
  severity = some "low";
  quality_status = none;
  start_time = none;
  end_time = none;
}

passing :
    filtered (matches python low) (reversed stored.events)
    ≡ some (event "c" "low" ∷ event "a" "low" ∷ [])
unfolding filtered matches reversed write_batch write_loop write_one is_refused add_event field_of
    Dict.lookup index get attribute text_of in_time in_text empty
passing = refl

search-filtered_example :
    search python low 1 stored ≡ some (take (max 1 1) (event "c" "low" ∷ event "a" "low" ∷ []))
search-filtered_example = search-filtered python low 1 stored _ passing

abbrev two : List (Dict Json)
two = event "d" "low" ∷ event "e" "high" ∷ []

abbrev counted : WriteResult
counted = record {
  accepted_count = 2;
  valid_count = 0;
  quarantine_count = 2;
  failed_count = 0;
  errors = [];
}

written : (write_batch python (λ e. false) two stored).0 ≡ some counted
unfolding write_batch ulpf_prism_sih.Pipeline.Visibility.write_loop
    ulpf_prism_sih.Pipeline.Visibility.write_one ulpf_prism_sih.Pipeline.Visibility.is_refused
    add_event field_of Dict.lookup ulpf_prism_sih.Pipeline.Visibility.index
    ulpf_prism_sih.Python.get
written = refl

write_batch-stored_example :
    ((write_batch python (λ e. false) two stored).1.events ≡ stored.events ++ two)
    × (counted.accepted_count ≡ length two)
    × (counted.accepted_count ≡ counted.valid_count + counted.quarantine_count)
    × (counted.failed_count ≡ 0)
write_batch-stored_example = write_batch-stored python (λ e. false) two stored written

line-AreBytes : AreBytes line
line-AreBytes = (omega arith, (omega arith, (omega arith, (omega arith, tt))))

abbrev fine : Circumstances
fine = record {
  event_id = "e-1";
  wall_clock = 3;
  started = 10;
  finished = 12;
  store_faults = record { raw_write = none; meta_write = none };
  publish_fault = none;
  rejection_id = "r-1";
  rejection_fails = false;
}

abbrev fresh : CollectionPipeline
fresh = record {
  config = record { max_event_size_bytes = 100; dedup_max_entries = 2; latency_window_size = 3 };
  metrics = record {
    received = 0;
    accepted = 0;
    rejected = 0;
    duplicates = 0;
    bytes_received = 0;
    latency_window_size = 3;
    latencies = [];
  };
  seen_hashes = record { entries = []; max_entries = 2 };
  archive = record { raw_files = []; meta_files = [] };
  rejected_log = none;
  published = [];
}

abbrev denied : Pipeline.Event
denied = record {
  raw = line;
  transport = tcp;
  source_ip = some "10.0.0.1";
  source_id = none;
  metadata = [];
}

abbrev stages : Stages
stages = record { packs = []; mappings = []; structure = λ d. [] }

abbrev start : State AnalyticalVisibilityStore
start = record { collector = fresh; store = empty }

abbrev ended : Outcome × State AnalyticalVisibilityStore
ended = process platform python stages (write_batch python (λ e. true)) fine 4 5 denied start

abbrev result_or : PipelineResult → Outcome → PipelineResult
result_or d (completed r) = r
result_or d o = d

abbrev nothing : PipelineResult
nothing = record {
  raw_event = Samples.envelope;
  parsed = Samples.event;
  unified = [];
  validation = [];
  quarantined = true;
}

finished : ended ≡ (completed (result_or nothing ended.0), ended.1)
unfolding process ingest ulpf_prism_sih.Contracts.RawEvent.from_bytes
    ulpf_prism_sih.Contracts.Platform.is_sha256 ulpf_prism_sih.Contracts.RawEvent.verify_evidence
    ulpf_prism_sih.Contracts.Base64.decode ulpf_prism_sih.Contracts.Base64.encode
    ulpf_prism_sih.Collection.Archive.store ulpf_prism_sih.Normalization.Normalizer.normalize
    ulpf_prism_sih.Normalization.Registry.get ulpf_prism_sih.Core.Engine.process
    ulpf_prism_sih.Core.Registry.match unrecognized
    ulpf_prism_sih.Normalization.Normalizer.unknown_mapping ulpf_prism_sih.Pipeline.Runner.mark
    ulpf_prism_sih.Validation.Events.validate_event ulpf_prism_sih.Validation.Issue.canonical
    ulpf_prism_sih.Validation.Semantics.validate_semantics ulpf_prism_sih.Validation.Semantics.rules
    ulpf_prism_sih.Validation.Semantics.time_rule Dict.lookup get ulpf_prism_sih.Python.Sample.unary
    ulpf_prism_sih.Python.Sample.from_unary ulpf_prism_sih.Validation.Semantics.endpoint_rule
    ulpf_prism_sih.Python.update Dict.assign ulpf_prism_sih.Validation.Semantics.section_rule
    ulpf_prism_sih.Validation.Semantics.action_rule
    ulpf_prism_sih.Validation.Semantics.severity_rule ulpf_prism_sih.Validation.Semantics.label_rule
    ulpf_prism_sih.Validation.Semantics.uncertainty_rule ulpf_prism_sih.Python.truthy
    ulpf_prism_sih.Python.Ordered.unique ulpf_prism_sih.Normalization.Normalizer.namespace
    ulpf_prism_sih.Python.Words.is_snake_case ulpf_prism_sih.Python.Words.named
    ulpf_prism_sih.Python.Words.words ulpf_prism_sih.Python.encode
    ulpf_prism_sih.Validation.Semantics.authentication_rule
    ulpf_prism_sih.Validation.Semantics.extension_rule
    ulpf_prism_sih.Validation.Semantics.integrity_rule
    ulpf_prism_sih.Validation.Semantics.partial_rule write_batch write_loop write_one is_refused
    add_event field_of index ulpf_prism_sih.Python.Sample.decode_ascii
finished = refl

process-Follows_example :
    Follows platform python stages (λ e. true) fine 4 5 denied (result_or nothing ended.0) ended.1
process-Follows_example =
    process-Follows platform python stages (λ e. true) fine 4 5 denied start line-AreBytes tt
      finished
