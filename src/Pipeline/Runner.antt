-- ===== src/Pipeline/Runner.antt =====
-- src/pipeline/runner.py: one event through collection, parsing, normalization, validation and
-- storage, and a batch of them. The store is any with a `write_batch`, which may raise.
pub mod Traceable
use Prim.Native.String.{◌++◌ as append}
use ulpf_prism_sih.Prelude.{
  ℕ, zero, suc, String, Bool, true, false, Option, none, some, List, [], ◌∷◌, ◌++◌, map,
  if◌then◌else◌,
}
use ulpf_prism_sih.Dict
use ulpf_prism_sih.Dict.{Dict}
use ulpf_prism_sih.Json.{Json, str, arr, obj, of_dict, of_list, items, fields}
use ulpf_prism_sih.Python.{Python}
use ulpf_prism_sih.Contracts.Platform.{Platform}
use ulpf_prism_sih.Contracts.RawEvent.{RawEventEnvelope}
use ulpf_prism_sih.Contracts.ParsedEvent.{ParsedEvent}
use ulpf_prism_sih.Core.SourcePack.{SourcePack}
use ulpf_prism_sih.Core.Engine
use ulpf_prism_sih.Collection.Pipeline.{
  CollectionPipeline, Circumstances, IngestResult, Event, ingest,
}
use ulpf_prism_sih.Normalization.Models.{◌>>=◌}
use ulpf_prism_sih.Normalization.Registry.{Mappings}
use ulpf_prism_sih.Normalization.Normalizer.{normalize, described}
use ulpf_prism_sih.Storage.ClickHouse.{WriteResult}
use ulpf_prism_sih.Validation.Issue.{ValidationIssue, is_valid}
use ulpf_prism_sih.Validation.Events.{validate_event}

-- `PipelineResult`; the stages' texts are those of its parts
pub record PipelineResult : Type 0 where
  pub raw_event : RawEventEnvelope
  pub parsed : ParsedEvent
  pub unified : Dict Json
  pub validation : List ValidationIssue
  pub quarantined : Bool

-- How a call ends: with a result, a `CollectionRejectedError`, a `StorageWriteError`, or another
-- exception of a stage.
pub data Outcome : Type 0 where
  completed : PipelineResult → Outcome
  rejected : IngestResult → Outcome
  storage_failed : WriteResult → Outcome
  raised : Outcome

-- The configuration of a runner: the packs of its engine, the mappings of its normalizer, and the
-- structural issues of the JSON schema.
pub record Stages : Type 0 where
  pub packs : List SourcePack
  pub mappings : Mappings
  pub structure : Dict Json → List ValidationIssue

abbrev pub is_zero : ℕ → Bool
is_zero zero = true
is_zero (suc n) = false

abbrev extended : Option Json → List String → Option Json
extended (some (arr ws)) more = some (arr (of_list (items ws ++ map str more)))
extended _ more = none

-- `unified["quality"]["status"] = "invalid"`, and its warnings extended by the issues
unfoldable pub mark_quality : List ValidationIssue → Option Json → Option (Dict Json)
mark_quality issues (some (obj fs)) = do
  warnings ← extended (Dict.lookup "warnings" (fields fs)) (described issues)
  some (Dict.assign "warnings" warnings (Dict.assign "status" (str "invalid") (fields fs)))
mark_quality issues _ = none

mark_with : Dict Json → Option (Dict Json) → Option (Dict Json)
mark_with unified none = none
mark_with unified (some q) = some (Dict.assign "quality" (obj (of_dict q)) unified)

unfoldable pub mark : List ValidationIssue → Dict Json → Option (Dict Json)
unfolding mark_with
mark issues unified =
    if is_valid issues
    then some unified
    else mark_with unified (mark_quality issues (Dict.lookup "quality" unified))

-- what a runner's calls change: its collector and its store
pub record State (S : Type 0) : Type 0 where
  pub collector : CollectionPipeline
  pub store : S

-- What one event of a batch meets.
pub record Meeting : Type 0 where
  pub circumstances : Circumstances
  pub parse_clock : ℕ
  pub clock : ℕ
  pub event : Event

-- The results of a batch, or the outcome that stopped it.
pub data BatchOutcome : Type 0 where
  gathered : List PipelineResult → BatchOutcome
  stopped : Outcome → BatchOutcome

module _ {S : Type 0} (p : Platform) (py : Python) (g : Stages)
    (write : List (Dict Json) → S → Option WriteResult × S) where
  written : CollectionPipeline → PipelineResult → Option WriteResult × S → Outcome × State S
  written s r (none, t) = (raised, record { collector = s; store = t })
  written s r (some w, t) =
      if is_zero w.failed_count
      then (
        completed (record r { quarantined = if is_zero w.quarantine_count then false else true }),
        record { collector = s; store = t },
      )
      else (storage_failed w, record { collector = s; store = t })

  stored :
      RawEventEnvelope
      → ParsedEvent
      → List ValidationIssue
      → Option (Dict Json)
      → State S
      → Outcome × State S
  stored v parsed issues none st = (raised, st)
  stored v parsed issues (some u) st =
      written st.collector
        (record {
          raw_event = v;
          parsed = parsed;
          unified = u;
          validation = issues;
          quarantined = false;
        })
        (write (u ∷ []) st.store)

  validated : RawEventEnvelope → ParsedEvent → Option (Dict Json) → State S → Outcome × State S
  validated v parsed none st = (raised, st)
  validated v parsed (some u) st =
      let issues = validate_event p py g.structure u in stored v parsed issues (mark issues u) st

  -- the stages behind the collector, at the instants that the engine and the normalizer read
  normalized : ℕ → ℕ → RawEventEnvelope → State S → Outcome × State S
  normalized parse_clock clock v st =
      let parsed = Engine.process g.packs parse_clock v in
      validated v parsed (normalize p py g.structure g.mappings clock parsed) st

  accepted : ℕ → ℕ → IngestResult → Bool → Option RawEventEnvelope → State S → Outcome × State S
  accepted parse_clock clock r false v st = (rejected r, st)
  accepted parse_clock clock r true none st = (rejected r, st)
  accepted parse_clock clock r true (some v) st = normalized parse_clock clock v st

  collected : ℕ → ℕ → S → Option IngestResult × CollectionPipeline → Outcome × State S
  collected parse_clock clock t (none, s) = (raised, record { collector = s; store = t })
  collected parse_clock clock t (some r, s) =
      accepted parse_clock clock r r.accepted r.envelope (record { collector = s; store = t })

  -- `process`
  unfoldable pub process : Circumstances → ℕ → ℕ → Event → State S → Outcome × State S
  unfolding written stored validated normalized accepted collected
  process c parse_clock clock e st =
      collected parse_clock clock st.store (ingest p c e st.collector)

  batch_one : List PipelineResult → Outcome × State S → BatchOutcome × State S
  batch_one rs (completed r, st) = (gathered (rs ++ r ∷ []), st)
  batch_one rs (o, st) = (stopped o, st)

  -- the events in turn, up to the first exception
  unfoldable pub batch_loop : List Meeting → BatchOutcome × State S → BatchOutcome × State S
  unfolding batch_one
  batch_loop ms (stopped o, st) = (stopped o, st)
  batch_loop [] (gathered rs, st) = (gathered rs, st)
  batch_loop (m ∷ ms) (gathered rs, st) =
      batch_loop ms (batch_one rs (process m.circumstances m.parse_clock m.clock m.event st))

-- the events that `process_batch` hands to the exporter
unfoldable pub exports : BatchOutcome → Option (List (Dict Json))
exports (gathered rs) = some (map (λ (r : PipelineResult). r.unified) rs)
exports (stopped o) = none
