-- ===== src/Streaming/Processors.antt =====
-- src/streaming/processor.py and workers.py: the parser and the normalizer stage, and the router of
-- retries. pydantic's reading and writing of JSON is a `Codec`; the engine and the normalizer are
-- functions, and `engine_of` is the engine of a list of packs.
pub mod Routing
use ulpf_prism_sih.Prelude.{
  ℕ, String, Bool, true, false, Option, none, some, List, [], ◌∷◌, if◌then◌else◌, Text, Bytes,
  codes, text_eq,
}
use ulpf_prism_sih.Dict
use ulpf_prism_sih.Dict.{Dict}
use ulpf_prism_sih.Decimal.{show}
use ulpf_prism_sih.Contracts.Platform.{Platform}
use ulpf_prism_sih.Contracts.RawEvent
use ulpf_prism_sih.Contracts.RawEvent.{RawEventEnvelope}
use ulpf_prism_sih.Contracts.ParsedEvent
use ulpf_prism_sih.Contracts.ParsedEvent.{ParsedEvent}
use ulpf_prism_sih.Core.SourcePack.{SourcePack}
use ulpf_prism_sih.Core.Engine
use ulpf_prism_sih.Streaming.Messages.{Topic, ProcessingDecision}
use ulpf_prism_sih.Streaming.Policy.{RetryPolicy, retry_or_dead_letter, invalid_contract}

-- JSON that pydantic reads into fields of the right types, or refuses with a message.
pub data Reading (A : Type 0) : Type 0 where
  unreadable : Text → Reading A
  fields : A → Reading A

pub record Codec : Type 0 where
  pub read_raw : Bytes → Reading RawEventEnvelope
  pub read_parsed : Bytes → Reading ParsedEvent
  -- the text of the error of a validator
  pub validator_message : Text
  -- `model_dump_json`, in UTF-8; an exception is `none`
  pub write_parsed : ParsedEvent → Option Bytes

-- How the normalizer ends: the schema version and the serialized record, or an exception.
pub data Normalizing : Type 0 where
  normalized : String → Bytes → Normalizing
  transient : Text → Normalizing
  crashes : Normalizing

-- How the engine ends: an event, a `TransientProcessingError` or another exception.
pub data Answer : Type 0 where
  answered : ParsedEvent → Answer
  busy : Text → Answer
  engine_crashes : Answer

-- the engine over a list of packs at an instant; its `process` catches every exception
unfoldable pub engine_of : List SourcePack → ℕ → RawEventEnvelope → Answer
engine_of packs now e = answered (Engine.process packs now e)

-- A stage decides, or lets an exception pass through.
pub data Processed : Type 0 where
  decided : ProcessingDecision → Processed
  raised : Processed

abbrev checked : {A : Type 0} → Text → Option A → Reading A
checked m none = unreadable m
checked m (some a) = fields a

module _ (p : Platform) (codec : Codec) where
  validate_raw : Reading RawEventEnvelope → Reading RawEventEnvelope
  validate_raw (unreadable m) = unreadable m
  validate_raw (fields e) = checked codec.validator_message (RawEvent.validate p e)

  validate_both : ParsedEvent → Option RawEventEnvelope → Reading ParsedEvent
  validate_both e none = unreadable codec.validator_message
  validate_both e (some raw) = checked codec.validator_message (ParsedEvent.validate e)

  validate_parsed : Reading ParsedEvent → Reading ParsedEvent
  validate_parsed (unreadable m) = unreadable m
  validate_parsed (fields e) = validate_both e (RawEvent.validate p e.raw_event)

  -- `model_validate_json`
  unfoldable pub load_raw : Bytes → Reading RawEventEnvelope
  unfolding validate_raw
  load_raw payload = validate_raw (codec.read_raw payload)

  unfoldable pub load_parsed : Bytes → Reading ParsedEvent
  unfolding validate_parsed validate_both
  load_parsed payload = validate_parsed (codec.read_parsed payload)

  module _ (policy : RetryPolicy) where
    route_parsed : String → ℕ → ParsedEvent → Option Bytes → Processed
    route_parsed event_id attempt event none = raised
    route_parsed event_id attempt event (some out) = decided (record {
      topic = Topic.parsed_event;
      key = event_id;
      payload = out;
      event_id = event_id;
      terminal = true;
      headers = ("attempt", show attempt) ∷ ("contract_version", codes event.contract_version) ∷ [];
      error_code = none;
    })

    route_answer : Bytes → String → ℕ → ℕ → Answer → Processed
    route_answer payload event_id now attempt (answered event) =
        route_parsed event_id attempt event (codec.write_parsed event)
    route_answer payload event_id now attempt (busy error) =
        decided (retry_or_dead_letter policy "parser" now payload event_id attempt error)
    route_answer payload event_id now attempt engine_crashes = raised

    parse_envelope :
        (RawEventEnvelope → Answer) → ℕ → Bytes → ℕ → Option Text → RawEventEnvelope → Processed
    parse_envelope engine now payload attempt (some error) e =
        decided (retry_or_dead_letter policy "parser" now payload e.event_id attempt error)
    parse_envelope engine now payload attempt none e =
        route_answer payload e.event_id now attempt (engine e)

    parse_loaded :
        (RawEventEnvelope → Answer)
        → ℕ
        → Bytes
        → ℕ
        → Option Text
        → Reading RawEventEnvelope
        → Processed
    parse_loaded engine now payload attempt forced (unreadable m) =
        decided (invalid_contract (p.hexdigest payload) payload attempt "INVALID_RAW_CONTRACT" m)
    parse_loaded engine now payload attempt forced (fields e) =
        parse_envelope engine now payload attempt forced e

    -- `ParserProcessor.process`; a forced error is given by its text
    unfoldable pub parser_process :
        (RawEventEnvelope → Answer) → ℕ → Bytes → ℕ → Option Text → Processed
    unfolding parse_loaded parse_envelope route_answer route_parsed
    parser_process engine now payload attempt forced =
        parse_loaded engine now payload attempt forced (load_raw payload)

    route_normalized : Bytes → String → ℕ → ℕ → Normalizing → Processed
    route_normalized payload event_id now attempt (normalized version out) = decided (record {
      topic = Topic.normalized_event;
      key = event_id;
      payload = out;
      event_id = event_id;
      terminal = true;
      headers = ("attempt", show attempt) ∷ ("schema_version", codes version) ∷ [];
      error_code = none;
    })
    route_normalized payload event_id now attempt (transient error) =
        decided (retry_or_dead_letter policy "normalizer" now payload event_id attempt error)
    route_normalized payload event_id now attempt crashes = raised

    normalize_event :
        (ParsedEvent → Normalizing) → ℕ → Bytes → ℕ → Option Text → ParsedEvent → Processed
    normalize_event normalize now payload attempt (some error) e =
        decided (retry_or_dead_letter policy "normalizer" now payload e.event_id attempt error)
    normalize_event normalize now payload attempt none e =
        route_normalized payload e.event_id now attempt (normalize e)

    normalize_loaded :
        (ParsedEvent → Normalizing) → ℕ → Bytes → ℕ → Option Text → Reading ParsedEvent → Processed
    normalize_loaded normalize now payload attempt forced (unreadable m) =
        decided (invalid_contract (p.hexdigest payload) payload attempt "INVALID_PARSED_CONTRACT" m)
    normalize_loaded normalize now payload attempt forced (fields e) =
        normalize_event normalize now payload attempt forced e

    -- `NormalizerProcessor.process`
    unfoldable pub normalizer_process :
        (ParsedEvent → Normalizing) → ℕ → Bytes → ℕ → Option Text → Processed
    unfolding normalize_loaded normalize_event route_normalized
    normalizer_process normalize now payload attempt forced =
        normalize_loaded normalize now payload attempt forced (load_parsed payload)

-- A stage as the workers call it: the instant, the payload and the attempt.
abbrev pub StreamProcessor : Type 0
StreamProcessor = ℕ → Bytes → ℕ → Processed

-- `InvalidRetryProcessor.process`
unfoldable pub invalid_retry : Platform → String → Bytes → ProcessingDecision
invalid_retry p reason payload = record {
  topic = Topic.dead_letter;
  key = p.hexdigest payload;
  payload = payload;
  event_id = p.hexdigest payload;
  terminal = true;
  headers = ("error_code", codes "INVALID_RETRY_METADATA") ∷ ("error_message", codes reason) ∷ [];
  error_code = some "INVALID_RETRY_METADATA";
}

pub record RetryProcessorRouter : Type 0 where
  pub parser : StreamProcessor
  pub normalizer : StreamProcessor

-- Which stage a retry goes back to: the result of `for_headers` is a known stage or an
-- `InvalidRetryProcessor`.
pub data Route : Type 0 where
  stage : StreamProcessor → Route
  no_stage : String → Route

route_of : RetryProcessorRouter → Option Text → Route
route_of r none = no_stage "retry message has no recognized retry_stage header"
route_of r (some name) =
    if text_eq name (codes "parser")
    then stage r.parser
    else if text_eq name (codes "normalizer")
    then stage r.normalizer
    else no_stage "retry message has no recognized retry_stage header"

unfoldable pub for_headers : RetryProcessorRouter → Dict Text → Route
unfolding route_of
for_headers r headers = route_of r (Dict.lookup "retry_stage" headers)

-- The call of a routed processor.
unfoldable pub run_route : Platform → Route → StreamProcessor
run_route p (stage process) now payload attempt = process now payload attempt
run_route p (no_stage reason) now payload attempt = decided (invalid_retry p reason payload)
