-- ===== src/Streaming/Processors/Routing.antt =====
-- src/streaming/processor.py and workers.py: the topics, keys and headers that the stages choose.
use ulpf_prism_sih.Prelude.{
  ℕ, ◌<◌, ◌≤◌, arith, leb→le, codes, ◌≡◌, refl, ◌⊎◌, inl, inr, String, true, false, Option, none,
  some, leb, Text, Bytes, Bool-cases,
}
use ulpf_prism_sih.Dict
use ulpf_prism_sih.Dict.{Dict}
use ulpf_prism_sih.Contracts.Platform.{Platform}
use ulpf_prism_sih.Contracts.RawEvent.{RawEventEnvelope}
use ulpf_prism_sih.Contracts.ParsedEvent.{ParsedEvent}
use ulpf_prism_sih.Streaming.Messages.{Topic}
use ulpf_prism_sih.Streaming.Policy.{RetryPolicy, retry_or_dead_letter, invalid_contract}
use ulpf_prism_sih.Streaming.Processors.{
  Codec, Reading, unreadable, fields, Normalizing, normalized, transient, crashes, Processed,
  Answer, answered, busy, engine_crashes, route_answer, decided, raised, load_raw, load_parsed,
  parser_process, parse_loaded, parse_envelope, normalizer_process, normalize_loaded,
  normalize_event, route_normalized, route_parsed,
}

-- A record is retried below the attempt limit and dead-lettered at it, with its bytes, its id and
-- its stage.
abbrev pub SentBack : RetryPolicy → String → Bytes → String → ℕ → Processed → Type 0
SentBack p name payload event_id attempt raised = ⊥
SentBack p name payload event_id attempt (decided d) =
    (((attempt < p.max_attempts) × (d.topic ≡ Topic.retry) × (d.terminal ≡ false))
      ⊎ ((p.max_attempts ≤ attempt) × (d.topic ≡ Topic.dead_letter) × (d.terminal ≡ true)))
    × (d.payload ≡ payload)
    × (d.key ≡ event_id)
    × (d.event_id ≡ event_id)
    × (Dict.lookup "retry_stage" d.headers ≡ some (codes name))

-- A record goes on to a topic as other bytes.
abbrev pub Forwarded : Topic → Bytes → String → Processed → Type 0
Forwarded topic out event_id raised = ⊥
Forwarded topic out event_id (decided d) =
    (d.topic ≡ topic)
    × (d.payload ≡ out)
    × (d.key ≡ event_id)
    × (d.event_id ≡ event_id)
    × (d.terminal ≡ true)
    × (d.error_code ≡ none)

-- A payload that breaks the contract is dead-lettered as it is, under its digest.
abbrev pub Refused : Platform → Bytes → String → Processed → Type 0
Refused p payload code raised = ⊥
Refused p payload code (decided d) =
    (d.topic ≡ Topic.dead_letter)
    × (d.payload ≡ payload)
    × (d.key ≡ p.hexdigest payload)
    × (d.event_id ≡ p.hexdigest payload)
    × (d.terminal ≡ true)
    × (d.error_code ≡ some code)

-- What becomes of a record whose new bytes may fail to be written.
abbrev pub Written : Topic → String → Option Bytes → Processed → Type 0
Written topic event_id none o = o ≡ raised
Written topic event_id (some out) o = Forwarded topic out event_id o

module _ (policy : RetryPolicy) (now : ℕ) (payload : Bytes) (event_id : String) (attempt : ℕ)
    (error : Text) where
  retry_or_dead_letter-SentBack :
      (name : String)
      → SentBack policy name payload event_id attempt
          (decided (retry_or_dead_letter policy name now payload event_id attempt error))
  unfolding retry_or_dead_letter Dict.lookup
  retry_or_dead_letter-SentBack name = elim (Bool-cases (leb policy.max_attempts attempt)) [
    | inl e ↦ rw e (inr (leb→le _ _ e, refl, refl), refl, refl, refl, refl)
    | inr e ↦ rw e (inl (ground (arith, e), refl, refl), refl, refl, refl, refl)
  ]

module _ (p : Platform) (codec : Codec) (policy : RetryPolicy) (engine : RawEventEnvelope → Answer)
    (now : ℕ) (payload : Bytes) (attempt : ℕ) where
  -- What the parser stage does with the engine's answer.
  abbrev pub AnswerRouted : String → Answer → Processed → Type 0
  AnswerRouted event_id (answered event) o =
      Written Topic.parsed_event event_id (codec.write_parsed event) o
  AnswerRouted event_id (busy error) o = SentBack policy "parser" payload event_id attempt o
  AnswerRouted event_id engine_crashes o = o ≡ raised

  -- What the parser stage does with a payload, as it is read, and a forced error.
  abbrev pub ParserRouted : Reading RawEventEnvelope → Option Text → Processed → Type 0
  ParserRouted (unreadable m) forced o = Refused p payload "INVALID_RAW_CONTRACT" o
  ParserRouted (fields e) (some error) o = SentBack policy "parser" payload e.event_id attempt o
  ParserRouted (fields e) none o = AnswerRouted e.event_id (engine e) o

  route_parsed-Written :
      (event_id : String) (event : ParsedEvent) (out : Option Bytes)
      → Written Topic.parsed_event event_id out
          (route_parsed p codec policy event_id attempt event out)
  unfolding route_parsed
  route_parsed-Written event_id event none = refl
  route_parsed-Written event_id event (some out) = (refl, refl, refl, refl, refl, refl)

  route_answer-AnswerRouted :
      (event_id : String) (a : Answer)
      → AnswerRouted event_id a (route_answer p codec policy payload event_id now attempt a)
  unfolding route_answer
  route_answer-AnswerRouted event_id (answered event) =
      route_parsed-Written event_id event (codec.write_parsed event)
  route_answer-AnswerRouted event_id (busy error) =
      retry_or_dead_letter-SentBack policy now payload event_id attempt error "parser"
  route_answer-AnswerRouted event_id engine_crashes = refl

  parse_loaded-ParserRouted :
      (forced : Option Text) (loaded : Reading RawEventEnvelope)
      → ParserRouted loaded forced
          (parse_loaded p codec policy engine now payload attempt forced loaded)
  unfolding parse_loaded parse_envelope invalid_contract
  parse_loaded-ParserRouted forced (unreadable m) = (refl, refl, refl, refl, refl, refl)
  parse_loaded-ParserRouted (some error) (fields e) =
      retry_or_dead_letter-SentBack policy now payload e.event_id attempt error "parser"
  parse_loaded-ParserRouted none (fields e) = route_answer-AnswerRouted e.event_id (engine e)

  -- The parser stage over any engine: a payload that is no valid envelope goes to the dead letters as
  -- it is, under its digest; with a forced error, or one of the engine that is transient, the payload
  -- is retried below the attempt limit and dead-lettered at it, unchanged and under the envelope's id;
  -- otherwise the event that the engine answers goes on as its serialized bytes under the envelope's
  -- id. The stage raises exactly if the engine raises another error or the event cannot be serialized.
  pub parser_process-ParserRouted :
      (forced : Option Text)
      → ParserRouted
          (load_raw p codec payload)
          forced
          (parser_process p codec policy engine now payload attempt forced)
  unfolding parser_process
  parser_process-ParserRouted forced = parse_loaded-ParserRouted forced (load_raw p codec payload)

module _ (p : Platform) (codec : Codec) (policy : RetryPolicy)
    (normalize : ParsedEvent → Normalizing) (now : ℕ) (payload : Bytes) (attempt : ℕ) where
  -- What the normalizer stage does with the normalizer's result.
  abbrev pub ResultRouted : String → Normalizing → Processed → Type 0
  ResultRouted event_id (normalized version out) o = Forwarded Topic.normalized_event out event_id o
  ResultRouted event_id (transient error) o =
      SentBack policy "normalizer" payload event_id attempt o
  ResultRouted event_id crashes o = o ≡ raised

  -- What the normalizer stage does with a payload, as it is read, and a forced error.
  abbrev pub NormalizerRouted : Reading ParsedEvent → Option Text → Processed → Type 0
  NormalizerRouted (unreadable m) forced o = Refused p payload "INVALID_PARSED_CONTRACT" o
  NormalizerRouted (fields e) (some error) o =
      SentBack policy "normalizer" payload e.event_id attempt o
  NormalizerRouted (fields e) none o = ResultRouted e.event_id (normalize e) o

  route_normalized-ResultRouted :
      (event_id : String) (n : Normalizing)
      → ResultRouted event_id n (route_normalized p codec policy payload event_id now attempt n)
  unfolding route_normalized
  route_normalized-ResultRouted event_id (normalized version out) =
      (refl, refl, refl, refl, refl, refl)
  route_normalized-ResultRouted event_id (transient error) =
      retry_or_dead_letter-SentBack policy now payload event_id attempt error "normalizer"
  route_normalized-ResultRouted event_id crashes = refl

  normalize_loaded-NormalizerRouted :
      (forced : Option Text) (loaded : Reading ParsedEvent)
      → NormalizerRouted loaded forced
          (normalize_loaded p codec policy normalize now payload attempt forced loaded)
  unfolding normalize_loaded normalize_event invalid_contract
  normalize_loaded-NormalizerRouted forced (unreadable m) = (refl, refl, refl, refl, refl, refl)
  normalize_loaded-NormalizerRouted (some error) (fields e) =
      retry_or_dead_letter-SentBack policy now payload e.event_id attempt error "normalizer"
  normalize_loaded-NormalizerRouted none (fields e) =
      route_normalized-ResultRouted e.event_id (normalize e)

  -- The normalizer stage over any normalizer: a payload that is no valid parsed event goes to the dead
  -- letters as it is, under its digest; with a forced error, or one of the normalizer that is
  -- transient, the payload is retried below the attempt limit and dead-lettered at it, unchanged and
  -- under the event's id; otherwise the serialized result goes on under the event's id. The stage
  -- raises exactly if normalizing or serializing raises another error.
  pub normalizer_process-NormalizerRouted :
      (forced : Option Text)
      → NormalizerRouted
          (load_parsed p codec payload)
          forced
          (normalizer_process p codec policy normalize now payload attempt forced)
  unfolding normalizer_process
  normalizer_process-NormalizerRouted forced =
      normalize_loaded-NormalizerRouted forced (load_parsed p codec payload)
