-- ===== src/Streaming/Examples.antt =====
-- The theorems about the streaming part at concrete records.
use ulpf_prism_sih.Prelude.{
  ℕ, suc, ◌≡◌, ◌≤◌, ◌<◌, ◌*◌, refl, inl, true, false, Option, none, some, List, [], ◌∷◌, ◌++◌, map,
  Text, codes, arith,
}
use ulpf_prism_sih.Dict
use ulpf_prism_sih.Dict.{Dict}
use ulpf_prism_sih.Int.{pos}
use ulpf_prism_sih.Decimal.{int, show}
use ulpf_prism_sih.Contracts.ParsedEvent
use ulpf_prism_sih.Contracts.RawEvent
use ulpf_prism_sih.Contracts.Base64.{encode, decode}
use ulpf_prism_sih.Contracts.Platform.{is_sha256}
use ulpf_prism_sih.Contracts.ParsedEvent.{ParsedEvent}
use ulpf_prism_sih.Streaming.Messages.{Topic}
use ulpf_prism_sih.Streaming.Policy
use ulpf_prism_sih.Streaming.Policy.{
  RetryPolicy, default_policy, delay, not_before_epoch_ms, again, exhausted, retry_or_dead_letter,
}
use ulpf_prism_sih.Streaming.Policy.Backoff.{delay_bounds}
use ulpf_prism_sih.Streaming.Policy.Journey
use ulpf_prism_sih.Streaming.Policy.Journey.{journey, journey-sent, attempts_from, sent, dead}
use ulpf_prism_sih.Streaming.Processors.{
  StreamProcessor, RetryProcessorRouter, decided, fields, normalized, for_headers, engine_of,
  parser_process, normalizer_process, load_parsed, load_raw, run_route,
}
use ulpf_prism_sih.Streaming.Processors.Routing.{
  ParserRouted, NormalizerRouted, parser_process-ParserRouted, normalizer_process-NormalizerRouted,
}
use ulpf_prism_sih.Streaming.Kafka
use ulpf_prism_sih.Streaming.Kafka.Safety
use ulpf_prism_sih.Streaming.Kafka.{
  Message, Circumstances, acknowledged, refused, direct, decodes, headers_of,
}
use ulpf_prism_sih.Streaming.Kafka.Safety.{
  IsCovered, commits-IsCovered, fresh_broker, process_one-commits, commits_by,
}
use ulpf_prism_sih.Streaming.RetryWorker
use ulpf_prism_sih.Streaming.RetryWorker.{deadline}
use ulpf_prism_sih.Streaming.RetryWorker.Deadlines.{commits_on_time}
use ulpf_prism_sih.Streaming.RetryWorker.Runs.{Happening, polled, looked, step, run, fresh_worker}
use ulpf_prism_sih.Streaming.RetryWorker.Holding.{IsHolding, worker-IsHolding}
use ulpf_prism_sih.Streaming.RetryWorker.Horizon.{deadline_accepted, deadline_refused}
use ulpf_prism_sih.Samples.{platform, line, good_pack, bad_pack, codec, envelope}

-- A stage that passes its payload on.
abbrev passes : StreamProcessor
passes now payload attempt = decided (record {
  topic = Topic.parsed_event;
  key = "e-1";
  payload = payload;
  event_id = "e-1";
  terminal = true;
  headers = ("attempt", show attempt) ∷ [];
  error_code = none;
})

abbrev stages : RetryProcessorRouter
stages = record { parser = passes; normalizer = passes }

-- A retry for the parser that is due after five seconds.
abbrev retried : Message
retried = record {
  topic = "retry";
  partition = 0;
  offset = 7;
  value = some line;
  headers =
      ("retry_stage", decodes (codes "parser"))
      ∷ ("retry_not_before_epoch_ms", decodes (codes "5000"))
      ∷ [];
}

abbrev at : ℕ → Circumstances
at clock = record { clock = clock; delivery = acknowledged; commit_fails = false }

abbrev timeline : List Happening
timeline =
    polled (at 1_000_000) retried ∷ looked (λ n. at 4_999_999) ∷ looked (λ n. at 6_000_000) ∷ []

timeline_commits :
    (run platform timeline (fresh_worker stages)).broker.commits ≡ (6_000_000, retried) ∷ []
unfolding run step RetryWorker.process_due RetryWorker.due_loop RetryWorker.process_one
    RetryWorker.is_held for_headers Dict.lookup headers_of Dict.assign deadline int
    RetryWorker.due_round Kafka.process_one Kafka.decide run_route
timeline_commits = refl

commits_on_time_example : 5000 * 1000 ≤ 6_000_000
unfolding for_headers headers_of Dict.lookup Dict.assign deadline int
commits_on_time_example =
    commits_on_time platform stages timeline (6_000_000, retried) passes 5000
      (rw timeline_commits (inl refl)) refl refl

worker-IsHolding_example : IsHolding (run platform timeline (fresh_worker stages))
worker-IsHolding_example = worker-IsHolding platform stages timeline

deadline_accepted_example :
    deadline 2_000_000 (again default_policy "parser" 3_000_000 line "e-1" 2 (codes "busy")).headers
    ≡ some (not_before_epoch_ms default_policy 3_000_000 2)
deadline_accepted_example =
    deadline_accepted default_policy "parser" 3_000_000 line "e-1" 2 (codes "busy") 2_000_000
      (omega arith) (omega arith)

-- An hour's cap, which the constructor accepts.
abbrev patient : RetryPolicy
patient = record { max_attempts = 9; backoff_base_seconds = 15; backoff_cap_seconds = 3600 }

deadline_refused_example :
    deadline 3_000_000 (again patient "parser" 3_000_000 line "e-1" 7 (codes "busy")).headers ≡ none
deadline_refused_example =
    deadline_refused patient "parser" 3_000_000 line "e-1" 7 (codes "busy")
      (unfold delay in omega arith)

delay_bounds_example :
    (0 < delay default_policy 3)
    × (delay default_policy 3 ≤ 1800)
    × (delay default_policy 3 ≤ delay default_policy (suc 3))
delay_bounds_example =
    delay_bounds (pos 5) (pos 15) (pos 1800) default_policy (unfold Policy.create in refl) 3

journey-sent_example :
    map sent (journey 6 default_policy "parser" (λ k. k * 60_000_000) (codes "busy") line "e-1" 0)
    ≡ map (Journey.retried (codes "parser") line "e-1") (attempts_from 5 1)
      ++ dead (codes "parser") line "e-1" 5 ∷ []
journey-sent_example =
    journey-sent default_policy "parser" (λ k. k * 60_000_000) (codes "busy") line "e-1" 6 5 0
      (omega arith) refl

load_raw-line : load_raw platform codec line ≡ fields envelope
unfolding load_raw RawEvent.validate RawEvent.envelope_of is_sha256 RawEvent.verify_evidence decode
    encode
load_raw-line = refl

parser_process-ParserRouted_example :
    ParserRouted platform codec default_policy
      (engine_of (bad_pack ∷ good_pack ∷ []) 3_000_000)
      3_000_000
      line
      0
      (load_raw platform codec line)
      none
      (parser_process platform codec default_policy
        (engine_of (bad_pack ∷ good_pack ∷ []) 3_000_000)
        3_000_000
        line
        0
        none)
parser_process-ParserRouted_example =
    parser_process-ParserRouted platform codec default_policy
      (engine_of (bad_pack ∷ good_pack ∷ []) 3_000_000) 3_000_000 line 0 none

normalizer_process-NormalizerRouted_example :
    NormalizerRouted platform codec default_policy
      (λ e. normalized "1.0.0" line)
      3_000_000
      line
      0
      (load_parsed platform codec line)
      none
      (normalizer_process platform codec default_policy
        (λ e. normalized "1.0.0" line)
        3_000_000
        line
        0
        none)
normalizer_process-NormalizerRouted_example =
    normalizer_process-NormalizerRouted platform codec default_policy (λ e. normalized "1.0.0" line)
      3_000_000 line 0 none

abbrev no_text : Option Text
no_text = none

abbrev calls : List (Circumstances × Message)
calls =
    (record { clock = 5; delivery = refused; commit_fails = false }, retried) ∷ (at 9, retried) ∷ []

commits-IsCovered_example :
    IsCovered platform
      (λ now m. direct passes)
      (Safety.run platform (direct passes) fresh_broker calls)
commits-IsCovered_example = commits-IsCovered platform (direct passes) calls
