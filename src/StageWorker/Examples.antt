-- ===== src/StageWorker/Examples.antt =====
-- The theorem about the worker of a stage at a concrete run.
use ulpf_prism_sih.Prelude.{◌≡◌, refl, true, false, none, some, List, [], ◌∷◌, codes, AllOf}
use ulpf_prism_sih.Dict
use ulpf_prism_sih.Streaming.Messages.{Topic}
use ulpf_prism_sih.Streaming.Processors.{decided}
use ulpf_prism_sih.StageWorker.Message.{parser, Message, Output, encoded, get_header}
use ulpf_prism_sih.StageWorker.Processing.{Floats, Stages, StageProcessor, prepare}
use ulpf_prism_sih.StageWorker.Loop.{
  acked, Produce, Circumstances, Polled, polled, shutdown_signal, Ending, run, round, process_one,
  serve, produce, maybe_commit, maybe_flush_metrics, finish,
}
use ulpf_prism_sih.StageWorker.Loop.Commits.{fresh_worker, run-IsDelivered}
use ulpf_prism_sih.StageWorker.Loop.Kept.{IsDelivered}
use ulpf_prism_sih.Samples.{platform, line}

abbrev floats : Floats
floats = record { read = λ s. some s; show_instant = λ n. codes "0.0" }

abbrev passes : StageProcessor
passes now payload attempt = decided (record {
  topic = Topic.parsed_event;
  key = "e-1";
  payload = payload;
  event_id = "e-1";
  terminal = true;
  headers = [];
  error_code = none;
})

abbrev stages : Stages
stages = record { parser_stage = passes; normalizer_stage = passes }

abbrev message : Message
message = record { key = none; value = some line; headers = [] }

abbrev quiet : Produce
quiet = record { raises = false; reports = [] }

abbrev metrics_event : Output
metrics_event = record {
  topic = Topic.framework_metrics;
  key = encoded "parser-1";
  value = some [];
  headers = [];
}

-- A message whose output is acknowledged by the flush of the commit.
abbrev polling : Circumstances
polling = record {
  clocks = record { received_at = 1; before_wait = 1; after_wait = 1; processing = 1 };
  output = quiet;
  safety_net = quiet;
  handled_at = 1;
  commit_clock = 6_000_000;
  flush_reports = acked ∷ [];
  commit_raises = false;
  metrics_clock = 1;
  metrics_output = metrics_event;
  metrics_produce = quiet;
}

abbrev ending : Ending
ending = record { first_flush = []; second_flush = []; clock = 7_000_000; raises = false }

abbrev rounds : List Polled
rounds = polled polling (some message) ∷ shutdown_signal ∷ []

commits_message :
    (run platform floats stages ending rounds (fresh_worker parser 0)).committed ≡ message ∷ []
unfolding run round process_one prepare get_header Dict.lookup maybe_commit produce serve
    maybe_flush_metrics finish
commits_message = refl

run-IsDelivered_example :
    let s = run platform floats stages ending rounds (fresh_worker parser 0) in
    AllOf (IsDelivered platform floats stages parser s) s.committed
run-IsDelivered_example =
    run-IsDelivered platform floats stages parser 0 ending rounds (refl, (tt, tt))
