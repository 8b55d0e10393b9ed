-- ===== src/Streaming/RetryWorker/Runs.antt =====
-- src/streaming/retry.py: sequences of what a retry worker meets.
use ulpf_prism_sih.Prelude.{ℕ, List, [], ◌∷◌}
use ulpf_prism_sih.Contracts.Platform.{Platform}
use ulpf_prism_sih.Streaming.Processors.{RetryProcessorRouter}
use ulpf_prism_sih.Streaming.Kafka.{Message, Circumstances}
use ulpf_prism_sih.Streaming.RetryWorker.{
  Key, RetryKafkaWorker, process_one, process_due, on_revoke,
}

-- What happens to a worker: a polled record, a look at the held records, a revoked assignment.
pub data Happening : Type 0 where
  polled : Circumstances → Message → Happening
  looked : (ℕ → Circumstances) → Happening
  revoked : List Key → Happening

unfoldable pub step : Platform → Happening → RetryKafkaWorker → RetryKafkaWorker
step p (polled c m) s = (process_one p c m s).1
step p (looked cs) s = (process_due p cs s).1
step p (revoked ks) s = on_revoke ks s

unfoldable pub run : Platform → List Happening → RetryKafkaWorker → RetryKafkaWorker
run p [] s = s
run p (x ∷ xs) s = run p xs (step p x s)

abbrev pub fresh_worker : RetryProcessorRouter → RetryKafkaWorker
fresh_worker r = record {
  router = r;
  broker = record { outputs = []; commits = [] };
  held = [];
  paused = [];
}
