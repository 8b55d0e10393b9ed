-- ===== src/Collection/Metrics.antt =====
-- src/collection/metrics.py: the counters of a collector and the window of its latencies, in
-- microseconds. The lock makes each call one step.
pub mod Window
use ulpf_prism_sih.Prelude.{
  ℕ, zero, suc, ◌+◌, ◌-◌, ◌/◌, String, Option, none, some, List, [], ◌∷◌, ◌++◌, ltb, ◌==◌,
  if◌then◌else◌, length,
}

pub record CollectorMetrics : Type 0 where
  pub latency_window_size : ℕ
  pub received : ℕ
  pub accepted : ℕ
  pub rejected : ℕ
  pub duplicates : ℕ
  pub bytes_received : ℕ
  pub latencies : List ℕ

-- `__post_init__`; the `ValueError` is `none`
unfoldable pub create : ℕ → Option CollectorMetrics
create n =
    if n == 0
    then none
    else some (record {
      latency_window_size = n;
      received = 0;
      accepted = 0;
      rejected = 0;
      duplicates = 0;
      bytes_received = 0;
      latencies = [];
    })

unfoldable pub record_received : ℕ → CollectorMetrics → CollectorMetrics
record_received size m = record m {
  received = m.received + 1;
  bytes_received = m.bytes_received + size;
}

unfoldable pub record_accepted : CollectorMetrics → CollectorMetrics
record_accepted m = record m { accepted = m.accepted + 1 }

unfoldable pub record_rejected : CollectorMetrics → CollectorMetrics
record_rejected m = record m { rejected = m.rejected + 1 }

unfoldable pub record_duplicate : CollectorMetrics → CollectorMetrics
record_duplicate m = record m { duplicates = m.duplicates + 1 }

-- the tail of a full deque's contents
abbrev tail : List ℕ → List ℕ
tail [] = []
tail (x ∷ xs) = xs

-- `append` on a `deque(maxlen=n)`: a full deque drops its oldest sample
unfoldable pub push_latency : ℕ → ℕ → List ℕ → List ℕ
push_latency n x xs = if ltb (length xs) n then xs ++ x ∷ [] else tail xs ++ x ∷ []

-- the two readings of the monotonic clock
unfoldable pub record_latency : ℕ → ℕ → CollectorMetrics → CollectorMetrics
unfolding push_latency
record_latency start now m = record m {
  latencies = push_latency m.latency_window_size (now - start) m.latencies;
}

sum : List ℕ → ℕ
sum [] = 0
sum (x ∷ xs) = x + sum xs

-- `health`, with the average truncated to whole microseconds
pub record Health : Type 0 where
  pub received : ℕ
  pub accepted : ℕ
  pub rejected : ℕ
  pub duplicates : ℕ
  pub bytes_received : ℕ
  pub avg_latency : ℕ

unfoldable pub health : CollectorMetrics → Health
unfolding sum
health m = record {
  received = m.received;
  accepted = m.accepted;
  rejected = m.rejected;
  duplicates = m.duplicates;
  bytes_received = m.bytes_received;
  avg_latency = sum m.latencies / length m.latencies;
}
