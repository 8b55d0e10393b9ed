-- ===== src/StageWorker/Loop.antt =====
-- files/worker.py: the producer, the commit and the loop. The producer's client holds the outputs
-- that it has not reported; a report tells of the oldest. The consumer is the messages that it has
-- handed out and those that lie before its committed position. Clock readings are microseconds.
pub mod Kept
pub mod Commits
use ulpf_prism_sih.Prelude.{
  ℕ, zero, suc, ◌+◌, String, Bool, true, false, not, ◌||◌, ◌&&◌, Option, none, some, List, [], ◌∷◌,
  ◌++◌, ltb, leb, ◌==◌, if◌then◌else◌, length, Text, Bytes,
}
use ulpf_prism_sih.Contracts.Platform.{Platform}
use ulpf_prism_sih.Streaming.Messages.{Topic}
use ulpf_prism_sih.StageWorker.Message.{
  Role, Message, Output, Key, encoded, MetricsWindow, reset, size, count_topic,
}
use ulpf_prism_sih.StageWorker.Processing.{
  Floats, Stages, Clocks, Prepared, unreadable, crashed, deferred, ready, prepare, dead_letter,
}

pub record Worker : Type 0 where
  pub role : Role
  pub running : Bool
  pub uncommitted : ℕ
  pub last_commit : ℕ
  pub last_metrics_flush : ℕ
  pub produce_errors : List Text
  pub metrics : MetricsWindow
  pub pending : List Output
  pub delivered : List Output
  pub lost : List Output
  pub handed_out : List Message
  pub committed : List Message

-- What a delivery callback says of an output.
pub data Report : Type 0 where
  acked : Report
  errored : Text → Report

report_oldest : Report → List Output → Worker → Worker
report_oldest r [] s = s
report_oldest acked (o ∷ os) s = record s { pending = os; delivered = s.delivered ++ o ∷ [] }
report_oldest (errored e) (o ∷ os) s = record s {
  pending = os;
  lost = s.lost ++ o ∷ [];
  produce_errors = s.produce_errors ++ e ∷ [];
}

-- `_on_delivery` for each callback that `poll` or `flush` serves
unfoldable pub serve : List Report → Worker → Worker
unfolding report_oldest
serve [] s = s
serve (r ∷ rs) s = serve rs (report_oldest r s.pending s)

-- What one produce meets: it raises, or it serves callbacks.
pub record Produce : Type 0 where
  pub raises : Bool
  pub reports : List Report

-- `_produce` of an output that the client takes
unfoldable pub produce : Output → List Report → Worker → Worker
produce o reports s = serve reports (record s { pending = s.pending ++ o ∷ [] })

-- What one round of the loop meets.
pub record Circumstances : Type 0 where
  pub clocks : Clocks
  pub output : Produce
  pub safety_net : Produce
  pub handled_at : ℕ
  pub commit_clock : ℕ
  pub flush_reports : List Report
  pub commit_raises : Bool
  pub metrics_clock : ℕ
  pub metrics_output : Output
  pub metrics_produce : Produce

-- Whether an operation returned, and the state after it.
abbrev pub Ran : Type 0
Ran = Bool × Worker

abbrev then_do : Ran → (Worker → Ran) → Ran
then_do (true, s) next = next s
then_do (false, s) next = (false, s)

abbrev count_message : Message → Worker → Worker
count_message m s = record s {
  metrics = record s.metrics {
    consumed_count = s.metrics.consumed_count + 1;
    bytes_in = s.metrics.bytes_in + size m.value;
  };
}

abbrev count_retry : Worker → Worker
count_retry s = record s { metrics = record s.metrics { retry_count = s.metrics.retry_count + 1 } }

abbrev count_dead_letter : Worker → Worker
count_dead_letter s = record s {
  metrics = record s.metrics { dead_letter_count = s.metrics.dead_letter_count + 1 };
}

abbrev count_output : Output → Worker → Worker
count_output o s = record s {
  metrics = record (count_topic o.topic s.metrics) {
    bytes_out = s.metrics.bytes_out + size o.value;
  };
}

-- `_maybe_flush_metrics`; the event itself is a parameter
unfoldable pub maybe_flush_metrics : Circumstances → Worker → Ran
maybe_flush_metrics c s =
    if ltb c.metrics_clock (s.last_metrics_flush + 5_000_000)
    then (true, s)
    else if c.metrics_produce.raises
    then (false, s)
    else (
      true,
      record (produce c.metrics_output c.metrics_produce.reports s) {
        metrics = reset c.metrics_clock s.metrics;
        last_metrics_flush = c.metrics_clock;
      },
    )

-- after the flush: the commit, unless outputs are pending or were lost
settle : ℕ → Bool → Worker → Ran
settle now raises s =
    if ltb 0 (length s.pending)
    then (true, s)
    else if ltb 0 (length s.produce_errors)
    then (true, record s { running = false })
    else if raises
    then (false, s)
    else (true, record s { committed = s.handed_out; uncommitted = 0; last_commit = now })

-- `_maybe_commit`
unfoldable pub maybe_commit : Bool → ℕ → List Report → Bool → Worker → Ran
unfolding settle
maybe_commit force now reports raises s =
    if not (force || leb 500 s.uncommitted || leb (s.last_commit + 5_000_000) now)
      || s.uncommitted == 0
    then (true, s)
    else settle now raises (serve reports s)

module _ (p : Platform) (f : Floats) (stages : Stages) where
  -- `_route_dead_letter`, in the handler of the loop
  route_dead_letter : Circumstances → Message → Worker → Ran
  route_dead_letter c m s = if c.safety_net.raises then (false, s) else (
    true,
    count_dead_letter
        (produce (dead_letter p f stages s.role c.handled_at m) c.safety_net.reports s),
  )

  finish_one : Circumstances → Message → Prepared → Worker → Ran
  finish_one c m unreadable s = route_dead_letter c m s
  finish_one c m crashed s = route_dead_letter c m (count_message m s)
  finish_one c m (deferred o) s =
      if c.output.raises
      then route_dead_letter c m s
      else (true, count_retry (produce o c.output.reports s))
  finish_one c m (ready o) s =
      if c.output.raises
      then route_dead_letter c m (count_message m s)
      else (true, count_output o (produce o c.output.reports (count_message m s)))

  -- `_process_one`, with the handler of its exceptions
  unfoldable pub process_one : Circumstances → Message → Worker → Ran
  unfolding finish_one route_dead_letter
  process_one c m s = finish_one c m (prepare p f stages s.role c.clocks m) s

  abbrev after_poll : Circumstances → Worker → Ran
  after_poll c s =
      then_do (maybe_commit false c.commit_clock c.flush_reports c.commit_raises s)
        (maybe_flush_metrics c)

  -- What the loop sees: nothing, an error of the consumer, a message, or a signal between rounds.
  -- A message is handed out when it is polled.
  unfoldable pub round : Circumstances → Option Message → Worker → Ran
  round c none s = after_poll c s
  round c (some m) s =
      then_do (process_one c m (record s { handed_out = s.handed_out ++ m ∷ [] }))
        (λ t. after_poll c (record t { uncommitted = t.uncommitted + 1 }))

pub data Polled : Type 0 where
  polled : Circumstances → Option Message → Polled
  consumer_error : Polled
  shutdown_signal : Polled

-- What the end of `run` meets: its two flushes, the clock, and whether the commit raises.
pub record Ending : Type 0 where
  pub first_flush : List Report
  pub second_flush : List Report
  pub clock : ℕ
  pub raises : Bool

-- the `finally` of `run`
unfoldable pub finish : Ending → Worker → Worker
finish e s = (maybe_commit true e.clock e.second_flush e.raises (serve e.first_flush s)).1

go_on : Ran → (Worker → Worker) → (Worker → Worker) → Worker
go_on (true, s) next end = next s
go_on (false, s) next end = end s

module _ (p : Platform) (f : Floats) (stages : Stages) where
  -- `run`, as far as what it met; it ends with a round that raises, or when it no longer runs
  unfoldable pub run : Ending → List Polled → Worker → Worker
  unfolding go_on
  run e [] s = if s.running then s else finish e s
  run e (x ∷ xs) s =
      if s.running
      then elim x [
        | polled c m ↦ go_on (round p f stages c m s) (run e xs) (finish e)
        | consumer_error ↦ run e xs s
        | shutdown_signal ↦ run e xs (record s { running = false })
      ]
      else finish e s
