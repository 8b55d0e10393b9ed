-- ===== src/Streaming/RetryWorker.antt =====
-- src/streaming/retry.py: the retry worker, which holds records until their deadlines. `paused` is
-- the consumer's set of paused partitions. Clock readings are microseconds, deadlines milliseconds.
pub mod Runs
pub mod Partitions
pub mod Holding
pub mod Deadlines
pub mod Horizon
use mathlib.Core.Bool.{◌||◌}
use ulpf_prism_sih.Prelude.{
  ℕ, zero, suc, ◌+◌, ◌*◌, String, Bool, true, false, Option, none, some, List, [], ◌∷◌, ◌++◌, ◌&&◌,
  ltb, ◌==◌, if◌then◌else◌, str_eq, Text, codes,
}
use ulpf_prism_sih.Int.{ℤ, pos, negsuc}
use ulpf_prism_sih.Dict
use ulpf_prism_sih.Dict.{Dict}
use ulpf_prism_sih.Decimal.{int}
use ulpf_prism_sih.Contracts.Platform.{Platform}
use ulpf_prism_sih.Streaming.Policy.{header_or}
use ulpf_prism_sih.Streaming.Processors.{
  StreamProcessor, decided, RetryProcessorRouter, Route, stage, no_stage, for_headers,
  invalid_retry,
}
use ulpf_prism_sih.Streaming.Kafka
use ulpf_prism_sih.Streaming.Kafka.{
  Message, Broker, Circumstances, Outcome, done, withheld, failed, Wiring, direct, routed,
  headers_of,
}

abbrev pub Key : Type 0
Key = String × ℕ

abbrev pub key_eq : Key → Key → Bool
key_eq (t, n) (u, m) = str_eq t u && n == m

-- A held record with its deadline.
pub record Held : Type 0 where
  pub key : Key
  pub due_ms : ℕ
  pub message : Message

pub record RetryKafkaWorker : Type 0 where
  pub router : RetryProcessorRouter
  pub broker : Broker
  pub held : List Held
  pub paused : List Key

abbrev pub key_of : Message → Key
key_of m = (m.topic, m.partition)

unfoldable pub is_held : Key → List Held → Bool
is_held k [] = false
is_held k (h ∷ hs) = key_eq h.key k || is_held k hs

-- `due_ms > clock * 1000 + 1_805_000` and `due_ms > clock * 1000`
abbrev pub beyond_horizon : ℕ → ℕ → Bool
beyond_horizon clock due = ltb (clock + 1_805_000_000) (due * 1000)

abbrev pub is_early : ℕ → ℕ → Bool
is_early clock due = ltb clock (due * 1000)

-- the deadline of a header, or `none` where the code raises `ValueError`
in_horizon : ℕ → Option ℤ → Option ℕ
in_horizon clock none = none
in_horizon clock (some (negsuc n)) = none
in_horizon clock (some (pos due)) = if beyond_horizon clock due then none else some due

unfoldable pub deadline : ℕ → Dict Text → Option ℕ
unfolding in_horizon
deadline clock headers =
    in_horizon clock (int (header_or (Dict.lookup "retry_not_before_epoch_ms" headers) (codes "0")))

-- the processor of a record with invalid metadata
abbrev pub poison : Platform → Wiring
poison p =
    direct
      (λ now payload attempt. decided (invalid_retry p "invalid retry_not_before_epoch_ms" payload))

-- `set.add` on the paused partitions
pub pause : Key → List Key → List Key
pause k [] = k ∷ []
pause k (j ∷ js) = if key_eq j k then j ∷ js else j ∷ pause k js

pub resume : Key → List Key → List Key
resume k [] = []
resume k (j ∷ js) = let rest = resume k js in if key_eq j k then rest else j ∷ rest

pub without_key : Key → List Held → List Held
without_key k [] = []
without_key k (h ∷ hs) = let rest = without_key k hs in if key_eq h.key k then rest else h ∷ rest

module _ (p : Platform) where
  -- `CanonicalKafkaWorker.process_one` with a wiring
  abbrev pub canonical :
      Wiring → Circumstances → Message → RetryKafkaWorker → Outcome × RetryKafkaWorker
  canonical w c m s =
      let (r, b) = Kafka.process_one p w c m s.broker in (r, record s { broker = b })

  hold : ℕ → Message → RetryKafkaWorker → Outcome × RetryKafkaWorker
  hold due m s = (
    done,
    record s {
      held = s.held ++ record { key = key_of m; due_ms = due; message = m } ∷ [];
      paused = pause (key_of m) s.paused;
    },
  )

  by_deadline : Circumstances → Message → Option ℕ → RetryKafkaWorker → Outcome × RetryKafkaWorker
  by_deadline c m none s = canonical (poison p) c m s
  by_deadline c m (some due) s =
      if is_early c.clock due then hold due m s else canonical (routed s.router) c m s

  by_route : Circumstances → Message → Route → RetryKafkaWorker → Outcome × RetryKafkaWorker
  by_route c m (no_stage reason) s = canonical (routed s.router) c m s
  by_route c m (stage process) s = by_deadline c m (deadline c.clock (headers_of m)) s

  -- `process_one`; a second record of a held partition raises
  unfoldable pub process_one :
      Circumstances → Message → RetryKafkaWorker → Outcome × RetryKafkaWorker
  unfolding by_route by_deadline hold pause
  process_one c m s =
      if is_held (key_of m) s.held
      then (failed, s)
      else by_route c m (for_headers s.router (headers_of m)) s

  release : Held → Outcome × RetryKafkaWorker → Outcome × RetryKafkaWorker
  release h (done, s) =
      (done, record s { held = without_key h.key s.held; paused = resume h.key s.paused })
  release h (withheld, s) = (withheld, s)
  release h (failed, s) = (failed, s)

  abbrev continue :
      Outcome × RetryKafkaWorker
      → (RetryKafkaWorker → Outcome × RetryKafkaWorker)
      → Outcome × RetryKafkaWorker
  continue (done, s) next = next s
  continue (withheld, s) next = (withheld, s)
  continue (failed, s) next = (failed, s)

  -- one round of the loop of `process_due`, at the circumstances of that round
  unfoldable pub due_round : Circumstances → Held → RetryKafkaWorker → Outcome × RetryKafkaWorker
  unfolding release without_key resume
  due_round c h s =
      if is_early c.clock h.due_ms
      then (done, s)
      else release h (canonical (routed s.router) c h.message s)

  -- the loop over the snapshot of the held records; `circumstances` are those of each round
  unfoldable pub due_loop :
      (ℕ → Circumstances) → List Held → RetryKafkaWorker → Outcome × RetryKafkaWorker
  due_loop circumstances [] s = (done, s)
  due_loop circumstances (h ∷ hs) s =
      continue (due_round (circumstances 0) h s) (due_loop (λ n. circumstances (suc n)) hs)

  -- `process_due`
  unfoldable pub process_due : (ℕ → Circumstances) → RetryKafkaWorker → Outcome × RetryKafkaWorker
  process_due circumstances s = due_loop circumstances s.held s

-- `on_revoke`
unfoldable pub on_revoke : List Key → RetryKafkaWorker → RetryKafkaWorker
unfolding without_key
on_revoke [] s = s
on_revoke (k ∷ ks) s = on_revoke ks (record s { held = without_key k s.held })
