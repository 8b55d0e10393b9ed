-- ===== src/StageWorker/Message.antt =====
-- files/worker.py: messages, the two helpers on headers, the roles, and the window of metrics. The
-- latency samples and the load of the process are left out of the window.
use ulpf_prism_sih.Prelude.{ℕ, ◌+◌, String, Option, none, some, List, [], ◌∷◌, Bytes, length}
use ulpf_prism_sih.Dict
use ulpf_prism_sih.Dict.{Dict}
use ulpf_prism_sih.Streaming.Messages.{Topic}
use ulpf_prism_sih.Streaming.Kafka.{HeaderValue}

pub data Role : Type 0 where
  parser normalizer retry_handler replay : Role

unfoldable pub source_topic : Role → Topic
source_topic parser = Topic.raw_event
source_topic normalizer = Topic.parsed_event
source_topic retry_handler = Topic.retry
source_topic replay = Topic.raw_event

pub record Message : Type 0 where
  pub key : Option Bytes
  pub value : Option Bytes
  pub headers : List (String × HeaderValue)

-- A key is an encoded text or bytes that came in.
pub data Key : Type 0 where
  encoded : String → Key
  carried : Bytes → Key

pub record Output : Type 0 where
  pub topic : Topic
  pub key : Key
  pub value : Option Bytes
  pub headers : List (String × HeaderValue)

-- `get_header`
unfoldable pub get_header : List (String × HeaderValue) → String → Option HeaderValue
get_header headers name = Dict.lookup name headers

merge : Dict HeaderValue → List (String × HeaderValue) → Dict HeaderValue
merge out [] = out
merge out ((k, v) ∷ more) = merge (Dict.assign k v out) more

-- `headers_with`; the updates are texts
unfoldable pub headers_with :
    List (String × HeaderValue) → List (String × HeaderValue) → List (String × HeaderValue)
unfolding merge
headers_with headers updates = merge (merge [] headers) updates

-- `MetricsWindow`
pub record MetricsWindow : Type 0 where
  pub window_start : ℕ
  pub consumed_count : ℕ
  pub produced_count : ℕ
  pub retry_count : ℕ
  pub dead_letter_count : ℕ
  pub bytes_in : ℕ
  pub bytes_out : ℕ

-- `reset`
unfoldable pub reset : ℕ → MetricsWindow → MetricsWindow
reset now w = record {
  window_start = now;
  consumed_count = 0;
  produced_count = 0;
  retry_count = 0;
  dead_letter_count = 0;
  bytes_in = 0;
  bytes_out = 0;
}

abbrev pub size : Option Bytes → ℕ
size none = 0
size (some bs) = length bs

-- which counter a produced decision raises
unfoldable pub count_topic : Topic → MetricsWindow → MetricsWindow
count_topic Topic.retry w = record w { retry_count = w.retry_count + 1 }
count_topic Topic.dead_letter w = record w { dead_letter_count = w.dead_letter_count + 1 }
count_topic _ w = record w { produced_count = w.produced_count + 1 }
