-- ===== src/Streaming/Kafka.antt =====
-- src/streaming/kafka.py: the processing of one record. The broker is the log of the outputs that it
-- has acknowledged and of the commits, each with the clock reading of the call that made it.
pub mod Safety
use ulpf_prism_sih.Prelude.{
  ℕ, zero, suc, String, Bool, true, false, Option, none, some, List, [], ◌∷◌, ◌++◌, if◌then◌else◌,
  Text, Bytes, codes,
}
use ulpf_prism_sih.Dict
use ulpf_prism_sih.Dict.{Dict}
use ulpf_prism_sih.Contracts.Platform.{Platform}
use ulpf_prism_sih.Streaming.Messages.{ProcessingDecision}
use ulpf_prism_sih.Streaming.Policy.{attempt_value}
use ulpf_prism_sih.Streaming.Processors.{
  StreamProcessor, Processed, decided, raised, RetryProcessorRouter, for_headers, run_route,
}

-- A header value is bytes, which decode or not, or an object with its text.
pub data HeaderValue : Type 0 where
  decodes : Text → HeaderValue
  broken : HeaderValue

-- A value that is no bytes is `none`.
pub record Message : Type 0 where
  pub topic : String
  pub partition : ℕ
  pub offset : ℕ
  pub value : Option Bytes
  pub headers : List (String × HeaderValue)

-- How the broker answers a produced record: it acknowledges it, reports an error, or leaves some
-- records pending after the flush.
pub data Delivery : Type 0 where
  acknowledged refused : Delivery
  pending : ℕ → Delivery

pub record Broker : Type 0 where
  pub outputs : List ProcessingDecision
  pub commits : List (ℕ × Message)

-- What one call meets: the clock, the answer to its output, and whether its commit raises.
pub record Circumstances : Type 0 where
  pub clock : ℕ
  pub delivery : Delivery
  pub commit_fails : Bool

-- `True`, `False`, or an exception
pub data Outcome : Type 0 where
  done withheld failed : Outcome

-- A worker has one processor, or a router that picks one by the headers.
pub data Wiring : Type 0 where
  direct : StreamProcessor → Wiring
  routed : RetryProcessorRouter → Wiring

decode_into : Dict Text → List (String × HeaderValue) → Dict Text
decode_into d [] = d
decode_into d ((name, decodes s) ∷ more) = decode_into (Dict.assign name s d) more
decode_into d ((name, broken) ∷ more) = decode_into d more

-- `_headers`
unfoldable pub headers_of : Message → Dict Text
unfolding decode_into
headers_of m = decode_into [] m.headers

processor_for : Platform → Wiring → Dict Text → StreamProcessor
processor_for p (direct process) headers = process
processor_for p (routed r) headers = run_route p (for_headers r headers)

-- the decision for a message that carries bytes
unfoldable pub decide : Platform → Wiring → ℕ → Message → Bytes → Processed
unfolding processor_for
decide p w now m payload =
    let headers = headers_of m in processor_for p w headers now payload (attempt_value headers)

commit : Circumstances → Message → Broker → Outcome × Broker
commit c m b =
    if c.commit_fails
    then (failed, b)
    else (done, record b { commits = b.commits ++ (c.clock, m) ∷ [] })

-- `produce`, `flush`, and the commit if all is well
deliver : Circumstances → Message → ProcessingDecision → Delivery → Broker → Outcome × Broker
deliver c m d acknowledged b = commit c m (record b { outputs = b.outputs ++ d ∷ [] })
deliver c m d refused b = (withheld, b)
deliver c m d (pending zero) b = commit c m (record b { outputs = b.outputs ++ d ∷ [] })
deliver c m d (pending (suc n)) b = (withheld, b)

settle : Circumstances → Message → Processed → Broker → Outcome × Broker
settle c m raised b = (failed, b)
settle c m (decided d) b = deliver c m d c.delivery b

with_value : Platform → Wiring → Circumstances → Message → Option Bytes → Broker → Outcome × Broker
with_value p w c m none b = (failed, b)
with_value p w c m (some payload) b = settle c m (decide p w c.clock m payload) b

-- `process_one`
unfoldable pub process_one : Platform → Wiring → Circumstances → Message → Broker → Outcome × Broker
unfolding with_value settle deliver commit
process_one p w c m b = with_value p w c m m.value b
