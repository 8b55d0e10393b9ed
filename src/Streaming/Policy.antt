-- ===== src/Streaming/Policy.antt =====
-- src/streaming/processor.py: `_RetryPolicy`, and the attempt counter that
-- src/streaming/kafka.py reads back. Times are microseconds since the epoch, delays are seconds.
pub mod Backoff
pub mod Journey
use ulpf_prism_sih.Prelude.{
  ℕ, zero, suc, ◌+◌, ◌*◌, ◌/◌, ◌^◌, String, Bool, true, false, ◌||◌, Option, none, some, List, [],
  ◌∷◌, min, leb, if◌then◌else◌, take, Text, Bytes, codes,
}
use ulpf_prism_sih.Int.{ℤ, pos, negsuc}
use ulpf_prism_sih.Dict
use ulpf_prism_sih.Dict.{Dict}
use ulpf_prism_sih.Decimal.{show, int}
use ulpf_prism_sih.Streaming.Messages.{Topic, ProcessingDecision}

pub record RetryPolicy : Type 0 where
  pub max_attempts : ℕ
  pub backoff_base_seconds : ℕ
  pub backoff_cap_seconds : ℕ

-- the constructor; a `ValueError` is `none`
unfoldable pub create : ℤ → ℤ → ℤ → Option RetryPolicy
create (pos most) (pos (suc base)) (pos (suc cap)) =
    some (record {
      max_attempts = most;
      backoff_base_seconds = suc base;
      backoff_cap_seconds = suc cap;
    })
create most base cap = none

-- the defaults of the constructor
abbrev pub default_policy : RetryPolicy
default_policy = record { max_attempts = 5; backoff_base_seconds = 15; backoff_cap_seconds = 1800 }

unfoldable pub delay : RetryPolicy → ℕ → ℕ
delay p attempt = min (p.backoff_base_seconds * 2 ^ attempt) p.backoff_cap_seconds

-- `int((time.time() + delay) * 1000)`
unfoldable pub not_before_epoch_ms : RetryPolicy → ℕ → ℕ → ℕ
unfolding delay
not_before_epoch_ms p now attempt = (now + delay p attempt * 1_000_000) / 1000

abbrev pub exhausted : RetryPolicy → String → Bytes → String → ℕ → Text → ProcessingDecision
exhausted p stage payload event_id attempt error = record {
  topic = Topic.dead_letter;
  key = event_id;
  payload = payload;
  event_id = event_id;
  terminal = true;
  headers =
      ("attempt", show attempt)
      ∷ ("retry_stage", codes stage)
      ∷ ("error_code", codes "TRANSIENT_RETRIES_EXHAUSTED")
      ∷ ("error_message", take 512 error)
      ∷ [];
  error_code = some "TRANSIENT_RETRIES_EXHAUSTED";
}

abbrev pub again : RetryPolicy → String → ℕ → Bytes → String → ℕ → Text → ProcessingDecision
again p stage now payload event_id attempt error = record {
  topic = Topic.retry;
  key = event_id;
  payload = payload;
  event_id = event_id;
  terminal = false;
  headers =
      ("attempt", show (attempt + 1))
      ∷ ("retry_stage", codes stage)
      ∷ ("retry_after_seconds", show (delay p attempt))
      ∷ ("retry_not_before_epoch_ms", show (not_before_epoch_ms p now attempt))
      ∷ ("error_code", codes "TRANSIENT_PROCESSING_ERROR")
      ∷ ("error_message", take 512 error)
      ∷ [];
  error_code = some "TRANSIENT_PROCESSING_ERROR";
}

-- `_retry_or_dead_letter`, at the instant that it reads
unfoldable pub retry_or_dead_letter :
    RetryPolicy → String → ℕ → Bytes → String → ℕ → Text → ProcessingDecision
retry_or_dead_letter p stage now payload event_id attempt error =
    if leb p.max_attempts attempt
    then exhausted p stage payload event_id attempt error
    else again p stage now payload event_id attempt error

-- `_invalid_contract`; the identity is the digest of the payload
unfoldable pub invalid_contract : String → Bytes → ℕ → String → Text → ProcessingDecision
invalid_contract identity payload attempt error_code error = record {
  topic = Topic.dead_letter;
  key = identity;
  payload = payload;
  event_id = identity;
  terminal = true;
  headers =
      ("attempt", show attempt)
      ∷ ("error_code", codes error_code)
      ∷ ("error_message", take 512 error)
      ∷ [];
  error_code = some error_code;
}

abbrev clamp : Option ℤ → ℕ
clamp none = 0
clamp (some (pos n)) = n
clamp (some (negsuc n)) = 0

abbrev pub header_or : Option Text → Text → Text
header_or none d = d
header_or (some s) d = s

-- `CanonicalKafkaWorker._attempt_value`
unfoldable pub attempt_value : Dict Text → ℕ
attempt_value headers = clamp (int (header_or (Dict.lookup "attempt" headers) (codes "0")))
