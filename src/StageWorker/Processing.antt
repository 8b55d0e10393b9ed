-- ===== src/StageWorker/Processing.antt =====
-- files/worker.py: what `_process_one` and `_route_dead_letter` produce for a message. Python's floats
-- are texts: `Floats` is how they print.
use ulpf_prism_sih.Prelude.{
  ℕ, ◌*◌, String, Bool, false, ◌&&◌, Option, none, some, List, [], ◌∷◌, ◌++◌, ltb, if◌then◌else◌,
  Text, Bytes, codes, text_eq,
}
use ulpf_prism_sih.Int.{ℤ, pos, negsuc}
use ulpf_prism_sih.Dict
use ulpf_prism_sih.Dict.{Dict}
use ulpf_prism_sih.Decimal.{show, int}
use ulpf_prism_sih.Contracts.Platform.{Platform}
use ulpf_prism_sih.Streaming.Messages.{Topic, topic_name}
use ulpf_prism_sih.Streaming.Kafka.{HeaderValue, decodes, broken}
use ulpf_prism_sih.Streaming.Processors.{Processed, decided, raised, invalid_retry}
use ulpf_prism_sih.StageWorker.Message.{
  Role, parser, normalizer, retry_handler, replay, source_topic, Message, encoded, carried, Output,
  get_header, headers_with,
}

-- `str(float(s))`, where `ValueError` is `none`, and `str` of an instant.
pub record Floats : Type 0 where
  pub read : Text → Option Text
  pub show_instant : ℕ → Text

-- A stage at an instant; an attempt may be any integer here.
abbrev pub StageProcessor : Type 0
StageProcessor = ℕ → Bytes → ℤ → Processed

pub record Stages : Type 0 where
  pub parser_stage : StageProcessor
  pub normalizer_stage : StageProcessor

-- The clock readings of one message, in order.
pub record Clocks : Type 0 where
  pub received_at : ℕ
  pub before_wait : ℕ
  pub after_wait : ℕ
  pub processing : ℕ

-- How `_process_one` stands before its produce: it raised before or after it counted the message, or
-- it has an output, for a message that is put off or for one that is processed.
pub data Prepared : Type 0 where
  unreadable crashed : Prepared
  deferred ready : Output → Prepared

infixl 5 ◌>>=◌
abbrev ◌>>=◌ {ℓ κ} : {A : Type ℓ} {B : Type κ} → Option A → (A → Option B) → Option B
none >>= k = none
some a >>= k = k a

abbrev decode : HeaderValue → Option Text
decode (decodes s) = some s
decode broken = none

-- `a or b` on header values
abbrev or_header : Option HeaderValue → Option HeaderValue → Option HeaderValue
or_header none b = b
or_header (some (decodes [])) b = b
or_header (some (decodes (c ∷ cs))) b = some (decodes (c ∷ cs))
or_header (some broken) b = some broken

first_seen : Floats → ℕ → Option HeaderValue → Option Text
first_seen f now none = some (f.show_instant now)
first_seen f now (some v) = do s ← decode v; f.read s

attempt_of : Option HeaderValue → Option ℤ
attempt_of none = some (pos 0)
attempt_of (some (decodes [])) = some (pos 0)
attempt_of (some (decodes (c ∷ cs))) = int (c ∷ cs)
attempt_of (some broken) = none

abbrev later : ℕ → ℤ → Bool
later clock (pos due) = ltb clock (due * 1000)
later clock (negsuc n) = false

deferred_until : Clocks → ℤ → Bool
deferred_until c due = later c.before_wait due && later c.after_wait due

-- is a retry still early after the wait? A deadline that is no integer raises.
is_deferred : Clocks → Role → Option HeaderValue → Option Bool
is_deferred c retry_handler (some v) = do s ← decode v; due ← int s; some (deferred_until c due)
is_deferred c _ _ = some false

decode_all : List (String × HeaderValue) → Dict Text → Option (Dict Text)
decode_all [] d = some d
decode_all ((k, v) ∷ more) d = do s ← decode v; decode_all more (Dict.assign k s d)

module _ (p : Platform) (f : Floats) (stages : Stages) where
  route : Option Text → StageProcessor
  route none now payload attempt =
      decided (invalid_retry p "retry message has no recognized retry_stage header" payload)
  route (some name) now payload attempt =
      if text_eq name (codes "parser")
      then stages.parser_stage now payload attempt
      else if text_eq name (codes "normalizer")
      then stages.normalizer_stage now payload attempt
      else decided (invalid_retry p "retry message has no recognized retry_stage header" payload)

  -- a header that is no text raises in the retry handler only
  processor_of : Role → List (String × HeaderValue) → Option StageProcessor
  processor_of parser headers = some stages.parser_stage
  processor_of normalizer headers = some stages.normalizer_stage
  processor_of replay headers = some stages.parser_stage
  processor_of retry_handler headers = do
    d ← decode_all headers []
    some (route (Dict.lookup "retry_stage" d))

  abbrev texts : Dict Text → List (String × HeaderValue)
  texts [] = []
  texts ((k, s) ∷ more) = (k, decodes s) ∷ texts more

  output_of : Role → Message → Text → Processed → Option Output
  output_of role m seen raised = none
  output_of role m seen (decided d) = some (record {
    topic = d.topic;
    key = encoded d.key;
    value = some d.payload;
    headers = headers_with m.headers (
        texts d.headers
        ++ ("ulpf_event_id", decodes (codes d.event_id))
          ∷ ("ulpf_first_seen_ts", decodes seen)
          ∷ ("ulpf_original_topic", decodes (codes (topic_name (source_topic role))))
          ∷ []);
  })

  abbrev key_or : Option Bytes → Text → Bytes
  key_or none other = other
  key_or (some []) other = other
  key_or (some (b ∷ bs)) other = b ∷ bs

  -- a retry that is still early goes back as it came
  back_to_retry : Message → Output
  back_to_retry m = record {
    topic = Topic.retry;
    key = carried (key_or m.key (codes "unknown-event"));
    value = m.value;
    headers = m.headers;
  }

  process_payload : Role → Clocks → Message → Text → ℤ → Option Output
  process_payload role c m seen attempt = do
    payload ← m.value
    processor ← processor_of role m.headers
    output_of role m seen (processor c.processing payload attempt)

  processed : Option Output → Prepared
  processed none = crashed
  processed (some o) = ready o

  abbrev Header : Type 0
  Header = Text × ℤ × Bool

  read_headers : Role → Clocks → Message → Option Header
  read_headers role c m = do
    seen ← first_seen f c.received_at (get_header m.headers "ulpf_first_seen_ts")
    attempt ←
        attempt_of
          (or_header (get_header m.headers "attempt") (get_header m.headers "ulpf_attempt"))
    early ← is_deferred c role (get_header m.headers "retry_not_before_epoch_ms")
    some (seen, attempt, early)

  with_headers : Role → Clocks → Message → Option Header → Prepared
  with_headers role c m none = unreadable
  with_headers role c m (some (seen, attempt, early)) =
      if early
      then deferred (back_to_retry m)
      else processed (process_payload role c m seen attempt)

  -- `_process_one` up to its produce
  unfoldable pub prepare : Role → Clocks → Message → Prepared
  unfolding first_seen attempt_of is_deferred deferred_until back_to_retry process_payload
      processor_of output_of route decode_all processed read_headers with_headers
  prepare role c m = with_headers role c m (read_headers role c m)

  abbrev bytes_of : Option Bytes → Bytes
  bytes_of none = []
  bytes_of (some bs) = bs

  -- `_route_dead_letter` as the loop calls it; its two clock readings are one
  unfoldable pub dead_letter : Role → ℕ → Message → Output
  dead_letter role now m = record {
    topic = Topic.dead_letter;
    key = encoded (p.hexdigest (bytes_of m.value));
    value = m.value;
    headers = headers_with m.headers (
        ("ulpf_event_id", decodes (codes (p.hexdigest (bytes_of m.value))))
        ∷ ("ulpf_attempt", decodes (show 0))
        ∷ ("ulpf_first_seen_ts", decodes (f.show_instant now))
        ∷ ("ulpf_dead_letter_reason", decodes (codes "unhandled_worker_exception"))
        ∷ ("ulpf_dead_letter_ts", decodes (f.show_instant now))
        ∷ ("ulpf_original_topic", decodes (codes (topic_name (source_topic role))))
        ∷ []);
  }
