-- ===== src/Streaming/Policy/Journey.antt =====
-- src/streaming/processor.py and kafka.py: the way of a record whose processing fails transiently
-- every time; the attempt counter travels through the headers as text.
use ulpf_prism_sih.Prelude.{
  ℕ, zero, suc, ◌+◌, ◌≤◌, ◌<◌, ◌≡◌, refl, ap, ◌∙◌, String, Bool, true, false, Option, codes, List,
  [], ◌∷◌, ◌++◌, map, arith, leb, if◌then◌else◌, Text, Bytes, some,
}
use ulpf_prism_sih.Dict
use ulpf_prism_sih.Dict.{Dict}
use ulpf_prism_sih.Decimal.{show}
use ulpf_prism_sih.Decimal.RoundTrip.{int-show}
use ulpf_prism_sih.Streaming.Messages.{ProcessingDecision, Topic}
use ulpf_prism_sih.Streaming.Policy.{
  RetryPolicy, retry_or_dead_letter, again, exhausted, attempt_value,
}

lookup_attempt : (v : Text) (d : Dict Text) → Dict.lookup "attempt" (("attempt", v) ∷ d) ≡ some v
unfolding Dict.lookup
lookup_attempt v d = refl

-- The counter that a header holds is read back.
pub attempt_value-show : (n : ℕ) (d : Dict Text) → attempt_value (("attempt", show n) ∷ d) ≡ n
unfolding attempt_value
attempt_value-show n d = rw (lookup_attempt (show n) d) (rw (int-show n))

-- The decisions for a record that fails with each of its attempts, until a terminal one. The next
-- attempt is the one that the headers of the last decision say; `now` is the instant of each.
unfoldable pub journey :
    ℕ → RetryPolicy → String → (ℕ → ℕ) → Text → Bytes → String → ℕ → List ProcessingDecision
journey zero p stage now error payload event_id attempt = []
journey (suc fuel) p stage now error payload event_id attempt =
    let d = retry_or_dead_letter p stage (now attempt) payload event_id attempt error in
    let more = journey fuel p stage now error d.payload d.event_id (attempt_value d.headers) in
    d ∷ (if d.terminal then [] else more)

abbrev pub attempts_from : ℕ → ℕ → List ℕ
attempts_from zero a = []
attempts_from (suc n) a = a ∷ attempts_from n (suc a)

-- What the broker and the next stage see of a decision: where it goes, with which bytes, for which
-- event, whether it is the last, to which stage it belongs, and the attempt that is read back.
pub record Sent : Type 0 where
  pub topic : Topic
  pub key : String
  pub payload : Bytes
  pub event_id : String
  pub terminal : Bool
  pub stage : Option Text
  pub attempt : ℕ
  pub error_code : Option String

abbrev pub sent : ProcessingDecision → Sent
sent d = record {
  topic = d.topic;
  key = d.key;
  payload = d.payload;
  event_id = d.event_id;
  terminal = d.terminal;
  stage = Dict.lookup "retry_stage" d.headers;
  attempt = attempt_value d.headers;
  error_code = d.error_code;
}

-- A record on the retry topic before an attempt, and one in the dead letters.
abbrev pub retried : Text → Bytes → String → ℕ → Sent
retried stage payload event_id attempt = record {
  topic = Topic.retry;
  key = event_id;
  payload = payload;
  event_id = event_id;
  terminal = false;
  stage = some stage;
  attempt = attempt;
  error_code = some "TRANSIENT_PROCESSING_ERROR";
}

abbrev pub dead : Text → Bytes → String → ℕ → Sent
dead stage payload event_id attempt = record {
  topic = Topic.dead_letter;
  key = event_id;
  payload = payload;
  event_id = event_id;
  terminal = true;
  stage = some stage;
  attempt = attempt;
  error_code = some "TRANSIENT_RETRIES_EXHAUSTED";
}

module _ (p : RetryPolicy) (stage : String) (now : ℕ → ℕ) (error : Text) (payload : Bytes)
    (event_id : String) where
  decide_last :
      (attempt : ℕ)
      → p.max_attempts ≤ attempt
      → retry_or_dead_letter p stage (now attempt) payload event_id attempt error
        ≡ exhausted p stage payload event_id attempt error
  unfolding retry_or_dead_letter
  decide_last attempt h = let e : leb p.max_attempts attempt ≡ true = ground arith in rw e

  decide_again :
      (attempt : ℕ)
      → attempt < p.max_attempts
      → retry_or_dead_letter p stage (now attempt) payload event_id attempt error
        ≡ again p stage (now attempt) payload event_id attempt error
  unfolding retry_or_dead_letter
  decide_again attempt h = let e : leb p.max_attempts attempt ≡ false = ground arith in rw e

  journey_lem :
      (fuel n attempt : ℕ)
      → n < fuel
      → attempt + n ≡ p.max_attempts
      → journey fuel p stage now error payload event_id attempt
        ≡ map (λ k. again p stage (now k) payload event_id k error) (attempts_from n attempt)
          ++ exhausted p stage payload event_id p.max_attempts error ∷ []
  unfolding journey
  journey_lem zero n attempt h e = absurd (omega arith)
  journey_lem (suc fuel) zero attempt h e =
      let same : attempt ≡ p.max_attempts = omega arith in
      rw (decide_last attempt (omega arith))
        (ap (λ k. exhausted p stage payload event_id k error ∷ []) same)
  journey_lem (suc fuel) (suc n) attempt h e = rw (decide_again attempt (omega arith)) (
      rw attempt_value-show (
        ap (λ ds. again p stage (now attempt) payload event_id attempt error ∷ ds)
          (ap (journey fuel p stage now error payload event_id) (omega arith)
            ∙ journey_lem fuel n (suc attempt) (omega arith) (omega arith))))

  sent-again :
      (k : ℕ)
      → sent (again p stage (now k) payload event_id k error)
        ≡ retried (codes stage) payload event_id (suc k)
  unfolding Dict.lookup
  sent-again k = let e : k + 1 ≡ suc k = omega arith in rw (attempt_value-show, e) refl

  sent-exhausted :
      (k : ℕ)
      → sent (exhausted p stage payload event_id k error) ≡ dead (codes stage) payload event_id k
  unfolding Dict.lookup
  sent-exhausted k = rw attempt_value-show refl

  map-sent :
      (n a most : ℕ)
      → map sent (
          map (λ k. again p stage (now k) payload event_id k error) (attempts_from n a)
          ++ exhausted p stage payload event_id most error ∷ [])
        ≡ map (retried (codes stage) payload event_id) (attempts_from n (suc a))
          ++ dead (codes stage) payload event_id most ∷ []
  map-sent zero a most = rw (sent-exhausted most) refl
  map-sent (suc n) a most = rw (sent-again a, map-sent n (suc a) most) refl

  -- A record that fails transiently at every attempt goes to the retry topic with its bytes, its id
  -- and its stage, each time with the counter one higher, until the counter is the attempt limit, and
  -- then once to the dead letters with its bytes; only that last decision is terminal. The fuel
  -- exceeds the attempts that are left.
  pub journey-sent :
      (fuel n attempt : ℕ)
      → n < fuel
      → attempt + n ≡ p.max_attempts
      → map sent (journey fuel p stage now error payload event_id attempt)
        ≡ map (retried (codes stage) payload event_id) (attempts_from n (suc attempt))
          ++ dead (codes stage) payload event_id p.max_attempts ∷ []
  journey-sent fuel n attempt h e =
      ap (map sent) (journey_lem fuel n attempt h e) ∙ map-sent n attempt p.max_attempts
