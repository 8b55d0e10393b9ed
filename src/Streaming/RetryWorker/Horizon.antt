-- ===== src/Streaming/RetryWorker/Horizon.antt =====
-- src/streaming/processor.py and retry.py: the deadlines that the retry policy writes, as the retry
-- worker reads them.
use ulpf_prism_sih.Prelude.{
  ℕ, ◌+◌, ◌*◌, ◌≤◌, ◌<◌, ◌≡◌, refl, ◌∙◌, String, none, some, arith, ge→ltb, lt→ltb, if◌then◌else◌,
  Text, Bytes,
}
use ulpf_prism_sih.Dict
use ulpf_prism_sih.Dict.{Dict}
use ulpf_prism_sih.Decimal.{show}
use ulpf_prism_sih.Decimal.RoundTrip.{int-show}
use ulpf_prism_sih.Streaming.Policy.{RetryPolicy, delay, not_before_epoch_ms, again}
use ulpf_prism_sih.Streaming.Policy.Backoff.{not_before_bounds}
use ulpf_prism_sih.Streaming.RetryWorker.{deadline, in_horizon, beyond_horizon}

module _ (p : RetryPolicy) (name : String) (now : ℕ) (payload : Bytes) (event_id : String)
    (attempt : ℕ) (error : Text) where
  abbrev written : Dict Text
  written = (again p name now payload event_id attempt error).headers

  written_deadline :
      Dict.lookup "retry_not_before_epoch_ms" written
      ≡ some (show (not_before_epoch_ms p now attempt))
  unfolding Dict.lookup
  written_deadline = refl

  deadline-again :
      (clock : ℕ)
      → deadline clock written ≡ (
          if beyond_horizon clock (not_before_epoch_ms p now attempt)
          then none
          else some (not_before_epoch_ms p now attempt))
  unfolding deadline
  deadline-again clock =
      rw written_deadline
        (rw (int-show (not_before_epoch_ms p now attempt)) (unfold in_horizon in refl))

  -- A retry of a policy whose cap is at most the default half hour is never refused: a worker whose
  -- clock is at most five seconds behind the clock of the policy reads exactly the deadline that the
  -- policy wrote.
  pub deadline_accepted :
      (clock : ℕ)
      → p.backoff_cap_seconds ≤ 1800
      → now ≤ clock + 5_000_000
      → deadline clock written ≡ some (not_before_epoch_ms p now attempt)
  deadline_accepted clock cap skew =
      deadline-again clock
      ∙ rw (
          ge→ltb (clock + 1_805_000_000) (not_before_epoch_ms p now attempt * 1000)
            (omega (arith, (not_before_bounds p now attempt).1, cap, skew)))

  -- A policy may have a longer cap, and then its long retries are refused: a retry whose delay is
  -- above 1805 seconds has no valid deadline for a worker whose clock agrees with the policy's.
  pub deadline_refused : 1805 < delay p attempt → deadline now written ≡ none
  deadline_refused long =
      deadline-again now
      ∙ rw (
          lt→ltb (now + 1_805_000_000) (not_before_epoch_ms p now attempt * 1000)
            (unfold not_before_epoch_ms in omega (arith, long)))
