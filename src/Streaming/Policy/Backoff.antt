-- ===== src/Streaming/Policy/Backoff.antt =====
-- src/streaming/processor.py: the delays of the retry policy.
use native.Mathlib.Nat.{two-pow-succ, one-le-pow}
use ulpf_prism_sih.Prelude.{ℕ, zero, suc, ◌+◌, ◌*◌, ◌/◌, ◌^◌, ◌≤◌, ◌<◌, ◌≡◌, ap, some, arith}
use ulpf_prism_sih.Int.{ℤ, pos, negsuc}
use ulpf_prism_sih.Streaming.Policy.{RetryPolicy, create, delay, not_before_epoch_ms}

create_positive :
    (most base cap : ℤ) (p : RetryPolicy)
    → create most base cap ≡ some p
    → (0 < p.backoff_base_seconds) × (0 < p.backoff_cap_seconds)
unfolding create
create_positive (pos m) (pos zero) (pos c) p h = ground arith
create_positive (pos m) (pos (suc b)) (pos zero) p h = ground arith
create_positive (pos m) (pos (suc b)) (pos (suc c)) p h = ground arith
create_positive (pos m) (pos b) (negsuc c) p h = ground arith
create_positive (pos m) (negsuc b) c p h = ground arith
create_positive (negsuc m) b c p h = ground arith

scaled_pos : (b t : ℕ) → 0 < b → 0 < t → 0 < b * t
scaled_pos b t h k = grind arith

-- The delays of a policy that its constructor accepts: at least a second, never above the cap, and
-- never shorter for a later attempt.
pub delay_bounds :
    (most base cap : ℤ) (p : RetryPolicy)
    → create most base cap ≡ some p
    → (attempt : ℕ)
    → (0 < delay p attempt)
      × (delay p attempt ≤ p.backoff_cap_seconds)
      × (delay p attempt ≤ delay p (suc attempt))
unfolding delay
delay_bounds most base cap p made attempt =
    let (base_pos, cap_pos) = create_positive most base cap p made in
    let grown = ap (λ (t : ℕ). p.backoff_base_seconds * t) (two-pow-succ attempt) in
    let some_pos =
      scaled_pos p.backoff_base_seconds (2 ^ attempt) base_pos
        (one-le-pow attempt 2 (omega arith)) in
    (omega arith, omega arith, omega arith)

-- The deadline of a retry lies after the present millisecond and at most the capped delay ahead.
pub not_before_bounds :
    (p : RetryPolicy) (now attempt : ℕ)
    → (now / 1000 ≤ not_before_epoch_ms p now attempt)
      × (not_before_epoch_ms p now attempt * 1000 ≤ now + p.backoff_cap_seconds * 1_000_000)
unfolding not_before_epoch_ms delay
not_before_bounds p now attempt = (omega arith, omega arith)
