-- ===== src/Collection/Metrics/Window.antt =====
-- src/collection/metrics.py: the length of the latency window.
use ulpf_prism_sih.Prelude.{ℕ, ◌≤◌, ◌<◌, List, [], ◌∷◌, arith, length, length-append}
use ulpf_prism_sih.Collection.Metrics.{push_latency}

pub length-push_latency :
    (n x : ℕ) (xs : List ℕ) → 0 < n → length xs ≤ n → length (push_latency n x xs) ≤ n
unfolding push_latency
length-push_latency n x [] h fits = ground arith
length-push_latency n x (y ∷ ys) h fits = ground (arith, length-append ys (x ∷ []))
