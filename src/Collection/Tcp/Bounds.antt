-- ===== src/Collection/Tcp/Bounds.antt =====
-- src/collection/tcp_collector.py: the length of what a connection hands over.
use ulpf_prism_sih.Prelude.{
  ℕ, ◌+◌, ◌≤◌, List, [], ◌∷◌, ◌++◌, arith, tests, ltb, ◌==◌, length, length-append, Bytes,
  Bool-cases, inl, inr,
}
use ulpf_prism_sih.Collection.Tcp.{
  Received, chunk, closed, timed_out, failed, Emitted, ingesting, rejecting, if_held, handle_conn,
}
use ulpf_prism_sih.Collection.Tcp.Framing.{frame, stream, ending, IsSchedule}
use ulpf_prism_sih.Collection.Tcp.Stream.{handle_conn-frame}

abbrev pub payload : Emitted → Bytes
payload (ingesting bs) = bs
payload (rejecting bs) = bs

abbrev pub AllWithin : ℕ → List Emitted → Type 0
AllWithin n [] = Unit
AllWithin n (x ∷ xs) = (length (payload x) ≤ n) × AllWithin n xs

frame-AllWithin :
    (most : ℕ) (line bs : Bytes) (next : Bytes → List Emitted)
    → length line ≤ most
    → ((rest : Bytes) → length rest ≤ most → AllWithin (most + 1) (next rest))
    → AllWithin (most + 1) (frame most line bs next)
unfolding frame
frame-AllWithin most line [] next fits h = h line fits
frame-AllWithin most line (b ∷ bs) next fits h = elim (Bool-cases (b == 10)) [
  | inl e ↦ rw e (omega (arith, fits), frame-AllWithin most [] bs next (omega arith) h)
  | inr e ↦ elim (Bool-cases (ltb most (length line + 1))) [
    | inl over ↦ rw e (rw over (omega (arith, length-append line (b ∷ []), fits), tt))
    | inr within ↦ rw e (
        rw within (
          frame-AllWithin most (line ++ b ∷ []) bs next
            (omega (tests, length-append line (b ∷ []), within)) h))
  ]
]

if_held-AllWithin :
    (n : ℕ) (line : Bytes) (emit : Bytes → Emitted)
    → length (payload (emit line)) ≤ n
    → AllWithin n (if_held line emit)
if_held-AllWithin n [] emit h = tt
if_held-AllWithin n (b ∷ bs) emit h = (h, tt)

ending-AllWithin :
    (most : ℕ) (events : List Received) (rest : Bytes)
    → length rest ≤ most
    → AllWithin (most + 1) (ending events rest)
ending-AllWithin most [] rest h = tt
ending-AllWithin most (chunk bs ∷ more) rest h = ending-AllWithin most more rest h
ending-AllWithin most (closed ∷ more) rest h =
    if_held-AllWithin (most + 1) rest ingesting (omega (arith, h))
ending-AllWithin most (timed_out ∷ more) rest h =
    if_held-AllWithin (most + 1) rest rejecting (omega (arith, h))
ending-AllWithin most (failed ∷ more) rest h = tt

-- No call of a connection hands over more than one byte over the limit.
pub handle_conn-AllWithin :
    (most : ℕ) (events : List Received)
    → IsSchedule most [] events
    → AllWithin (most + 1) (handle_conn most [] events)
handle_conn-AllWithin most events ok = rw (handle_conn-frame most [] events tt (omega arith) ok) (
    frame-AllWithin most [] (stream events) (ending events) (omega arith)
      (ending-AllWithin most events))
