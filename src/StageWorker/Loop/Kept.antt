-- ===== src/StageWorker/Loop/Kept.antt =====
-- files/worker.py: the outputs that the producer has taken, across its callbacks and produces.
use mathlib.Core.Path.{subst}
use ulpf_prism_sih.Prelude.{
  ℕ, ◌≤◌, ◌≡◌, refl, ◌⊎◌, inl, inr, false, List, [], ◌∷◌, ◌++◌, arith, length, length-append, Among,
  AllOf, Among-append, Among-snoc, AllOf-snoc, AllOf-imp,
}
use ulpf_prism_sih.Contracts.Platform.{Platform}
use ulpf_prism_sih.StageWorker.Message.{Role, Message, Output}
use ulpf_prism_sih.StageWorker.Processing.{
  Floats, Stages, Clocks, deferred, ready, prepare, dead_letter,
}
use ulpf_prism_sih.StageWorker.Loop.{
  Worker, Report, acked, errored, report_oldest, serve, produce, Polled, polled, consumer_error,
  shutdown_signal,
}

-- The client has the output, or had it and reported.
abbrev pub IsSent : Output → Worker → Type 0
IsSent o s = Among o s.delivered ⊎ (Among o s.pending ⊎ Among o s.lost)

report_oldest-IsSent :
    (r : Report) (os : List Output) (s : Worker) (x : Output)
    → s.pending ≡ os
    → IsSent x s
    → IsSent x (report_oldest r os s)
unfolding report_oldest
report_oldest-IsSent r [] s x e h = h
report_oldest-IsSent acked (o ∷ os) s x e (inl h) = inl (Among-append x s.delivered (o ∷ []) h)
report_oldest-IsSent acked (o ∷ os) s x e (inr (inr h)) = inr (inr h)
report_oldest-IsSent acked (o ∷ os) s x e (inr (inl h)) = acked_now (subst (Among x) e h)
  where
    acked_now : Among x (o ∷ os) → Among x (s.delivered ++ o ∷ []) ⊎ (Among x os ⊎ Among x s.lost)
    acked_now (inl same) = inl (rw same (Among-snoc o s.delivered))
    acked_now (inr later) = inr (inl later)
report_oldest-IsSent (errored why) (o ∷ os) s x e (inl h) = inl h
report_oldest-IsSent (errored why) (o ∷ os) s x e (inr (inr h)) =
    inr (inr (Among-append x s.lost (o ∷ []) h))
report_oldest-IsSent (errored why) (o ∷ os) s x e (inr (inl h)) = lost_now (subst (Among x) e h)
  where
    lost_now : Among x (o ∷ os) → Among x s.delivered ⊎ (Among x os ⊎ Among x (s.lost ++ o ∷ []))
    lost_now (inl same) = inr (inr (rw same (Among-snoc o s.lost)))
    lost_now (inr later) = inr (inl later)

report_oldest-delivered :
    (r : Report) (os : List Output) (s : Worker) (x : Output)
    → Among x s.delivered
    → Among x (report_oldest r os s).delivered
unfolding report_oldest
report_oldest-delivered r [] s x h = h
report_oldest-delivered acked (o ∷ os) s x h = Among-append x s.delivered (o ∷ []) h
report_oldest-delivered (errored why) (o ∷ os) s x h = h

-- The produce of a dead letter does not raise.
abbrev pub NetHolds : Polled → Type 0
NetHolds (polled c m) = c.safety_net.raises ≡ false
NetHolds consumer_error = Unit
NetHolds shutdown_signal = Unit

module _ (p : Platform) (f : Floats) (stages : Stages) (role : Role) where
  -- The output is what the worker makes of the message at some clock readings, or its dead letter.
  abbrev pub Answers : Message → Output → Type 0
  Answers m o =
      ((c : Clocks) × ((prepare p f stages role c m ≡ ready o)
          ⊎ (prepare p f stages role c m ≡ deferred o)))
      ⊎ ((now : ℕ) × (o ≡ dead_letter p f stages role now m))

  -- An output for the message was acknowledged.
  abbrev pub IsDelivered : Worker → Message → Type 0
  IsDelivered s m = (o : Output) × Answers m o × Among o s.delivered

  abbrev pub WasSent : Worker → Message → Type 0
  WasSent s m = (o : Output) × Answers m o × IsSent o s

  abbrev pub IsKept : Worker → Type 0
  IsKept s =
      (s.role ≡ role)
      × AllOf (WasSent s) s.handed_out
      × AllOf (IsDelivered s) s.committed
      × (length s.lost ≤ length s.produce_errors)

  report_oldest-IsKept :
      (r : Report) (os : List Output) (s : Worker)
      → s.pending ≡ os
      → IsKept s
      → IsKept (report_oldest r os s)
  unfolding report_oldest
  report_oldest-IsKept r [] s e k = k
  report_oldest-IsKept acked (o ∷ os) s e (same, sent, covered, known) =
      let t = report_oldest acked (o ∷ os) s in
      (
        same,
        AllOf-imp (WasSent s) (WasSent t) s.handed_out
            (λ m (x, a, h). (x, a, report_oldest-IsSent acked (o ∷ os) s x e h)) sent,
        AllOf-imp (IsDelivered s) (IsDelivered t) s.committed
            (λ m (x, a, h). (x, a, report_oldest-delivered acked (o ∷ os) s x h)) covered,
        known,
      )
  report_oldest-IsKept (errored why) (o ∷ os) s e (same, sent, covered, known) =
      let t = report_oldest (errored why) (o ∷ os) s in
      (
        same,
        AllOf-imp (WasSent s) (WasSent t) s.handed_out
            (λ m (x, a, h). (x, a, report_oldest-IsSent (errored why) (o ∷ os) s x e h)) sent,
        covered,
        omega (
          arith,
          known,
          length-append s.lost (o ∷ []),
          length-append s.produce_errors (why ∷ []),
        ),
      )

  pub serve-IsKept : (rs : List Report) (s : Worker) → IsKept s → IsKept (serve rs s)
  unfolding serve
  serve-IsKept [] s k = k
  serve-IsKept (r ∷ rs) s k = serve-IsKept rs _ (report_oldest-IsKept r s.pending s refl k)

  -- The client takes one more output.
  abbrev take_output : Output → Worker → Worker
  take_output o s = record s { pending = s.pending ++ o ∷ [] }

  abbrev pub hand_out : Message → Worker → Worker
  hand_out m s = record s { handed_out = s.handed_out ++ m ∷ [] }

  take_output-IsSent : (o x : Output) (s : Worker) → IsSent x s → IsSent x (take_output o s)
  take_output-IsSent o x s (inl h) = inl h
  take_output-IsSent o x s (inr (inl h)) = inr (inl (Among-append x s.pending (o ∷ []) h))
  take_output-IsSent o x s (inr (inr h)) = inr (inr h)

  take_output-IsKept : (o : Output) (s : Worker) → IsKept s → IsKept (take_output o s)
  take_output-IsKept o s (same, sent, covered, known) = (
    same,
    AllOf-imp (WasSent s) (WasSent (take_output o s)) s.handed_out
        (λ m (x, a, h). (x, a, take_output-IsSent o x s h)) sent,
    covered,
    known,
  )

  pub produce-IsKept :
      (o : Output) (rs : List Report) (s : Worker) → IsKept s → IsKept (produce o rs s)
  unfolding produce
  produce-IsKept o rs s k = serve-IsKept rs _ (take_output-IsKept o s k)

  -- A message that is handed out with its output keeps the account.
  pub answer-IsKept :
      (m : Message) (o : Output) (rs : List Report) (s : Worker)
      → Answers m o
      → IsKept s
      → IsKept (produce o rs (hand_out m s))
  unfolding produce
  answer-IsKept m o rs s a k =
      let (same, sent, covered, known) = take_output-IsKept o s k in
      serve-IsKept rs _ (
        same,
        AllOf-snoc (WasSent (take_output o s)) m s.handed_out sent
            (o, a, inr (inl (Among-snoc o s.pending))),
        covered,
        known,
      )
