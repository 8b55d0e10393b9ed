-- ===== src/StageWorker/Loop/Commits.antt =====
-- files/worker.py: the committed position of a worker against the outputs that were delivered.
use mathlib.Core.Path.{subst}
use ulpf_prism_sih.Prelude.{
  ℕ, ◌+◌, ◌≤◌, ◌≡◌, refl, sym, ap, inl, inr, Bool, true, false, not, ◌||◌, Option, none, some, List,
  [], ◌∷◌, arith, ltb, leb, ltb→ge, ◌==◌, if◌then◌else◌, length, Bool-cases, Among, AllOf,
  AllOf-imp,
}
use ulpf_prism_sih.Contracts.Platform.{Platform}
use ulpf_prism_sih.StageWorker.Message.{Role, Message, reset}
use ulpf_prism_sih.StageWorker.Processing.{
  Floats, Stages, Prepared, unreadable, crashed, deferred, ready, prepare, dead_letter,
}
use ulpf_prism_sih.StageWorker.Loop.{
  Worker, Report, serve, Circumstances, Ran, count_message, route_dead_letter, finish_one,
  process_one, maybe_flush_metrics, settle, maybe_commit, after_poll, then_do, round, Polled,
  polled, consumer_error, shutdown_signal, Ending, finish, go_on, run,
}
use ulpf_prism_sih.StageWorker.Loop.Kept.{
  NetHolds, IsDelivered, WasSent, IsKept, serve-IsKept, hand_out, produce-IsKept, answer-IsKept,
}

module _ (p : Platform) (f : Floats) (stages : Stages) (role : Role) where
  if-IsKept :
      (b : Bool) (x y : Ran)
      → IsKept p f stages role x.1
      → IsKept p f stages role y.1
      → IsKept p f stages role (if b then x else y).1
  if-IsKept true x y h k = h
  if-IsKept false x y h k = k

  if_worker-IsKept :
      (b : Bool) (x y : Worker)
      → IsKept p f stages role x
      → IsKept p f stages role y
      → IsKept p f stages role (if b then x else y)
  if_worker-IsKept true x y h k = h
  if_worker-IsKept false x y h k = k

  route_dead_letter-IsKept :
      (c : Circumstances) (m : Message) (s : Worker)
      → c.safety_net.raises ≡ false
      → IsKept p f stages role s
      → IsKept p f stages role (route_dead_letter p f stages c m (hand_out p f stages role m s)).1
  unfolding route_dead_letter
  route_dead_letter-IsKept c m s net k = rw net (
      answer-IsKept p f stages role m (dead_letter p f stages s.role c.handled_at m)
        c.safety_net.reports s
        (inr (c.handled_at, ap (λ r. dead_letter p f stages r c.handled_at m) k.0)) k)

  finish_one-IsKept :
      (c : Circumstances) (m : Message) (s : Worker) (q : Prepared)
      → c.safety_net.raises ≡ false
      → prepare p f stages role c.clocks m ≡ q
      → IsKept p f stages role s
      → IsKept p f stages role (finish_one p f stages c m q (hand_out p f stages role m s)).1
  unfolding finish_one
  finish_one-IsKept c m s unreadable net e k = route_dead_letter-IsKept c m s net k
  finish_one-IsKept c m s crashed net e k = route_dead_letter-IsKept c m (count_message m s) net k
  finish_one-IsKept c m s (deferred o) net e k =
      if-IsKept c.output.raises _ _ (route_dead_letter-IsKept c m s net k)
        (answer-IsKept p f stages role m o c.output.reports s (inl (c.clocks, inr e)) k)
  finish_one-IsKept c m s (ready o) net e k =
      if-IsKept c.output.raises _ _ (route_dead_letter-IsKept c m (count_message m s) net k) (
        answer-IsKept p f stages role m o c.output.reports (count_message m s)
          (inl (c.clocks, inl e)) k)

  process_one-IsKept :
      (c : Circumstances) (m : Message) (s : Worker)
      → c.safety_net.raises ≡ false
      → IsKept p f stages role s
      → IsKept p f stages role (process_one p f stages c m (hand_out p f stages role m s)).1
  unfolding process_one
  process_one-IsKept c m s net k =
      finish_one-IsKept c m s _ net (ap (λ r. prepare p f stages r c.clocks m) (sym k.0)) k

  maybe_flush_metrics-IsKept :
      (c : Circumstances) (s : Worker)
      → IsKept p f stages role s
      → IsKept p f stages role (maybe_flush_metrics c s).1
  unfolding maybe_flush_metrics
  maybe_flush_metrics-IsKept c s k =
      if-IsKept (ltb c.metrics_clock (s.last_metrics_flush + 5_000_000)) _ _ k (
        if-IsKept c.metrics_produce.raises _ _ k
          (produce-IsKept p f stages role c.metrics_output c.metrics_produce.reports s k))

  none_left : {A : Type 0} (xs : List A) → length xs ≤ 0 → xs ≡ []
  none_left [] h = refl
  none_left (x ∷ xs) h = absurd (omega (arith, h))

  -- With nothing pending and nothing lost, what was sent was delivered.
  sent-IsDelivered :
      (s : Worker)
      → s.pending ≡ []
      → s.lost ≡ []
      → (m : Message) → WasSent p f stages role s m
      → IsDelivered p f stages role s m
  sent-IsDelivered s quiet clean m (o, a, inl h) = (o, a, h)
  sent-IsDelivered s quiet clean m (o, a, inr (inl h)) = absurd (subst (Among o) quiet h)
  sent-IsDelivered s quiet clean m (o, a, inr (inr h)) = absurd (subst (Among o) clean h)

  settle-IsKept :
      (now : ℕ) (raises : Bool) (s : Worker)
      → IsKept p f stages role s
      → IsKept p f stages role (settle now raises s).1
  unfolding settle
  settle-IsKept now raises s k = elim (Bool-cases (ltb 0 (length s.pending))) [
    | inl busy ↦ rw busy k
    | inr idle ↦ rw idle (elim (Bool-cases (ltb 0 (length s.produce_errors))) [
      | inl errors ↦ rw errors k
      | inr fine ↦ rw fine (elim (Bool-cases raises) [
        | inl bad ↦ rw bad k
        | inr good ↦ rw good (commit-IsKept s k (ltb→ge 0 _ idle) (ltb→ge 0 _ fine))
      ])
    ])
  ]
    where
      commit-IsKept :
          (s : Worker)
          → IsKept p f stages role s
          → length s.pending ≤ 0
          → length s.produce_errors ≤ 0
          → IsKept p f stages role
              (record s { committed = s.handed_out; uncommitted = 0; last_commit = now })
      commit-IsKept s (same, sent, covered, known) idle fine = (
        same,
        sent,
        AllOf-imp (WasSent p f stages role s) (IsDelivered p f stages role s) s.handed_out
            (sent-IsDelivered s (none_left s.pending idle)
              (none_left s.lost (omega (arith, known, fine))))
            sent,
        known,
      )

  maybe_commit-IsKept :
      (force : Bool) (now : ℕ) (rs : List Report) (raises : Bool) (s : Worker)
      → IsKept p f stages role s
      → IsKept p f stages role (maybe_commit force now rs raises s).1
  unfolding maybe_commit
  maybe_commit-IsKept force now rs raises s k =
      elim (Bool-cases (
        not (force || leb 500 s.uncommitted || leb (s.last_commit + 5_000_000) now)
        || s.uncommitted == 0)) [
          | inl idle ↦ rw idle k
          | inr due ↦
              rw due (settle-IsKept now raises (serve rs s) (serve-IsKept p f stages role rs s k))
        ]

  then_do-IsKept :
      (r : Ran) (next : Worker → Ran)
      → IsKept p f stages role r.1
      → ((t : Worker) → IsKept p f stages role t → IsKept p f stages role (next t).1)
      → IsKept p f stages role (then_do r next).1
  then_do-IsKept (true, s) next k h = h s k
  then_do-IsKept (false, s) next k h = k

  after_poll-IsKept :
      (c : Circumstances) (s : Worker)
      → IsKept p f stages role s
      → IsKept p f stages role (after_poll p f stages c s).1
  after_poll-IsKept c s k =
      then_do-IsKept _ _
        (maybe_commit-IsKept false c.commit_clock c.flush_reports c.commit_raises s k)
        (maybe_flush_metrics-IsKept c)

  round-IsKept :
      (c : Circumstances) (m : Option Message) (s : Worker)
      → c.safety_net.raises ≡ false
      → IsKept p f stages role s
      → IsKept p f stages role (round p f stages c m s).1
  unfolding round
  round-IsKept c none s net k = after_poll-IsKept c s k
  round-IsKept c (some m) s net k =
      then_do-IsKept _ _ (process_one-IsKept c m s net k)
        (λ t h. after_poll-IsKept c (record t { uncommitted = t.uncommitted + 1 }) h)

  finish-IsKept :
      (e : Ending) (s : Worker) → IsKept p f stages role s → IsKept p f stages role (finish e s)
  unfolding finish
  finish-IsKept e s k =
      maybe_commit-IsKept true e.clock e.second_flush e.raises _
        (serve-IsKept p f stages role e.first_flush s k)

  go_on-IsKept :
      (r : Ran) (next end : Worker → Worker)
      → IsKept p f stages role r.1
      → ((t : Worker) → IsKept p f stages role t → IsKept p f stages role (next t))
      → ((t : Worker) → IsKept p f stages role t → IsKept p f stages role (end t))
      → IsKept p f stages role (go_on r next end)
  unfolding go_on
  go_on-IsKept (true, s) next end k h g = h s k
  go_on-IsKept (false, s) next end k h g = g s k

  run-IsKept :
      (e : Ending) (xs : List Polled) (s : Worker)
      → AllOf NetHolds xs
      → IsKept p f stages role s
      → IsKept p f stages role (run p f stages e xs s)
  unfolding run
  run-IsKept e [] s net k = if_worker-IsKept s.running _ _ k (finish-IsKept e s k)
  run-IsKept e (polled c m ∷ xs) s (net, more) k =
      if_worker-IsKept s.running _ _
        (go_on-IsKept (round p f stages c m s) _ _ (round-IsKept c m s net k)
          (λ t h. run-IsKept e xs t more h) (finish-IsKept e))
        (finish-IsKept e s k)
  run-IsKept e (consumer_error ∷ xs) s (net, more) k =
      if_worker-IsKept s.running _ _ (run-IsKept e xs s more k) (finish-IsKept e s k)
  run-IsKept e (shutdown_signal ∷ xs) s (net, more) k =
      if_worker-IsKept s.running _ _ (run-IsKept e xs (record s { running = false }) more k)
        (finish-IsKept e s k)

-- A worker that has just subscribed.
abbrev pub fresh_worker : Role → ℕ → Worker
fresh_worker role now = record {
  role = role;
  running = true;
  uncommitted = 0;
  last_commit = now;
  last_metrics_flush = now;
  produce_errors = [];
  metrics = reset now (record {
    window_start = now;
    consumed_count = 0;
    produced_count = 0;
    retry_count = 0;
    dead_letter_count = 0;
    bytes_in = 0;
    bytes_out = 0;
  });
  pending = [];
  delivered = [];
  lost = [];
  handed_out = [];
  committed = [];
}

-- Whatever the messages, the callbacks, the failures of produces and commits, the errors of the
-- consumer and the signals, and at the end of the run too: if no produce of a dead letter raises,
-- then every message before the committed position has an output that was acknowledged, and it is
-- the output of processing the message, the message put off, or its dead letter.
pub run-IsDelivered :
    (p : Platform) (f : Floats) (stages : Stages) (role : Role) (started : ℕ) (e : Ending)
    (xs : List Polled)
    → AllOf NetHolds xs
    → let s = run p f stages e xs (fresh_worker role started) in
      AllOf (IsDelivered p f stages role s) s.committed
run-IsDelivered p f stages role started e xs net =
    let (_, _, covered, _) =
      run-IsKept p f stages role e xs (fresh_worker role started) net (refl, tt, tt, omega arith) in
    covered
