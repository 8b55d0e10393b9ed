-- ===== src/Streaming/RetryWorker/Deadlines.antt =====
-- src/streaming/retry.py: the commits of the retry worker against the deadlines of their records.
use mathlib.Core.List.{append-nil}
use ulpf_prism_sih.Prelude.{
  ℕ, suc, ◌*◌, ◌≤◌, ◌≡◌, refl, sym, ◌∙◌, inl, inr, String, Option, none, some, List, [], ◌∷◌, ◌++◌,
  arith, tests, codes, Bool-cases, some_inj, none_absurd, AllOf, Among, AllOf-Among, AllOf-snoc,
}
use ulpf_prism_sih.Int.{ℤ, pos, negsuc}
use ulpf_prism_sih.Dict
use ulpf_prism_sih.Dict.{Dict}
use ulpf_prism_sih.Decimal.{int}
use ulpf_prism_sih.Contracts.Platform.{Platform}
use ulpf_prism_sih.Streaming.Policy.{header_or}
use ulpf_prism_sih.Streaming.Processors.{
  StreamProcessor, RetryProcessorRouter, Route, stage, no_stage, for_headers,
}
use ulpf_prism_sih.Streaming.Kafka
use ulpf_prism_sih.Streaming.Kafka.{
  Message, Broker, Circumstances, Outcome, done, withheld, failed, Wiring, routed, headers_of,
}
use ulpf_prism_sih.Streaming.Kafka.Safety.{commits_by, process_one-commits}
use ulpf_prism_sih.Streaming.RetryWorker.{
  Key, key_eq, Held, RetryKafkaWorker, key_of, is_held, is_early, in_horizon, deadline, poison,
  canonical, hold, by_deadline, by_route, process_one, release, continue, due_round, due_loop,
  process_due, without_key, on_revoke,
}
use ulpf_prism_sih.Streaming.RetryWorker.Runs.{
  Happening, polled, looked, revoked, step, run, fresh_worker,
}

-- The number in the deadline header.
abbrev pub due_header : Message → Option ℤ
due_header m = int (header_or (Dict.lookup "retry_not_before_epoch_ms" (headers_of m)) (codes "0"))

-- A commit at a clock reading, of a record that has a stage and a deadline within the horizon, is
-- not before that deadline.
abbrev pub OnTime : RetryProcessorRouter → ℕ × Message → Type 0
OnTime r entry =
    (process : StreamProcessor) (due : ℕ)
    → for_headers r (headers_of entry.1) ≡ stage process
    → deadline entry.0 (headers_of entry.1) ≡ some due
    → due * 1000 ≤ entry.0

pub record KeepsDeadlines (r : RetryProcessorRouter) (s : RetryKafkaWorker) : Type 0 where
  pub router_kept : s.router ≡ r
  pub held_due : AllOf (λ h. due_header h.message ≡ some (pos h.due_ms)) s.held
  pub on_time : AllOf (OnTime r) s.broker.commits

in_horizon-eq-some :
    (clock : ℕ) (o : Option ℤ) (due : ℕ) → in_horizon clock o ≡ some due → o ≡ some (pos due)
unfolding in_horizon
in_horizon-eq-some clock none due h = cc
in_horizon-eq-some clock (some (negsuc n)) due h = cc
in_horizon-eq-some clock (some (pos n)) due h = ground arith

deadline-due_header :
    (clock : ℕ) (m : Message) (due : ℕ)
    → deadline clock (headers_of m) ≡ some due
    → due_header m ≡ some (pos due)
unfolding deadline
deadline-due_header clock m due h = in_horizon-eq-some clock (due_header m) due h

no_stage_absurd :
    {C : Type 0} (reason : String) (process : StreamProcessor) → no_stage reason ≡ stage process → C
no_stage_absurd reason process h = cc

pos_inj : (m n : ℕ) → some (pos m) ≡ some (pos n) → m ≡ n
pos_inj m n h = cc

commits-OnTime :
    (r : RetryProcessorRouter) (o : Outcome) (entry : ℕ × Message) (old : List (ℕ × Message))
    → AllOf (OnTime r) old
    → OnTime r entry
    → AllOf (OnTime r) (old ++ commits_by o entry)
commits-OnTime r done entry old h p = AllOf-snoc (OnTime r) entry old h p
commits-OnTime r withheld entry old h p = rw (append-nil old) h
commits-OnTime r failed entry old h p = rw (append-nil old) h

module _ (p : Platform) (r : RetryProcessorRouter) (c : Circumstances) (m : Message)
    (s : RetryKafkaWorker) (ok : KeepsDeadlines r s) where
  canonical-KeepsDeadlines :
      (w : Wiring) → OnTime r (c.clock, m) → KeepsDeadlines r (canonical p w c m s).1
  canonical-KeepsDeadlines w timely = record {
    router_kept = ok.router_kept;
    held_due = ok.held_due;
    on_time = rw (process_one-commits p w c m s.broker) (
        commits-OnTime r (Kafka.process_one p w c m s.broker).0 (c.clock, m) s.broker.commits
          ok.on_time timely);
  }

  by_deadline-KeepsDeadlines :
      (o : Option ℕ)
      → deadline c.clock (headers_of m) ≡ o
      → KeepsDeadlines r (by_deadline p c m o s).1
  unfolding by_deadline hold
  by_deadline-KeepsDeadlines none e =
      canonical-KeepsDeadlines (poison p) (λ process due h d. none_absurd due (sym e ∙ d))
  by_deadline-KeepsDeadlines (some due) e = elim (Bool-cases (is_early c.clock due)) [
    | inl early ↦ rw early (record {
      router_kept = ok.router_kept;
      held_due =
          AllOf-snoc (λ (h : Held). due_header h.message ≡ some (pos h.due_ms)) _ s.held ok.held_due
            (deadline-due_header c.clock m due e);
      on_time = ok.on_time;
    })
    | inr late ↦ rw late (
        canonical-KeepsDeadlines (routed s.router) (λ process other h d.
          let same : due ≡ other = some_inj (sym e ∙ d) in omega (tests, late, same)))
  ]

  by_route-KeepsDeadlines :
      (o : Route)
      → for_headers s.router (headers_of m) ≡ o
      → KeepsDeadlines r (by_route p c m o s).1
  unfolding by_route
  by_route-KeepsDeadlines (no_stage reason) e =
      canonical-KeepsDeadlines (routed s.router)
        (λ process due h d. no_stage_absurd reason process (sym (rw ok.router_kept at e) ∙ h))
  by_route-KeepsDeadlines (stage process) e =
      by_deadline-KeepsDeadlines (deadline c.clock (headers_of m)) refl

  process_one-KeepsDeadlines : KeepsDeadlines r (process_one p c m s).1
  unfolding process_one
  process_one-KeepsDeadlines = elim (Bool-cases (is_held (key_of m) s.held)) [
    | inl second ↦ rw second ok
    | inr first ↦ rw first (by_route-KeepsDeadlines (for_headers s.router (headers_of m)) refl)
  ]

pub without_key-AllOf :
    (P : Held → Type 0) (k : Key) (hs : List Held) → AllOf P hs → AllOf P (without_key k hs)
unfolding without_key
without_key-AllOf P k [] ok = tt
without_key-AllOf P k (h ∷ hs) (q, ok) = elim (Bool-cases (key_eq h.key k)) [
  | inl e ↦ rw e (without_key-AllOf P k hs ok)
  | inr e ↦ rw e (q, without_key-AllOf P k hs ok)
]

module _ (p : Platform) (r : RetryProcessorRouter) where
  release-KeepsDeadlines :
      (h : Held) (o : Outcome) (s : RetryKafkaWorker)
      → KeepsDeadlines r s
      → KeepsDeadlines r (release p h (o, s)).1
  unfolding release
  release-KeepsDeadlines h done s ok = record {
    router_kept = ok.router_kept;
    held_due =
        without_key-AllOf (λ (x : Held). due_header x.message ≡ some (pos x.due_ms)) h.key s.held
          ok.held_due;
    on_time = ok.on_time;
  }
  release-KeepsDeadlines h withheld s ok = ok
  release-KeepsDeadlines h failed s ok = ok

  -- A held record that is due may be committed.
  due_round-KeepsDeadlines :
      (c : Circumstances) (h : Held) (s : RetryKafkaWorker)
      → due_header h.message ≡ some (pos h.due_ms)
      → KeepsDeadlines r s
      → KeepsDeadlines r (due_round p c h s).1
  unfolding due_round
  due_round-KeepsDeadlines c h s e ok = elim (Bool-cases (is_early c.clock h.due_ms)) [
    | inl early ↦ rw early ok
    | inr late ↦ rw late (
        release-KeepsDeadlines h _ _ (
          canonical-KeepsDeadlines p r c h.message s ok (routed s.router) (λ process due routes d.
            let same : due ≡ h.due_ms =
              pos_inj _ _ (sym (deadline-due_header c.clock h.message due d) ∙ e) in
            omega (tests, late, same))))
  ]

  continue-KeepsDeadlines :
      (o : Outcome) (s : RetryKafkaWorker) (next : RetryKafkaWorker → Outcome × RetryKafkaWorker)
      → KeepsDeadlines r s
      → ((t : RetryKafkaWorker) → KeepsDeadlines r t → KeepsDeadlines r (next t).1)
      → KeepsDeadlines r (continue p (o, s) next).1
  continue-KeepsDeadlines done s next ok f = f s ok
  continue-KeepsDeadlines withheld s next ok f = ok
  continue-KeepsDeadlines failed s next ok f = ok

  due_loop-KeepsDeadlines :
      (cs : ℕ → Circumstances) (hs : List Held) (s : RetryKafkaWorker)
      → AllOf (λ h. due_header h.message ≡ some (pos h.due_ms)) hs
      → KeepsDeadlines r s
      → KeepsDeadlines r (due_loop p cs hs s).1
  unfolding due_loop
  due_loop-KeepsDeadlines cs [] s due ok = ok
  due_loop-KeepsDeadlines cs (h ∷ hs) s (e, due) ok =
      continue-KeepsDeadlines (due_round p (cs 0) h s).0 (due_round p (cs 0) h s).1 _
        (due_round-KeepsDeadlines (cs 0) h s e ok)
        (λ t kept. due_loop-KeepsDeadlines (λ n. cs (suc n)) hs t due kept)

  on_revoke-KeepsDeadlines :
      (ks : List Key) (s : RetryKafkaWorker)
      → KeepsDeadlines r s
      → KeepsDeadlines r (on_revoke ks s)
  unfolding on_revoke
  on_revoke-KeepsDeadlines [] s ok = ok
  on_revoke-KeepsDeadlines (k ∷ ks) s ok =
      on_revoke-KeepsDeadlines ks (record s { held = without_key k s.held })
        (record {
          router_kept = ok.router_kept;
          held_due =
              without_key-AllOf (λ (x : Held). due_header x.message ≡ some (pos x.due_ms)) k s.held
                ok.held_due;
          on_time = ok.on_time;
        })

run-KeepsDeadlines :
    (p : Platform) (r : RetryProcessorRouter) (xs : List Happening) (s : RetryKafkaWorker)
    → KeepsDeadlines r s
    → KeepsDeadlines r (run p xs s)
unfolding run step process_due
run-KeepsDeadlines p r [] s ok = ok
run-KeepsDeadlines p r (polled c m ∷ xs) s ok =
    run-KeepsDeadlines p r xs _ (process_one-KeepsDeadlines p r c m s ok)
run-KeepsDeadlines p r (looked cs ∷ xs) s ok =
    run-KeepsDeadlines p r xs _ (due_loop-KeepsDeadlines p r cs s.held s ok.held_due ok)
run-KeepsDeadlines p r (revoked ks ∷ xs) s ok =
    run-KeepsDeadlines p r xs _ (on_revoke-KeepsDeadlines p r ks s ok)

-- Whatever is polled, looked at and revoked, in any order, with any clock readings and any answers
-- of the broker: a committed record with a recognized stage, and a deadline that is valid at the
-- clock reading of its commit, was committed when the clock had reached that deadline.
pub commits_on_time :
    (p : Platform) (r : RetryProcessorRouter) (xs : List Happening) (entry : ℕ × Message)
    (process : StreamProcessor) (due : ℕ)
    → Among entry (run p xs (fresh_worker r)).broker.commits
    → for_headers r (headers_of entry.1) ≡ stage process
    → deadline entry.0 (headers_of entry.1) ≡ some due
    → due * 1000 ≤ entry.0
commits_on_time p r xs entry process due committed known valid =
    let start : KeepsDeadlines r (fresh_worker r) = record {
      router_kept = refl;
      held_due = tt;
      on_time = tt;
    } in
    let kept = run-KeepsDeadlines p r xs (fresh_worker r) start in
    AllOf-Among (OnTime r) entry _ kept.on_time committed process due known valid
