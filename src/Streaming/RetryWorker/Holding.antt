-- ===== src/Streaming/RetryWorker/Holding.antt =====
-- src/streaming/retry.py: the held records and the paused partitions of the retry worker.
use ulpf_prism_sih.Prelude.{
  ℕ, suc, ◌≡◌, refl, ◌∙◌, inl, inr, true, false, Option, none, some, List, [], ◌∷◌, Bool-cases,
  AllOf, AllOf-snoc, AllOf-imp,
}
use ulpf_prism_sih.Contracts.Platform.{Platform}
use ulpf_prism_sih.Streaming.Processors.{RetryProcessorRouter, Route, stage, no_stage}
use ulpf_prism_sih.Streaming.Kafka.{
  Message, Circumstances, Outcome, done, withheld, failed, routed, Wiring,
}
use ulpf_prism_sih.Streaming.RetryWorker.Deadlines.{without_key-AllOf}
use ulpf_prism_sih.Streaming.RetryWorker.Runs.{
  Happening, polled, looked, revoked, step, run, fresh_worker,
}
use ulpf_prism_sih.Streaming.RetryWorker.{
  Key, key_eq, Held, RetryKafkaWorker, key_of, is_held, is_early, canonical, hold, by_deadline,
  by_route, process_one, poison, release, continue, due_round, due_loop, process_due, pause,
  without_key, on_revoke,
}
use ulpf_prism_sih.Streaming.RetryWorker.Partitions.{
  is_paused, OnePerPartition, is_paused-pause, is_paused-pause_self, snoc-OnePerPartition,
  without_key-OnePerPartition, without_key_apart, is_paused-resume, AllOf-both,
}

pub record IsHolding (s : RetryKafkaWorker) : Type 0 where
  pub keyed : AllOf (λ h. h.key ≡ key_of h.message) s.held
  pub one_per_partition : OnePerPartition s.held
  pub partitions_paused : AllOf (λ h. is_paused h.key s.paused ≡ true) s.held

fresh-IsHolding : (r : RetryProcessorRouter) → IsHolding (fresh_worker r)
fresh-IsHolding r = record { keyed = tt; one_per_partition = tt; partitions_paused = tt }

module _ (p : Platform) where
  hold-IsHolding :
      (due : ℕ) (m : Message) (s : RetryKafkaWorker)
      → is_held (key_of m) s.held ≡ false
      → IsHolding s
      → IsHolding (hold p due m s).1
  unfolding hold
  hold-IsHolding due m s first ok = record {
    keyed = AllOf-snoc (λ (h : Held). h.key ≡ key_of h.message) _ s.held ok.keyed refl;
    one_per_partition = snoc-OnePerPartition s.held _ first ok.one_per_partition;
    partitions_paused =
        AllOf-snoc (λ (h : Held). is_paused h.key (pause (key_of m) s.paused) ≡ true) _ s.held
          (AllOf-imp _ _ s.held (λ (h : Held) q. is_paused-pause (key_of m) h.key s.paused q)
            ok.partitions_paused)
          (is_paused-pause_self (key_of m) s.paused);
  }

  canonical-IsHolding :
      (w : Wiring) (c : Circumstances) (m : Message) (s : RetryKafkaWorker)
      → IsHolding s
      → IsHolding (canonical p w c m s).1
  canonical-IsHolding w c m s ok = record {
    keyed = ok.keyed;
    one_per_partition = ok.one_per_partition;
    partitions_paused = ok.partitions_paused;
  }

  by_deadline-IsHolding :
      (c : Circumstances) (m : Message) (o : Option ℕ) (s : RetryKafkaWorker)
      → is_held (key_of m) s.held ≡ false
      → IsHolding s
      → IsHolding (by_deadline p c m o s).1
  unfolding by_deadline
  by_deadline-IsHolding c m none s first ok = canonical-IsHolding (poison p) c m s ok
  by_deadline-IsHolding c m (some due) s first ok = elim (Bool-cases (is_early c.clock due)) [
    | inl early ↦ rw early (hold-IsHolding due m s first ok)
    | inr late ↦ rw late (canonical-IsHolding (routed s.router) c m s ok)
  ]

  by_route-IsHolding :
      (c : Circumstances) (m : Message) (o : Route) (s : RetryKafkaWorker)
      → is_held (key_of m) s.held ≡ false
      → IsHolding s
      → IsHolding (by_route p c m o s).1
  unfolding by_route
  by_route-IsHolding c m (no_stage reason) s first ok =
      canonical-IsHolding (routed s.router) c m s ok
  by_route-IsHolding c m (stage process) s first ok = by_deadline-IsHolding c m _ s first ok

  process_one-IsHolding :
      (c : Circumstances) (m : Message) (s : RetryKafkaWorker)
      → IsHolding s
      → IsHolding (process_one p c m s).1
  unfolding process_one
  process_one-IsHolding c m s ok = elim (Bool-cases (is_held (key_of m) s.held)) [
    | inl second ↦ rw second ok
    | inr first ↦ rw first (by_route-IsHolding c m _ s first ok)
  ]

  release-IsHolding :
      (h : Held) (o : Outcome) (s : RetryKafkaWorker)
      → IsHolding s
      → IsHolding (release p h (o, s)).1
  unfolding release
  release-IsHolding h done s ok = record {
    keyed = without_key-AllOf (λ (x : Held). x.key ≡ key_of x.message) h.key s.held ok.keyed;
    one_per_partition = without_key-OnePerPartition h.key s.held ok.one_per_partition;
    partitions_paused =
        AllOf-both (λ (x : Held). key_eq x.key h.key ≡ false)
          (λ (x : Held). is_paused x.key s.paused ≡ true) _ (without_key h.key s.held)
          (λ (x : Held) apart q. is_paused-resume h.key x.key s.paused apart ∙ q)
          (without_key_apart h.key s.held)
          (without_key-AllOf (λ (x : Held). is_paused x.key s.paused ≡ true) h.key s.held
            ok.partitions_paused);
  }
  release-IsHolding h withheld s ok = ok
  release-IsHolding h failed s ok = ok

  due_round-IsHolding :
      (c : Circumstances) (h : Held) (s : RetryKafkaWorker)
      → IsHolding s
      → IsHolding (due_round p c h s).1
  unfolding due_round
  due_round-IsHolding c h s ok = elim (Bool-cases (is_early c.clock h.due_ms)) [
    | inl early ↦ rw early ok
    | inr late ↦
        rw late (release-IsHolding h _ _ (canonical-IsHolding (routed s.router) c h.message s ok))
  ]

  continue-IsHolding :
      (o : Outcome) (s : RetryKafkaWorker) (next : RetryKafkaWorker → Outcome × RetryKafkaWorker)
      → IsHolding s
      → ((t : RetryKafkaWorker) → IsHolding t → IsHolding (next t).1)
      → IsHolding (continue p (o, s) next).1
  continue-IsHolding done s next ok f = f s ok
  continue-IsHolding withheld s next ok f = ok
  continue-IsHolding failed s next ok f = ok

  due_loop-IsHolding :
      (cs : ℕ → Circumstances) (hs : List Held) (s : RetryKafkaWorker)
      → IsHolding s
      → IsHolding (due_loop p cs hs s).1
  unfolding due_loop
  due_loop-IsHolding cs [] s ok = ok
  due_loop-IsHolding cs (h ∷ hs) s ok =
      continue-IsHolding (due_round p (cs 0) h s).0 (due_round p (cs 0) h s).1 _
        (due_round-IsHolding (cs 0) h s ok)
        (λ t kept. due_loop-IsHolding (λ n. cs (suc n)) hs t kept)

  on_revoke-IsHolding :
      (ks : List Key) (s : RetryKafkaWorker) → IsHolding s → IsHolding (on_revoke ks s)
  unfolding on_revoke
  on_revoke-IsHolding [] s ok = ok
  on_revoke-IsHolding (k ∷ ks) s ok =
      on_revoke-IsHolding ks (record s { held = without_key k s.held })
        (record {
          keyed = without_key-AllOf (λ (x : Held). x.key ≡ key_of x.message) k s.held ok.keyed;
          one_per_partition = without_key-OnePerPartition k s.held ok.one_per_partition;
          partitions_paused =
              without_key-AllOf (λ (x : Held). is_paused x.key s.paused ≡ true) k s.held
                ok.partitions_paused;
        })

  step-IsHolding : (x : Happening) (s : RetryKafkaWorker) → IsHolding s → IsHolding (step p x s)
  unfolding step process_due
  step-IsHolding (polled c m) s ok = process_one-IsHolding c m s ok
  step-IsHolding (looked cs) s ok = due_loop-IsHolding cs s.held s ok
  step-IsHolding (revoked ks) s ok = on_revoke-IsHolding ks s ok

  run-IsHolding :
      (xs : List Happening) (s : RetryKafkaWorker) → IsHolding s → IsHolding (run p xs s)
  unfolding run
  run-IsHolding [] s ok = ok
  run-IsHolding (x ∷ xs) s ok = run-IsHolding xs (step p x s) (step-IsHolding x s ok)

-- Whatever is polled, looked at and revoked, in any order: the worker holds at most one record of
-- each partition, each under the key of its own partition, and the partition of a held record is
-- paused.
pub worker-IsHolding :
    (p : Platform) (r : RetryProcessorRouter) (xs : List Happening)
    → IsHolding (run p xs (fresh_worker r))
worker-IsHolding p r xs = run-IsHolding p xs (fresh_worker r) (fresh-IsHolding r)
