-- ===== src/Streaming/Kafka/Safety.antt =====
-- src/streaming/kafka.py: the commits of a worker against the outputs of the broker.
use ulpf_prism_sih.Prelude.{
  ℕ, zero, suc, ◌≡◌, refl, inl, inr, Option, none, some, List, [], ◌∷◌, ◌++◌, arith, Bytes,
  Bool-cases, Among, AllOf, Among-append, Among-snoc, AllOf-snoc, AllOf-imp,
}
use mathlib.Core.List.{append-nil}
use ulpf_prism_sih.Contracts.Platform.{Platform}
use ulpf_prism_sih.Streaming.Messages.{ProcessingDecision}
use ulpf_prism_sih.Streaming.Processors.{Processed, decided, raised}
use ulpf_prism_sih.Streaming.Kafka.{
  Message, Delivery, acknowledged, refused, pending, Broker, Circumstances, Outcome, done, withheld,
  failed, Wiring, decide, commit, deliver, settle, with_value, process_one,
}

-- The output of a committed message, as it was decided when it was committed, was acknowledged.
abbrev pub CoveredBy :
    Platform → (ℕ → Message → Wiring) → List ProcessingDecision → ℕ × Message → Type 0
CoveredBy p w outputs entry =
    (payload : Bytes) × (d : ProcessingDecision) × (entry.1.value ≡ some payload)
    × (decide p (w entry.0 entry.1) entry.0 entry.1 payload ≡ decided d)
    × Among d outputs

abbrev pub IsCovered : Platform → (ℕ → Message → Wiring) → Broker → Type 0
IsCovered p w b = AllOf (CoveredBy p w b.outputs) b.commits

covered-more :
    (p : Platform) (w : ℕ → Message → Wiring) (outputs : List ProcessingDecision)
    (d : ProcessingDecision) (entry : ℕ × Message)
    → CoveredBy p w outputs entry
    → CoveredBy p w (outputs ++ d ∷ []) entry
covered-more p w outputs d entry (payload, e, v, q, among) =
    (payload, e, v, q, Among-append e outputs (d ∷ []) among)

module _ (p : Platform) (w : ℕ → Message → Wiring) (c : Circumstances) (m : Message) (b : Broker)
    (ok : IsCovered p w b) where
  acknowledge-IsCovered :
      (payload : Bytes) (d : ProcessingDecision)
      → m.value ≡ some payload
      → decide p (w c.clock m) c.clock m payload ≡ decided d
      → IsCovered p w (commit c m (record b { outputs = b.outputs ++ d ∷ [] })).1
  unfolding commit
  acknowledge-IsCovered payload d v q =
      let old = AllOf-imp _ _ b.commits (covered-more p w b.outputs d) ok in
      elim (Bool-cases c.commit_fails) [
        | inl e ↦ rw e old
        | inr e ↦ rw e (
            AllOf-snoc (CoveredBy p w (b.outputs ++ d ∷ [])) (c.clock, m) b.commits old
              (payload, d, v, q, Among-snoc d b.outputs))
      ]

  deliver-IsCovered :
      (payload : Bytes) (d : ProcessingDecision) (answer : Delivery)
      → m.value ≡ some payload
      → decide p (w c.clock m) c.clock m payload ≡ decided d
      → IsCovered p w (deliver c m d answer b).1
  unfolding deliver
  deliver-IsCovered payload d acknowledged v q = acknowledge-IsCovered payload d v q
  deliver-IsCovered payload d refused v q = ok
  deliver-IsCovered payload d (pending zero) v q = acknowledge-IsCovered payload d v q
  deliver-IsCovered payload d (pending (suc n)) v q = ok

  settle-IsCovered :
      (payload : Bytes) (r : Processed)
      → m.value ≡ some payload
      → decide p (w c.clock m) c.clock m payload ≡ r
      → IsCovered p w (settle c m r b).1
  unfolding settle
  settle-IsCovered payload raised v q = ok
  settle-IsCovered payload (decided d) v q = deliver-IsCovered payload d c.delivery v q

  with_value-IsCovered :
      (value : Option Bytes)
      → m.value ≡ value
      → IsCovered p w (with_value p (w c.clock m) c m value b).1
  unfolding with_value
  with_value-IsCovered none v = ok
  with_value-IsCovered (some payload) v = settle-IsCovered payload _ v refl

  pub process_one-IsCovered : IsCovered p w (process_one p (w c.clock m) c m b).1
  unfolding process_one
  process_one-IsCovered = with_value-IsCovered m.value refl

-- A worker's calls, one after another.
unfoldable pub run : Platform → Wiring → Broker → List (Circumstances × Message) → Broker
run p w b [] = b
run p w b ((c, m) ∷ calls) = run p w (process_one p w c m b).1 calls

run-IsCovered :
    (p : Platform) (w : Wiring) (b : Broker) (calls : List (Circumstances × Message))
    → IsCovered p (λ now m. w) b
    → IsCovered p (λ now m. w) (run p w b calls)
unfolding run
run-IsCovered p w b [] ok = ok
run-IsCovered p w b ((c, m) ∷ calls) ok =
    run-IsCovered p w (process_one p w c m b).1 calls
      (process_one-IsCovered p (λ now m. w) c m b ok)

abbrev pub fresh_broker : Broker
fresh_broker = record { outputs = []; commits = [] }

-- After any calls, with any answers of the broker and any failing commits: each committed message
-- has an output that the broker acknowledged, and it is the decision for the message's bytes at the
-- clock reading of the commit.
pub commits-IsCovered :
    (p : Platform) (w : Wiring) (calls : List (Circumstances × Message))
    → IsCovered p (λ now m. w) (run p w fresh_broker calls)
commits-IsCovered p w calls = run-IsCovered p w fresh_broker calls tt

-- What a call commits, by its result.
abbrev pub commits_by : Outcome → ℕ × Message → List (ℕ × Message)
commits_by done entry = entry ∷ []
commits_by withheld entry = []
commits_by failed entry = []

-- A call that returns `True` commits its message and nothing else; one that returns `False` or
-- raises commits nothing.
pub process_one-commits :
    (p : Platform) (w : Wiring) (c : Circumstances) (m : Message) (b : Broker)
    → let (r, b') = process_one p w c m b in b'.commits ≡ b.commits ++ commits_by r (c.clock, m)
unfolding process_one with_value settle deliver commit
process_one-commits p w c m b = ground (arith, append-nil b.commits)
