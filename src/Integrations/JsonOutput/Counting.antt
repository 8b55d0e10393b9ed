-- ===== src/Integrations/JsonOutput/Counting.antt =====
-- src/integrations/json_adapter.py: the counts of a delivery.
use mathlib.Core.List.{append-nil, append_assoc}
use ulpf_prism_sih.Prelude.{
  ℕ, suc, ◌+◌, ◌++◌, ◌≡◌, refl, sym, ap, ◌∙◌, true, Option, none, some, List, [], ◌∷◌, arith,
  length, length-append, Text,
}
use ulpf_prism_sih.Integrations.Delivery.{reconciled, Event}
use ulpf_prism_sih.Integrations.JsonOutput.{note, send_all, deliver}

note-counts :
    (o : Option Text) (n : ℕ) (errors : List Text)
    → let (m, more) = note o (n, errors) in m + length more ≡ suc (n + length errors)
note-counts none n errors = omega arith
note-counts (some e) n errors = omega (arith, length-append errors (e ∷ []))

send_all-counts :
    (send : ℕ → Event → Option Text) (es : List Event) (so_far : ℕ × List Text)
    → let (m, more) = send_all send es so_far in
      m + length more ≡ so_far.0 + length so_far.1 + length es
unfolding send_all
send_all-counts send [] so_far = omega arith
send_all-counts send (e ∷ es) (n, errors) = omega (
  arith,
  note-counts (send 0 e) n errors,
  send_all-counts (λ k. send (suc k)) es (note (send 0 e) (n, errors)),
)

abbrev pub after : Option Text → List Text → List Text
after none more = more
after (some error) more = error ∷ more

-- The errors of the events that fail, in order.
abbrev pub failures : (ℕ → Event → Option Text) → List Event → List Text
failures send [] = []
failures send (e ∷ es) = after (send 0 e) (failures (λ n. send (suc n)) es)

note-after :
    (o : Option Text) (so_far : ℕ × List Text) (more : List Text)
    → (note o so_far).1 ++ more ≡ so_far.1 ++ after o more
note-after none (n, errors) more = refl
note-after (some error) (n, errors) more = append_assoc errors (error ∷ []) more

send_all-failures :
    (send : ℕ → Event → Option Text) (es : List Event) (so_far : ℕ × List Text)
    → (send_all send es so_far).1 ≡ so_far.1 ++ failures send es
unfolding send_all
send_all-failures send [] so_far = sym (append-nil so_far.1)
send_all-failures send (e ∷ es) so_far =
    send_all-failures (λ k. send (suc k)) es (note (send 0 e) so_far)
    ∙ note-after (send 0 e) so_far (failures (λ k. send (suc k)) es)

-- Whatever serializing and sending each event does: a delivery goes on after a failure, and its
-- result has the errors of exactly the events that fail, in their order, counts these as retryable
-- and all other events as delivered, attempts every event, and is reconciled.
pub json_deliver-failures :
    (send : ℕ → Event → Option Text) (events : List Event)
    → let r = deliver send events in
      (r.errors ≡ failures send events)
      × (r.retryable_failures ≡ length (failures send events))
      × (r.delivered + length (failures send events) ≡ length events)
      × (r.attempted ≡ length events)
      × (reconciled r ≡ true)
unfolding deliver reconciled
json_deliver-failures send events =
    let counts = send_all-counts send events (0, []) in
    let told = send_all-failures send events (0, []) in
    let same = ap length told in
    (told, omega (arith, counts, same), omega (arith, counts, same), refl, ground (arith, counts))
