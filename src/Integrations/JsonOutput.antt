-- ===== src/Integrations/JsonOutput.antt =====
-- src/integrations/json_adapter.py: the adapter over a byte sender. What becomes of each event (its
-- serialization and its sending) is a function of its place and the event: an exception's text, or
-- none.

pub mod Counting
use ulpf_prism_sih.Prelude.{
  ℕ, zero, suc, ◌+◌, ◌-◌, Option, none, some, List, [], ◌∷◌, ◌++◌, length, Text,
}
use ulpf_prism_sih.Integrations.Delivery.{DeliveryResult, Event}

abbrev note : Option Text → ℕ × List Text → ℕ × List Text
note none (n, errors) = (n + 1, errors)
note (some e) (n, errors) = (n, errors ++ e ∷ [])

-- the loop: the events delivered and the errors so far
unfoldable pub send_all : (ℕ → Event → Option Text) → List Event → ℕ × List Text → ℕ × List Text
send_all send [] so_far = so_far
send_all send (e ∷ es) so_far = send_all (λ n. send (suc n)) es (note (send 0 e) so_far)

-- `deliver`
unfoldable pub deliver : (ℕ → Event → Option Text) → List Event → DeliveryResult
deliver send events =
    let (delivered, errors) = send_all send events (0, []) in
    record {
      attempted = length events;
      delivered = delivered;
      retryable_failures = length events - delivered;
      terminal_failures = 0;
      errors = errors;
    }
