-- ===== src/Integrations/Delivery.antt =====
-- src/integrations/base.py: the result of a delivery. Every adapter of the repository counts up from
-- zero, so the counts are natural numbers, and the sign tests of `reconciled` hold of any result.
use ulpf_prism_sih.Prelude.{ℕ, ◌+◌, Bool, List, ◌==◌, Text}
use ulpf_prism_sih.Dict.{Dict}
use ulpf_prism_sih.Json.{Json}

pub record DeliveryResult : Type 0 where
  pub attempted : ℕ
  pub delivered : ℕ
  pub retryable_failures : ℕ
  pub terminal_failures : ℕ
  pub errors : List Text

-- `reconciled`
unfoldable pub reconciled : DeliveryResult → Bool
reconciled r = (r.delivered + r.retryable_failures + r.terminal_failures) == r.attempted

abbrev pub Event : Type 0
Event = Dict Json

-- What a call of `deliver` does: it returns, or it raises an exception with its text.
pub data Delivered : Type 0 where
  returned : DeliveryResult → Delivered
  raised : Text → Delivered

abbrev pub OutputAdapter : Type 0
OutputAdapter = List Event → Delivered
