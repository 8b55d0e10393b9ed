-- ===== src/Integrations/Worker.antt =====
-- src/integrations/worker.py: the decision for one normalized event. `json.loads` is a parameter.
pub mod Decisions
use ulpf_prism_sih.Prelude.{
  ℕ, String, Bool, true, false, not, ◌||◌, Option, none, some, List, [], ◌∷◌, ◌++◌, ◌==◌,
  if◌then◌else◌, Text, Bytes, codes,
}
use ulpf_prism_sih.Json.{Json, null, boolean, int, float, str, arr, obj, fields}
use ulpf_prism_sih.Integrations.Delivery.{
  DeliveryResult, reconciled, Event, Delivered, returned, raised, OutputAdapter,
}

pub record DeliveryDecision : Type 0 where
  pub acknowledge : Bool
  pub retryable : Bool
  pub dead_letter : Bool
  pub error_code : Option String
  pub error_message : Option Text

-- A decoding or syntax error is `none`.
abbrev pub Loads : Type 0
Loads = Bytes → Option Json

abbrev dead : String → Option Text → DeliveryDecision
dead code message = record {
  acknowledge = false;
  retryable = false;
  dead_letter = true;
  error_code = some code;
  error_message = message;
}

abbrev retry : String → Option Text → DeliveryDecision
retry code message = record {
  acknowledge = false;
  retryable = true;
  dead_letter = false;
  error_code = some code;
  error_message = message;
}

abbrev accepted : DeliveryDecision
accepted = record {
  acknowledge = true;
  retryable = false;
  dead_letter = false;
  error_code = none;
  error_message = none;
}

-- `"; ".join(errors)`
abbrev join : List Text → Text
join [] = []
join (e ∷ []) = e
join (e ∷ f ∷ more) = e ++ codes "; " ++ join (f ∷ more)

abbrev or_none : Text → Option Text
or_none [] = none
or_none (c ∷ cs) = some (c ∷ cs)

judge : DeliveryResult → DeliveryDecision
judge r =
    let message = or_none (join r.errors) in
    if not (reconciled r) || not (r.attempted == 1)
    then dead "DELIVERY_ACCOUNTING_INVALID" message
    else if not (r.retryable_failures == 0)
    then retry "DELIVERY_RETRYABLE" message
    else if not (r.terminal_failures == 0)
    then dead "DELIVERY_TERMINAL" message
    else accepted

by_delivery : Delivered → DeliveryDecision
by_delivery (raised error) = retry "ADAPTER_UNAVAILABLE" (some error)
by_delivery (returned r) = judge r

by_value : OutputAdapter → Option Json → DeliveryDecision
by_value adapter none = dead "INVALID_NORMALIZED_JSON" none
by_value adapter (some (obj fs)) = by_delivery (adapter (fields fs ∷ []))
by_value adapter (some _) = dead "INVALID_NORMALIZED_CONTRACT" none

-- `process`
unfoldable pub process : Loads → OutputAdapter → Bytes → DeliveryDecision
unfolding by_value by_delivery judge
process loads adapter payload = by_value adapter (loads payload)
