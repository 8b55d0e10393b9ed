-- ===== src/Integrations/Worker/Decisions.antt =====
-- src/integrations/worker.py: the decisions over any adapter.
use ulpf_prism_sih.Prelude.{
  ℕ, ◌+◌, ◌≡◌, ◌↔◌, refl, Bool, true, false, Option, none, some, [], ◌∷◌, arith, Bytes,
}
use ulpf_prism_sih.Json.{Json, null, boolean, int, float, str, arr, obj, Fields, fields}
use ulpf_prism_sih.Integrations.Delivery.{
  DeliveryResult, reconciled, Delivered, returned, raised, OutputAdapter,
}
use ulpf_prism_sih.Integrations.Worker.{
  DeliveryDecision, Loads, judge, by_delivery, by_value, process,
}

abbrev pub flag : Bool → ℕ
flag true = 1
flag false = 0

-- How many of its three answers a decision gives.
abbrev pub answers : DeliveryDecision → ℕ
answers d = flag d.acknowledge + flag d.retryable + flag d.dead_letter

judge_once : (r : DeliveryResult) → answers (judge r) ≡ 1
unfolding judge
judge_once r = ground arith

by_delivery_once : (d : Delivered) → answers (by_delivery d) ≡ 1
unfolding by_delivery
by_delivery_once (raised error) = refl
by_delivery_once (returned r) = judge_once r

by_value_once : (adapter : OutputAdapter) (v : Option Json) → answers (by_value adapter v) ≡ 1
unfolding by_value
by_value_once adapter none = refl
by_value_once adapter (some (obj fs)) = by_delivery_once (adapter (fields fs ∷ []))
by_value_once adapter (some null) = refl
by_value_once adapter (some (boolean b)) = refl
by_value_once adapter (some (int z)) = refl
by_value_once adapter (some (float s)) = refl
by_value_once adapter (some (str s)) = refl
by_value_once adapter (some (arr vs)) = refl

process_once :
    (loads : Loads) (adapter : OutputAdapter) (payload : Bytes)
    → answers (process loads adapter payload) ≡ 1
unfolding process
process_once loads adapter payload = by_value_once adapter (loads payload)

-- One event was attempted and delivered.
abbrev pub DeliversOne : DeliveryResult → Type 0
DeliversOne r =
    (r.attempted ≡ 1) × (r.delivered ≡ 1) × (r.retryable_failures ≡ 0) × (r.terminal_failures ≡ 0)

judge_acknowledge : (r : DeliveryResult) → (judge r).acknowledge ≡ true → DeliversOne r
unfolding judge reconciled
judge_acknowledge r h = ground arith

by_delivery_acknowledge :
    (d : Delivered)
    → (by_delivery d).acknowledge ≡ true
    → (r : DeliveryResult) × (d ≡ returned r) × DeliversOne r
unfolding by_delivery
by_delivery_acknowledge (raised error) h = cc
by_delivery_acknowledge (returned r) h = (r, refl, judge_acknowledge r h)

by_value_acknowledge :
    (adapter : OutputAdapter) (v : Option Json)
    → (by_value adapter v).acknowledge ≡ true
    → (fs : Fields) × (r : DeliveryResult) × (v ≡ some (obj fs))
      × (adapter (fields fs ∷ []) ≡ returned r)
      × DeliversOne r
unfolding by_value
by_value_acknowledge adapter none h = cc
by_value_acknowledge adapter (some (obj fs)) h =
    let (r, came, one) = by_delivery_acknowledge (adapter (fields fs ∷ [])) h in
    (fs, r, refl, came, one)
by_value_acknowledge adapter (some null) h = cc
by_value_acknowledge adapter (some (boolean b)) h = cc
by_value_acknowledge adapter (some (int z)) h = cc
by_value_acknowledge adapter (some (float s)) h = cc
by_value_acknowledge adapter (some (str s)) h = cc
by_value_acknowledge adapter (some (arr vs)) h = cc

-- A payload is acknowledged only if it is a JSON object for which the adapter returned a result that
-- attempted one event and delivered it.
pub process_acknowledge :
    (loads : Loads) (adapter : OutputAdapter) (payload : Bytes)
    → (process loads adapter payload).acknowledge ≡ true
    → (fs : Fields) × (r : DeliveryResult) × (loads payload ≡ some (obj fs))
      × (adapter (fields fs ∷ []) ≡ returned r)
      × DeliversOne r
unfolding process
process_acknowledge loads adapter payload h = by_value_acknowledge adapter (loads payload) h

judge-DeliversOne : (r : DeliveryResult) → DeliversOne r → (judge r).acknowledge ≡ true
unfolding judge reconciled
judge-DeliversOne r (attempted, delivered, retryable, terminal) =
    rw (attempted, delivered, retryable, terminal) refl

-- Whatever the payload and the adapter: a decision is exactly one of an acknowledgement, a retry and
-- a dead letter; and it is an acknowledgement exactly if the payload is a JSON object for which the
-- adapter returns a result that attempted one event, delivered it and counts no failure.
pub process_decides :
    (loads : Loads) (adapter : OutputAdapter) (payload : Bytes)
    → (answers (process loads adapter payload) ≡ 1)
      × (((process loads adapter payload).acknowledge ≡ true) ↔ (
          (fs : Fields) × (r : DeliveryResult) × (loads payload ≡ some (obj fs))
          × (adapter (fields fs ∷ []) ≡ returned r)
          × DeliversOne r))
unfolding process by_value by_delivery
process_decides loads adapter payload = (
  process_once loads adapter payload,
  (
    (λ h. process_acknowledge loads adapter payload h),
    (λ (fs, r, loaded, came, one). rw (loaded, came) (judge-DeliversOne r one)),
  ),
)
