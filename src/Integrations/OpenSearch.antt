-- ===== src/Integrations/OpenSearch.antt =====
-- src/integrations/opensearch.py: the adapter for the bulk API. A post carries documents, which the
-- code writes as two lines each; what the transport answers to the n-th post is a parameter, and so
-- is `serialize_json`, where `none` is an exception.
pub mod Reconciled
pub mod Acknowledged
use mathlib.Core.Option
use ulpf_prism_sih.Prelude.{
  ℕ, zero, suc, ◌+◌, String, Bool, true, false, ◌&&◌, ◌||◌, Option, none, some, List, [], ◌∷◌, ◌++◌,
  ltb, leb, ◌==◌, if◌then◌else◌, length, take, drop, str_eq, Text, Bytes, codes,
}
use ulpf_prism_sih.Int.{ℤ, pos, negsuc}
use ulpf_prism_sih.Dict
use ulpf_prism_sih.Dict.{Dict}
use ulpf_prism_sih.Json.{Json, null, boolean, int, float, str, arr, obj, items, fields}
use ulpf_prism_sih.Decimal.{show}
use ulpf_prism_sih.Integrations.Delivery.{DeliveryResult, Event, Delivered, returned, raised}
use ulpf_prism_sih.Integrations.Bulk.{Posted, read_response}

-- The action line holds the id, the other line the event.
pub record Document : Type 0 where
  pub id : Json
  pub body : Bytes

abbrev pub OpenSearchTransport : Type 0
OpenSearchTransport = ℕ → List Document → Posted

infixl 5 ◌>>=◌
abbrev ◌>>=◌ {ℓ κ} : {A : Type ℓ} {B : Type κ} → Option A → (A → Option B) → Option B
none >>= k = none
some a >>= k = k a

module _ (serialize : Event → Option Bytes) where
  id_of : Option Json → Option Json
  id_of (some (obj fs)) = Dict.lookup "id" (fields fs)
  id_of _ = none

  -- the two lines of an event; `event["event"]["id"]` raises where there is none
  unfoldable pub document : Event → Option Document
  unfolding id_of
  document e = do
    id ← id_of (Dict.lookup "event" e)
    body ← serialize e
    some (record { id = id; body = body })

  unfoldable pub documents : List Event → Option (List Document)
  documents [] = some []
  documents (e ∷ es) = do d ← document e; ds ← documents es; some (d ∷ ds)

  -- `_deliver_chunk`, whose post is the n-th
  unfoldable pub deliver_chunk : OpenSearchTransport → ℕ → List Event → Option DeliveryResult
  deliver_chunk post n [] = some (record {
    attempted = 0;
    delivered = 0;
    retryable_failures = 0;
    terminal_failures = 0;
    errors = [];
  })
  deliver_chunk post n (e ∷ es) = do
    ds ← documents (e ∷ es)
    read_response (length (e ∷ es)) (post n ds)

  unfoldable pub deliver_chunks :
      OpenSearchTransport → ℕ → List (List Event) → Option (List DeliveryResult)
  deliver_chunks post n [] = some []
  deliver_chunks post n (c ∷ cs) = do
    r ← deliver_chunk post n c
    rs ← deliver_chunks post (suc n) cs
    some (r ∷ rs)

-- the slices `events[start : start + batch_size]`; the length is enough fuel
unfoldable pub chunks : ℕ → ℕ → List Event → List (List Event)
chunks zero size es = []
chunks (suc fuel) size [] = []
chunks (suc fuel) size (e ∷ es) = take size (e ∷ es) ∷ chunks fuel size (drop size (e ∷ es))

unfoldable pub total : List DeliveryResult → DeliveryResult
total [] = record {
  attempted = 0;
  delivered = 0;
  retryable_failures = 0;
  terminal_failures = 0;
  errors = [];
}
total (r ∷ rs) =
    let t = total rs in
    record {
      attempted = r.attempted + t.attempted;
      delivered = r.delivered + t.delivered;
      retryable_failures = r.retryable_failures + t.retryable_failures;
      terminal_failures = r.terminal_failures + t.terminal_failures;
      errors = r.errors ++ t.errors;
    }

-- `deliver`
unfoldable pub deliver :
    (Event → Option Bytes) → ℕ → OpenSearchTransport → List Event → Option DeliveryResult
deliver serialize batch_size post events =
    Option.map total (deliver_chunks serialize post 0 (chunks (length events) batch_size events))

-- The adapter as a worker calls it, with the text of the exception that it may raise.
abbrev pub as_delivered : Text → Option DeliveryResult → Delivered
as_delivered error none = raised error
as_delivered error (some r) = returned r

abbrev pub adapter :
    (Event → Option Bytes) → ℕ → OpenSearchTransport → Text → List Event → Delivered
adapter serialize batch_size post error events =
    as_delivered error (deliver serialize batch_size post events)
