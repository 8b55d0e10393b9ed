-- ===== src/Integrations/OpenSearch/Acknowledged.antt =====
-- src/integrations/opensearch.py and worker.py: a delivery worker over the OpenSearch adapter.
use ulpf_prism_sih.Prelude.{
  ℕ, zero, suc, ◌<◌, ◌≡◌, refl, ap, true, Option, none, some, [], ◌∷◌, arith, take, Text, Bytes,
  Option-cases, inl, inr, some_inj, none_absurd,
}
use ulpf_prism_sih.Json.{obj, Fields, fields}
use ulpf_prism_sih.Integrations.Delivery.{DeliveryResult, Event, returned}
use ulpf_prism_sih.Integrations.Bulk.{read_response}
use ulpf_prism_sih.Integrations.Bulk.Confirmed.{Confirms, read_response_one}
use ulpf_prism_sih.Integrations.OpenSearch.{
  Document, OpenSearchTransport, document, documents, deliver_chunk, deliver_chunks, chunks, total,
  deliver, as_delivered, adapter,
}
use ulpf_prism_sih.Integrations.Worker.{Loads, process}
use ulpf_prism_sih.Integrations.Worker.Decisions.{process_acknowledge}

take_nil : (n : ℕ) → take {A = Event} n [] ≡ []
take_nil zero = refl
take_nil (suc n) = refl

total_one : (s r : DeliveryResult) → total (s ∷ []) ≡ r → r.delivered ≡ 1 → s.delivered ≡ 1
unfolding total
total_one s r same one = omega (arith, ap (λ (x : DeliveryResult). x.delivered) same, one)

as_delivered_returned :
    (error : Text) (o : Option DeliveryResult) (r : DeliveryResult)
    → as_delivered error o ≡ returned r
    → o ≡ some r
as_delivered_returned error none r h = cc
as_delivered_returned error (some s) r h = cc

module _ (serialize : Event → Option Bytes) (post : OpenSearchTransport) where
  deliver_one :
      (size : ℕ) (e : Event) (r : DeliveryResult)
      → 0 < size
      → deliver serialize size post (e ∷ []) ≡ some r
      → r.delivered ≡ 1
      → (d : Document) × (document serialize e ≡ some d) × Confirms (post 0 (d ∷ []))
  unfolding deliver deliver_chunks deliver_chunk documents chunks
  deliver_one zero e r pos_size h one = absurd (omega (arith, pos_size))
  deliver_one (suc size) e r pos_size h one =
      let h = rw (take_nil size) at h in
      elim (Option-cases (document serialize e)) [
        | inl q ↦ none_absurd r (rw q at h)
        | inr (d, q) ↦ elim (Option-cases (read_response 1 (post 0 (d ∷ [])))) [
          | inl p ↦ none_absurd r (rw p at (rw q at h))
          | inr (s, p) ↦ (
            d,
            q,
            read_response_one (post 0 (d ∷ [])) s p
                (total_one s r (some_inj (rw p at (rw q at h))) one),
          )
        ]
      ]

  -- A payload that a worker over the OpenSearch adapter acknowledges is a JSON object with a document,
  -- and the answer to the one request with this document has a status in the two hundreds and one
  -- item, whose status is in the two hundreds too.
  pub acknowledged_indexed :
      (size : ℕ) (error : Text) (loads : Loads) (payload : Bytes)
      → 0 < size
      → (process loads (adapter serialize size post error) payload).acknowledge ≡ true
      → (fs : Fields) × (d : Document) × (loads payload ≡ some (obj fs))
        × (document serialize (fields fs) ≡ some d)
        × Confirms (post 0 (d ∷ []))
  acknowledged_indexed size error loads payload pos_size h =
      let (fs, r, loaded, came, (_, one, _, _)) =
        process_acknowledge loads (adapter serialize size post error) payload h in
      let (d, has, confirmed) =
        deliver_one size (fields fs) r pos_size (as_delivered_returned error _ r came) one in
      (fs, d, loaded, has, confirmed)
