-- ===== src/Integrations/OpenSearch/Reconciled.antt =====
-- src/integrations/opensearch.py: the chunks of a delivery and the account of its result.
use mathlib.Core.Path.{subst}
use ulpf_prism_sih.Prelude.{
  ℕ, zero, suc, ◌+◌, ◌-◌, ◌<◌, ◌≤◌, ◌≡◌, refl, ap, ◌∙◌, true, Option, some, List, [], ◌∷◌, ◌++◌,
  arith, length, length-append, length-take, take, drop, Bytes, Option-cases, inl, inr, some_inj,
  none_absurd, AllOf,
}
use ulpf_prism_sih.Integrations.Delivery.{DeliveryResult, reconciled, Event}
use ulpf_prism_sih.Integrations.Bulk.Counting.{
  AccountsFor, read_response-AccountsFor, is_readable, read_response_total,
}
use ulpf_prism_sih.Integrations.OpenSearch.{
  Document, OpenSearchTransport, document, documents, deliver_chunk, deliver_chunks, chunks, total,
  deliver,
}

abbrev pub concat : List (List Event) → List Event
concat [] = []
concat (c ∷ cs) = c ++ concat cs

take-drop : (n : ℕ) (es : List Event) → take n es ++ drop n es ≡ es
take-drop zero es = refl
take-drop (suc n) [] = refl
take-drop (suc n) (e ∷ es) = ap (λ xs. e ∷ xs) (take-drop n es)

length-drop : (n : ℕ) (es : List Event) → length (drop n es) ≡ length es - n
length-drop zero es = omega arith
length-drop (suc n) [] = omega arith
length-drop (suc n) (e ∷ es) = omega (arith, length-drop n es)

-- The chunks of a delivery, in order, are its events, and no chunk is longer than the batch size.
pub chunks_lem :
    (fuel size : ℕ) (events : List Event)
    → 0 < size
    → length events ≤ fuel
    → (concat (chunks fuel size events) ≡ events)
      × AllOf (λ c. length c ≤ size) (chunks fuel size events)
unfolding chunks
chunks_lem zero size [] h k = (refl, tt)
chunks_lem zero size (e ∷ es) h k = absurd (omega (arith, k))
chunks_lem (suc fuel) size [] h k = (refl, tt)
chunks_lem (suc fuel) size (e ∷ es) h k =
    let (same, small) =
      chunks_lem fuel size (drop size (e ∷ es)) h
        (omega (arith, length-drop size (e ∷ es), k, h)) in
    (
      ap (λ xs. take size (e ∷ es) ++ xs) same ∙ take-drop size (e ∷ es),
      (omega (arith, length-take size (e ∷ es)), small),
    )

module _ (serialize : Event → Option Bytes) (post : OpenSearchTransport) where
  deliver_chunk-AccountsFor :
      (n : ℕ) (es : List Event) (r : DeliveryResult)
      → deliver_chunk serialize post n es ≡ some r
      → AccountsFor (length es) r
  unfolding deliver_chunk
  deliver_chunk-AccountsFor n [] r h =
      subst (AccountsFor 0) (some_inj h) (unfold reconciled in refl, refl)
  deliver_chunk-AccountsFor n (e ∷ es) r h = elim (Option-cases (documents serialize (e ∷ es))) [
    | inl q ↦ none_absurd r (rw q at h)
    | inr (ds, q) ↦ read_response-AccountsFor (length (e ∷ es)) (post n ds) r (rw q at h)
  ]

  total-AccountsFor :
      (m n : ℕ) (r : DeliveryResult) (rs : List DeliveryResult)
      → AccountsFor m r
      → AccountsFor n (total rs)
      → AccountsFor (m + n) (total (r ∷ rs))
  unfolding total reconciled
  total-AccountsFor m n r rs (h, a) (k, b) = (ground (arith, h, k), omega (arith, a, b))

  deliver_chunks-AccountsFor :
      (n : ℕ) (cs : List (List Event)) (rs : List DeliveryResult)
      → deliver_chunks serialize post n cs ≡ some rs
      → AccountsFor (length (concat cs)) (total rs)
  unfolding deliver_chunks
  deliver_chunks-AccountsFor n [] rs h =
      subst (λ x. AccountsFor 0 (total x)) (some_inj h)
        (unfold total in unfold reconciled in (refl, refl))
  deliver_chunks-AccountsFor n (c ∷ cs) rs h =
      elim (Option-cases (deliver_chunk serialize post n c)) [
        | inl q ↦ none_absurd rs (rw q at h)
        | inr (r, q) ↦ elim (Option-cases (deliver_chunks serialize post (suc n) cs)) [
          | inl p ↦ none_absurd rs (rw p at (rw q at h))
          | inr (more, p) ↦
              subst (λ x. AccountsFor (length (c ++ concat cs)) (total x))
                (some_inj (rw p at (rw q at h)))
                (rw (length-append c (concat cs)) (
                  total-AccountsFor (length c) (length (concat cs)) r more
                    (deliver_chunk-AccountsFor n c r q)
                    (deliver_chunks-AccountsFor (suc n) cs more p)))
        ]
      ]

  deliver_chunk_total :
      (n : ℕ) (es : List Event) (ds : List Document)
      → documents serialize es ≡ some ds
      → is_readable (post n ds) ≡ true
      → (r : DeliveryResult) × (deliver_chunk serialize post n es ≡ some r)
  unfolding deliver_chunk
  deliver_chunk_total n [] ds h ok = (_, refl)
  deliver_chunk_total n (e ∷ es) ds h ok =
      rw h (read_response_total (length (e ∷ es)) (post n ds) ok)

  documents-append :
      (es fs : List Event) (ds : List Document)
      → documents serialize (es ++ fs) ≡ some ds
      → (xs ys : List Document) × (documents serialize es ≡ some xs)
        × (documents serialize fs ≡ some ys)
  unfolding documents
  documents-append [] fs ds h = ([], ds, refl, h)
  documents-append (e ∷ es) fs ds h = elim (Option-cases (document serialize e)) [
    | inl q ↦ none_absurd ds (rw q at h)
    | inr (d, q) ↦ elim (Option-cases (documents serialize (es ++ fs))) [
      | inl p ↦ none_absurd ds (rw p at (rw q at h))
      | inr (more, p) ↦
          let (xs, ys, here, there) = documents-append es fs more p in
          (d ∷ xs, ys, rw q (rw here refl), there)
    ]
  ]

  deliver_chunks_total :
      (n : ℕ) (cs : List (List Event)) (ds : List Document)
      → documents serialize (concat cs) ≡ some ds
      → ((k : ℕ) (batch : List Document) → is_readable (post k batch) ≡ true)
      → (rs : List DeliveryResult) × (deliver_chunks serialize post n cs ≡ some rs)
  unfolding deliver_chunks
  deliver_chunks_total n [] ds h ok = ([], refl)
  deliver_chunks_total n (c ∷ cs) ds h ok =
      let (xs, ys, here, there) = documents-append c (concat cs) ds h in
      let (r, q) = deliver_chunk_total n c xs here (ok n xs) in
      let (rs, p) = deliver_chunks_total (suc n) cs ys there ok in (r ∷ rs, rw q (rw p refl))

  -- A delivery whose events all have a document, to a transport that may fail or answer with any
  -- status and body whose items can be read, returns a result that attempts every event once and
  -- whose delivered, retryable and terminal counts add up to the attempts.
  pub deliver-reconciled :
      (batch_size : ℕ) (events : List Event) (ds : List Document)
      → 0 < batch_size
      → documents serialize events ≡ some ds
      → ((k : ℕ) (batch : List Document) → is_readable (post k batch) ≡ true)
      → (r : DeliveryResult) × (deliver serialize batch_size post events ≡ some r)
        × (reconciled r ≡ true)
        × (r.attempted ≡ length events)
  unfolding deliver
  deliver-reconciled batch_size events ds h valid ok =
      let cs = chunks (length events) batch_size events in
      let same = (chunks_lem (length events) batch_size events h (omega arith)).0 in
      let (rs, q) = deliver_chunks_total 0 cs ds (ap (documents serialize) same ∙ valid) ok in
      let (account, attempts) = deliver_chunks-AccountsFor 0 cs rs q in
      (total rs, rw q refl, account, attempts ∙ ap length same)
