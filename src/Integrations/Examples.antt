-- ===== src/Integrations/Examples.antt =====
-- The theorems about the output adapters at a concrete event and transport.
use ulpf_prism_sih.Prelude.{
  ℕ, zero, suc, ◌+◌, ◌≡◌, ◌↔◌, refl, true, Option, none, some, codes, Text, [], ◌∷◌, Bytes, arith,
}
use ulpf_prism_sih.Int.{pos}
use ulpf_prism_sih.Dict
use ulpf_prism_sih.Dict.{Dict}
use ulpf_prism_sih.Json.{Json, str, int, arr, obj, nil, cons, Fields, end, field, fields}
use ulpf_prism_sih.Integrations.Delivery.{
  DeliveryResult, reconciled, Event, OutputAdapter, returned,
}
use ulpf_prism_sih.Integrations.Bulk.{responded, read_response, operation, status_of, count_items}
use ulpf_prism_sih.Integrations.Bulk.Confirmed.{Confirms}
use ulpf_prism_sih.Integrations.OpenSearch.{
  Document, OpenSearchTransport, document, documents, deliver, chunks, total, deliver_chunks,
  deliver_chunk, adapter,
}
use ulpf_prism_sih.Integrations.OpenSearch.Reconciled.{deliver-reconciled}
use ulpf_prism_sih.Integrations.OpenSearch.Acknowledged.{acknowledged_indexed}
use ulpf_prism_sih.Integrations.Worker.{Loads, process}
use ulpf_prism_sih.Integrations.JsonOutput
use ulpf_prism_sih.Integrations.JsonOutput.Counting.{json_deliver-failures}
use ulpf_prism_sih.Integrations.Worker.Decisions.{answers, DeliversOne, process_decides}
use ulpf_prism_sih.Samples.{line}

abbrev event_fields : Fields
event_fields = field "event" (obj (field "id" (str "e-1") end)) end

abbrev event : Event
event = fields event_fields

abbrev serialize : Event → Option Bytes
serialize e = some line

abbrev created : Json
created = obj (field "index" (obj (field "status" (int (pos 201)) end)) end)

-- A transport that indexes one document of each request.
abbrev transport : OpenSearchTransport
transport n ds = responded (pos 200) (("items", arr (cons created nil)) ∷ [])

abbrev loads : Loads
loads payload = some (obj event_fields)

deliver-reconciled_example :
    (r : DeliveryResult) × (deliver serialize 2 transport (event ∷ event ∷ event ∷ []) ≡ some r)
    × (reconciled r ≡ true)
    × (r.attempted ≡ 3)
unfolding documents document Dict.lookup operation
deliver-reconciled_example =
    deliver-reconciled serialize transport 2 (event ∷ event ∷ event ∷ [])
      (record { id = str "e-1"; body = line }
        ∷ record { id = str "e-1"; body = line }
        ∷ record { id = str "e-1"; body = line }
        ∷ [])
      (omega arith) refl (λ k batch. refl)

acknowledges : (process loads (adapter serialize 500 transport []) line).acknowledge ≡ true
unfolding process deliver deliver_chunks chunks deliver_chunk documents document Dict.lookup
    read_response count_items operation reconciled total status_of
acknowledges = refl

acknowledged_indexed_example :
    (fs : Fields) × (d : Document) × (loads line ≡ some (obj fs))
    × (document serialize (fields fs) ≡ some d)
    × Confirms (transport 0 (d ∷ []))
acknowledged_indexed_example =
    acknowledged_indexed serialize transport 500 [] loads line (omega arith) acknowledges

-- A sender that fails at the second event.
abbrev fails_second : ℕ → Event → Option Text
fails_second zero e = none
fails_second (suc zero) e = some (codes "down")
fails_second (suc (suc n)) e = none

json_deliver-failures_example :
    let r = JsonOutput.deliver fails_second (event ∷ event ∷ event ∷ []) in
    (r.errors ≡ codes "down" ∷ [])
    × (r.retryable_failures ≡ 1)
    × (r.delivered + 1 ≡ 3)
    × (r.attempted ≡ 3)
    × (reconciled r ≡ true)
json_deliver-failures_example = json_deliver-failures fails_second (event ∷ event ∷ event ∷ [])

-- An adapter that delivers what it is given.
abbrev delivers : OutputAdapter
delivers es = returned (record {
  attempted = 1;
  delivered = 1;
  retryable_failures = 0;
  terminal_failures = 0;
  errors = [];
})

process_decides_example :
    (answers (process loads delivers line) ≡ 1)
    × (((process loads delivers line).acknowledge ≡ true) ↔ (
        (fs : Fields) × (r : DeliveryResult) × (loads line ≡ some (obj fs))
        × (delivers (fields fs ∷ []) ≡ returned r)
        × DeliversOne r))
process_decides_example = process_decides loads delivers line
