-- ===== src/Storage/Sink/Durable.antt =====
-- src/storage/worker.py: what the tables hold after a decision.
use ulpf_prism_sih.Prelude.{
  ◌≡◌, refl, ◌⊎◌, inl, inr, true, false, Bool, Option, none, some, [], ◌∷◌, ◌++◌, arith, Bytes,
  String, Text,
}
use ulpf_prism_sih.Json.{Json, null, boolean, int, float, str, arr, obj, Fields, fields}
use ulpf_prism_sih.Storage.ClickHouse.{
  Checks, Faults, Tables, QuarantineRow, event, undecoded, is_good, quarantine_row, WriteResult,
  quarantine_payload, insert_quarantine,
}
use ulpf_prism_sih.Storage.ClickHouse.Single.{WritesOne, write_batch-WritesOne}
use ulpf_prism_sih.Storage.Sink.{
  StorageDecision, Loads, judge, judge_batch, quarantine, judge_quarantine, by_value, process,
}

abbrev pub is_object : Option Json → Bool
is_object (some (obj fs)) = true
is_object _ = false

-- The tables hold the payload as one more row: an event that is good, or its quarantine row, or the
-- text of bytes that are no event.
abbrev pub Holds : Checks → Bytes → Option Json → Tables → Tables → Type 0
Holds k payload value t u =
    ((fs : Fields) × (value ≡ some (obj fs))
      × (((is_good k (fields fs) ≡ true) × (u ≡ record t { events = t.events ++ fields fs ∷ [] }))
          ⊎ ((is_good k (fields fs) ≡ false)
              × ((quarantine_row k (fields fs)).payload ≡ event (fields fs))
              × (u ≡ record t { quarantine = t.quarantine ++ quarantine_row k (fields fs) ∷ [] }))))
    ⊎ ((row : QuarantineRow) × (is_object value ≡ false)
        × (row.payload ≡ undecoded (k.decode_replace payload))
        × (u ≡ record t { quarantine = t.quarantine ++ row ∷ [] }))

-- An acknowledged payload is held; one that is not acknowledged leaves the tables alone.
abbrev pub IsDurable :
    Checks → Bytes → Option Json → Tables → Option StorageDecision × Tables → Type 0
IsDurable k payload value t (none, u) = u ≡ t
IsDurable k payload value t (some d, u) =
    ((d.acknowledge ≡ true) × Holds k payload value t u)
    ⊎ ((d.acknowledge ≡ false) × (d.retryable ≡ true) × (u ≡ t))

judge_quarantine-IsDurable :
    (k : Checks) (answer : Option Text) (payload : Bytes) (value : Option Json) (code : String)
    (row : QuarantineRow) (t : Tables)
    → is_object value ≡ false
    → row.payload ≡ undecoded (k.decode_replace payload)
    → IsDurable k payload value t (judge_quarantine code (insert_quarantine row answer t))
unfolding judge_quarantine insert_quarantine
judge_quarantine-IsDurable k none payload value code row t n h = inl (refl, inr (row, n, h, refl))
judge_quarantine-IsDurable k (some error) payload value code row t n h = inr (refl, refl, refl)

quarantine-IsDurable :
    (k : Checks) (f : Faults) (payload : Bytes) (value : Option Json) (code : String) (t : Tables)
    → is_object value ≡ false
    → IsDurable k payload value t (quarantine k f payload code t)
unfolding quarantine quarantine_payload
quarantine-IsDurable k f payload value code t n =
    judge_quarantine-IsDurable k f.quarantine_insert payload value code _ t n refl

acknowledges : (r : WriteResult) → r.failed_count ≡ 0 → (judge r).acknowledge ≡ true
unfolding judge
acknowledges r h = ground arith

judge_batch-IsDurable :
    (k : Checks) (payload : Bytes) (fs : Fields) (t : Tables) (done : Option WriteResult × Tables)
    → WritesOne k (fields fs) t done
    → IsDurable k payload (some (obj fs)) t (judge_batch done)
unfolding judge_batch judge
judge_batch-IsDurable k payload fs t (none, u) h = h
judge_batch-IsDurable k payload fs t (some r, u) (inl (none_failed, held)) =
    inl (acknowledges r none_failed, inl (fs, refl, held))
judge_batch-IsDurable k payload fs t (some r, u) (inr (some_failed, same)) =
    inr (ground arith, ground arith, same)

by_value-IsDurable :
    (k : Checks) (f : Faults) (payload : Bytes) (value : Option Json) (t : Tables)
    → IsDurable k payload value t (by_value k f payload value t)
unfolding by_value
by_value-IsDurable k f payload none t = quarantine-IsDurable k f payload none _ t refl
by_value-IsDurable k f payload (some (obj fs)) t =
    judge_batch-IsDurable k payload fs t _ (write_batch-WritesOne k f (fields fs) t)
by_value-IsDurable k f payload (some null) t = quarantine-IsDurable k f payload _ _ t refl
by_value-IsDurable k f payload (some (boolean b)) t = quarantine-IsDurable k f payload _ _ t refl
by_value-IsDurable k f payload (some (int z)) t = quarantine-IsDurable k f payload _ _ t refl
by_value-IsDurable k f payload (some (float s)) t = quarantine-IsDurable k f payload _ _ t refl
by_value-IsDurable k f payload (some (str s)) t = quarantine-IsDurable k f payload _ _ t refl
by_value-IsDurable k f payload (some (arr vs)) t = quarantine-IsDurable k f payload _ _ t refl

-- Whatever the payload and the failures of the inserts: an acknowledged payload is one more row of
-- the tables, as an event that validates and whose quality is not invalid; or in quarantine, as the
-- whole event where it is not such a one, and, for a payload that is no JSON object, as the text that
-- decoding its bytes with replacement gives. One that is not acknowledged is retryable and leaves the
-- tables alone, as does a call that raises. An insert that raises leaves its table as it was.
pub process-IsDurable :
    (k : Checks) (f : Faults) (loads : Loads) (payload : Bytes) (t : Tables)
    → IsDurable k payload (loads payload) t (process k f loads payload t)
unfolding process
process-IsDurable k f loads payload t = by_value-IsDurable k f payload (loads payload) t
