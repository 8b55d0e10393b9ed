-- ===== src/Storage/ClickHouse/Single.antt =====
-- src/storage/clickhouse.py: a batch of one event.
use ulpf_prism_sih.Prelude.{
  ◌<◌, ◌≡◌, refl, ◌⊎◌, inl, inr, true, false, Option, none, some, [], ◌∷◌, ◌++◌, arith, Text,
  Bool-cases,
}
use ulpf_prism_sih.Storage.ClickHouse.{
  Checks, Faults, Tables, Event, event, WriteResult, place, is_good, quarantine_row, split_rows,
  insert, insert_both, write_batch,
}

-- The event is one more row of its table and nothing failed, or something failed and the tables are
-- as before.
abbrev pub WritesOne : Checks → Event → Tables → Option WriteResult × Tables → Type 0
WritesOne k e t (none, u) = u ≡ t
WritesOne k e t (some r, u) =
    ((r.failed_count ≡ 0)
      × (((is_good k e ≡ true) × (u ≡ record t { events = t.events ++ e ∷ [] }))
          ⊎ ((is_good k e ≡ false)
              × ((quarantine_row k e).payload ≡ event e)
              × (u ≡ record t { quarantine = t.quarantine ++ quarantine_row k e ∷ [] }))))
    ⊎ ((0 < r.failed_count) × (u ≡ t))

insert_good :
    (k : Checks) (e : Event) (t : Tables) (a b : Option Text)
    → is_good k e ≡ true
    → WritesOne k e t
        (insert_both (record { events_insert = a; quarantine_insert = b }) (some (e ∷ [], [])) t)
unfolding insert_both insert
insert_good k e t none b good = inl (refl, inl (good, refl))
insert_good k e t (some error) b good = inr (omega arith, refl)

insert_bad :
    (k : Checks) (e : Event) (t : Tables) (a b : Option Text)
    → is_good k e ≡ false
    → WritesOne k e t (
        insert_both
          (record { events_insert = a; quarantine_insert = b })
          (some ([], quarantine_row k e ∷ []))
          t)
unfolding insert_both insert quarantine_row
insert_bad k e t a none bad = inl (refl, inr (bad, refl, refl))
insert_bad k e t a (some error) bad = inr (omega arith, refl)

raises_alone :
    (k : Checks) (e : Event) (f : Faults) (t : Tables) → WritesOne k e t (insert_both f none t)
unfolding insert_both
raises_alone k e f t = refl

pub write_batch-WritesOne :
    (k : Checks) (f : Faults) (e : Event) (t : Tables)
    → WritesOne k e t (write_batch k f (e ∷ []) t)
unfolding write_batch split_rows place
write_batch-WritesOne k f e t = elim (Bool-cases (is_good k e)) [
  | inl good ↦ elim (Bool-cases (k.projects e)) [
    | inl fine ↦ rw good (rw fine (insert_good k e t f.events_insert f.quarantine_insert good))
    | inr crash ↦ rw good (rw crash (raises_alone k e f t))
  ]
  | inr bad ↦ rw bad (insert_bad k e t f.events_insert f.quarantine_insert bad)
]
