-- ===== src/Storage/ClickHouse/Counting.antt =====
-- src/storage/clickhouse.py: the counts of a batch against the rows of the tables.
use ulpf_prism_sih.Prelude.{
  ℕ, suc, ◌+◌, ◌≡◌, refl, Option, none, some, List, [], ◌∷◌, arith, length, length-append, Text,
  Option-cases, inl, inr, some_inj, none_absurd,
}
use mathlib.Core.Path.{subst}
use ulpf_prism_sih.Storage.ClickHouse.{
  Checks, Faults, Tables, Event, WriteResult, Rows, place, split_rows, insert, insert_both,
  write_batch,
}

abbrev rows : Rows → ℕ
rows (good, bad) = length good + length bad

place-rows : (k : Checks) (e : Event) (r s : Rows) → place k e r ≡ some s → rows s ≡ suc (rows r)
unfolding place
place-rows k e (good, bad) s h = ground arith

split_rows-rows :
    (k : Checks) (es : List Event) (s : Rows) → split_rows k es ≡ some s → rows s ≡ length es
unfolding split_rows
split_rows-rows k [] s h = subst (λ x. rows x ≡ 0) (some_inj h) refl
split_rows-rows k (e ∷ es) s h = elim (Option-cases (split_rows k es)) [
  | inl q ↦ none_absurd s (rw q at h)
  | inr (r, q) ↦ omega (arith, split_rows-rows k es r q, place-rows k e r s (rw q at h))
]

insert-counts {ℓ} :
    {A : Type ℓ} (fault : Option Text) (rs table : List A)
    → let (c, after) = insert fault rs table in
      (c.inserted + c.failed ≡ length rs) × (length after ≡ length table + c.inserted)
unfolding insert
insert-counts fault [] table = (refl, omega arith)
insert-counts none (r ∷ rs) table = (omega arith, length-append table (r ∷ rs))
insert-counts (some error) (r ∷ rs) table = (omega arith, omega arith)

-- The result of a batch accounts for its events, and the tables grow by what it reports.
abbrev pub AccountsFor : Tables → ℕ → Option WriteResult × Tables → Type 0
AccountsFor t n (none, u) = u ≡ t
AccountsFor t n (some r, u) =
    (r.accepted_count + r.failed_count ≡ n)
    × (r.accepted_count ≡ r.valid_count + r.quarantine_count)
    × (length u.events ≡ length t.events + r.valid_count)
    × (length u.quarantine ≡ length t.quarantine + r.quarantine_count)

insert_both-AccountsFor :
    (f : Faults) (n : ℕ) (o : Option Rows) (t : Tables)
    → ((s : Rows) → o ≡ some s → rows s ≡ n)
    → AccountsFor t n (insert_both f o t)
unfolding insert_both
insert_both-AccountsFor f n none t h = refl
insert_both-AccountsFor f n (some (good, bad)) t h =
    let (counted, grown) = insert-counts f.events_insert good t.events in
    let (counted_too, grown_too) = insert-counts f.quarantine_insert bad t.quarantine in
    (omega (arith, counted, counted_too, h (good, bad) refl), refl, grown, grown_too)

-- Whatever inserts fail: a batch that returns counts every event as accepted or failed, accepted
-- are those of the two tables, and each table grows by the number that is reported for it; one
-- that raises leaves the tables alone.
pub write_batch-AccountsFor :
    (k : Checks) (f : Faults) (events : List Event) (t : Tables)
    → AccountsFor t (length events) (write_batch k f events t)
unfolding write_batch
write_batch-AccountsFor k f events t =
    insert_both-AccountsFor f (length events) (split_rows k events) t (split_rows-rows k events)
