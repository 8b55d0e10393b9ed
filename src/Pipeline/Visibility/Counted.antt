-- ===== src/Pipeline/Visibility/Counted.antt =====
-- What `write_batch` stores and counts.
use mathlib.Core.List.{append-nil, append_assoc}
use ulpf_prism_sih.Prelude.{
  suc, ◌+◌, String, Bool, true, false, Option, none, some, List, [], ◌∷◌, ◌++◌, ◌≡◌, refl, sym, ◌∙◌,
  ap, arith, inl, inr, Option-cases, Bool-cases, some_inj, none_absurd, length,
}
use ulpf_prism_sih.Python.{Python}
use ulpf_prism_sih.Storage.ClickHouse.{WriteResult}
use ulpf_prism_sih.Pipeline.Visibility.{
  Event, AnalyticalVisibilityStore, Returned, Counts, count, noted, write_one, write_loop,
  write_batch, add_event, is_refused, field_of, get_by_raw_hash,
}
use ulpf_prism_sih.Pipeline.Visibility.Indexed.{names, add_event-lookup}

noted-true :
    (c : Counts) (b : Bool) (r : Returned) → r.0 ≡ true → noted c b r ≡ (some (count b c), r.1)
unfolding noted
noted-true c b (true, s) h = refl
noted-true c b (false, s) h = cc

noted-false : (c : Counts) (b : Bool) (r : Returned) → r.0 ≡ false → noted c b r ≡ (none, r.1)
unfolding noted
noted-false c b (true, s) h = cc
noted-false c b (false, s) h = refl

count_total :
    (b : Bool) (c : Counts)
    → (count b c).valid + (count b c).quarantined ≡ suc (c.valid + c.quarantined)
unfolding count
count_total true c = omega arith
count_total false c = omega arith

module _ (py : Python) (valid : Event → Bool) where
  -- One event of the loop, if it goes on.
  write_one-add_event :
      (e : Event) (c d : Counts) (s : AnalyticalVisibilityStore) (o : Option Bool)
      → (write_one py e c s o).0 ≡ some d
      → (b : Bool) × (o ≡ some b)
        × ((add_event py e s).0 ≡ true)
        × (write_one py e c s o ≡ (some (count b c), (add_event py e s).1))
  unfolding write_one
  write_one-add_event e c d s none h = cc
  write_one-add_event e c d s (some b) h = elim (Bool-cases (add_event py e s).0) [
    | inl ok ↦ (b, refl, ok, noted-true c b (add_event py e s) ok)
    | inr bad ↦ none_absurd d (
        ap (λ (x : Option Counts × AnalyticalVisibilityStore). x.0)
          (sym (noted-false c b (add_event py e s) bad))
        ∙ h)
  ]

  write_loop-none :
      (es : List Event) (r : Option Counts × AnalyticalVisibilityStore)
      → r.0 ≡ none
      → (write_loop py valid es r).0 ≡ none
  unfolding write_loop
  write_loop-none es (none, s) h = refl
  write_loop-none es (some c, s) h = cc

  write_loop-stored :
      (es : List Event) (c : Counts) (s : AnalyticalVisibilityStore) {w : WriteResult}
      → (write_loop py valid es (some c, s)).0 ≡ some w
      → ((write_loop py valid es (some c, s)).1.events ≡ s.events ++ es)
        × (w.accepted_count ≡ c.valid + c.quarantined + length es)
        × (w.accepted_count ≡ w.valid_count + w.quarantine_count)
        × (w.failed_count ≡ 0)
  unfolding write_loop
  write_loop-stored [] c s h =
      rw (← some_inj h) (sym (append-nil s.events), omega arith, refl, refl)
  write_loop-stored (e ∷ es) c s h =
      elim (Option-cases (write_one py e c s (is_refused valid e)).0) [
        | inl q ↦ none_absurd _ (sym (write_loop-none es _ q) ∙ h)
        | inr (d, q) ↦
            let (b, r, ok, same) = write_one-add_event e c d s (is_refused valid e) q in
            let (stored, accepted, parts, failed) =
              write_loop-stored es (count b c) (add_event py e s).1 (rw (same, write_loop) at h) in
            (
              rw (same, write_loop)
                  (stored
                    ∙ ap (λ l. l ++ es) (add_event-lookup py e s "" ok).0
                    ∙ append_assoc s.events (e ∷ []) es),
              omega (arith, accepted, count_total b c),
              parts,
              failed,
            )
      ]

  -- A batch that is written, if no call raises, is stored whole and in its order, quarantined events
  -- too; it is counted as accepted, each event as valid or as quarantined, and none as failed.
  pub write_batch-stored :
      (es : List Event) (s : AnalyticalVisibilityStore) {w : WriteResult}
      → (write_batch py valid es s).0 ≡ some w
      → ((write_batch py valid es s).1.events ≡ s.events ++ es)
        × (w.accepted_count ≡ length es)
        × (w.accepted_count ≡ w.valid_count + w.quarantine_count)
        × (w.failed_count ≡ 0)
  unfolding write_batch
  write_batch-stored es s h =
      let (stored, accepted, parts, failed) =
        write_loop-stored es (record { valid = 0; quarantined = 0 }) s h in
      (stored, omega (arith, accepted), parts, failed)

  -- One event, if no call raises, is the answer for its raw hash.
  pub write_batch-get_by_raw_hash :
      (e : Event) (s : AnalyticalVisibilityStore) (h : String) {w : WriteResult}
      → (write_batch py valid (e ∷ []) s).0 ≡ some w
      → names h (field_of "traceability" "raw_sha256" e) ≡ true
      → get_by_raw_hash h (write_batch py valid (e ∷ []) s).1 ≡ some e
  unfolding write_batch write_loop
  write_batch-get_by_raw_hash e s h k n =
      let c : Counts = record { valid = 0; quarantined = 0 } in
      elim (Option-cases (write_one py e c s (is_refused valid e)).0) [
        | inl q ↦ none_absurd _ (sym (write_loop-none [] _ q) ∙ k)
        | inr (d, q) ↦
            let (b, r, ok, same) = write_one-add_event e c d s (is_refused valid e) q in
            rw (same, write_loop) ((add_event-lookup py e s h ok).2 ∙ (rw n refl))
      ]
