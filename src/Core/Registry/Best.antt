-- ===== src/Core/Registry/Best.antt =====
-- core/registry.py: the order of the packs, and which one is chosen.
use mathlib.Core.List.{Perm}
use mathlib.Core.List.Perm
use mathlib.Core.Path.{subst}
use mathlib.Core.Bool.{false≢true}
use ulpf_prism_sih.Prelude.{
  Bool, not, ◌&&◌, ◌++◌, if◌then◌else◌, ◌≡◌, ◌↔◌, refl, sym, ◌∙◌, Option-cases, true, false, Option,
  none, some, List, [], ◌∷◌, arith, tests, some_inj, none_absurd, Bool-cases, inl, inr, ◌⊎◌,
}
use ulpf_prism_sih.Int.{ℤ, ◌≤ℤ◌, ltb_ℤ}
use ulpf_prism_sih.Contracts.RawEvent.{RawEventEnvelope}
use ulpf_prism_sih.Core.SourcePack.{SourcePack}
use ulpf_prism_sih.Core.Registry.{
  DirEntry, no_pack, broken, crashing, loads, load_all, insert, sort_by_priority, reload, matched,
  match,
}

-- Every pack of a list has a property.
abbrev pub All {ℓ} : (SourcePack → Type ℓ) → List SourcePack → Type ℓ
All P [] = Unit
All P (p ∷ ps) = P p × All P ps

-- Priorities do not rise along the list.
abbrev pub IsSorted : List SourcePack → Type 0
IsSorted [] = Unit
IsSorted (p ∷ ps) = All (λ q. q.priority ≤ℤ p.priority) ps × IsSorted ps

All-insert {ℓ} :
    (P : SourcePack → Type ℓ) (p : SourcePack) (ps : List SourcePack)
    → P p
    → All P ps
    → All P (insert p ps)
unfolding insert
All-insert P p [] h k = (h, tt)
All-insert P p (q ∷ qs) h (k, ks) = elim (Bool-cases (ltb_ℤ p.priority q.priority)) [
  | inl e ↦ rw e (k, All-insert P p qs h ks)
  | inr e ↦ rw e (h, (k, ks))
]

All-le_trans :
    (m n : ℤ) (ps : List SourcePack)
    → m ≤ℤ n
    → All (λ q. q.priority ≤ℤ m) ps
    → All (λ q. q.priority ≤ℤ n) ps
All-le_trans m n [] h k = tt
All-le_trans m n (p ∷ ps) h (k, ks) = (omega arith, All-le_trans m n ps h ks)

insert-IsSorted : (p : SourcePack) (ps : List SourcePack) → IsSorted ps → IsSorted (insert p ps)
unfolding insert
insert-IsSorted p [] h = (tt, tt)
insert-IsSorted p (q ∷ qs) (h, hs) = elim (Bool-cases (ltb_ℤ p.priority q.priority)) [
  | inl e ↦ rw e (
    All-insert (λ r. r.priority ≤ℤ q.priority) p qs (omega (tests, e)) h,
    insert-IsSorted p qs hs,
  )
  | inr e ↦
      rw e ((omega (tests, e), All-le_trans q.priority p.priority qs (omega (tests, e)) h), (h, hs))
]

sort_by_priority-IsSorted : (ps : List SourcePack) → IsSorted (sort_by_priority ps)
unfolding sort_by_priority
sort_by_priority-IsSorted [] = tt
sort_by_priority-IsSorted (p ∷ ps) =
    insert-IsSorted p (sort_by_priority ps) (sort_by_priority-IsSorted ps)

insert-perm : (p : SourcePack) (ps : List SourcePack) → Perm (insert p ps) (p ∷ ps)
unfolding insert
insert-perm p [] = Perm.refl (p ∷ [])
insert-perm p (q ∷ qs) = elim (Bool-cases (ltb_ℤ p.priority q.priority)) [
  | inl e ↦ rw e (Perm.trans (Perm.cons q (insert-perm p qs)) (Perm.swap p q qs))
  | inr e ↦ rw e (Perm.refl (p ∷ q ∷ qs))
]

sort_by_priority-perm : (ps : List SourcePack) → Perm (sort_by_priority ps) ps
unfolding sort_by_priority
sort_by_priority-perm [] = Perm.refl []
sort_by_priority-perm (p ∷ ps) =
    Perm.trans (insert-perm p (sort_by_priority ps)) (Perm.cons p (sort_by_priority-perm ps))

-- An entry that raises another error than those that are caught.
abbrev pub has_crash : List DirEntry → Bool
has_crash [] = false
has_crash (crashing ∷ es) = true
has_crash (no_pack ∷ es) = has_crash es
has_crash (broken ∷ es) = has_crash es
has_crash (loads p ∷ es) = has_crash es

-- The packs that an entry has, and those of a directory.
abbrev pub packs_of : DirEntry → List SourcePack
packs_of (loads p) = p ∷ []
packs_of _ = []

abbrev pub packs_in : List DirEntry → List SourcePack
packs_in [] = []
packs_in (e ∷ es) = packs_of e ++ packs_in es

load_all-packs_in :
    (entries : List DirEntry)
    → has_crash entries ≡ false
    → load_all entries ≡ some (packs_in entries)
unfolding load_all
load_all-packs_in [] h = refl
load_all-packs_in (no_pack ∷ es) h = load_all-packs_in es h
load_all-packs_in (broken ∷ es) h = load_all-packs_in es h
load_all-packs_in (crashing ∷ es) h = cc
load_all-packs_in (loads p ∷ es) h = rw (load_all-packs_in es h) refl

-- The packs of one priority.
abbrev has_priority : ℤ → SourcePack → Bool
has_priority z p = not (ltb_ℤ p.priority z) && not (ltb_ℤ z p.priority)

abbrev pub of_priority : ℤ → List SourcePack → List SourcePack
of_priority z [] = []
of_priority z (p ∷ ps) = if has_priority z p then p ∷ of_priority z ps else of_priority z ps

-- A lower priority is another one.
lower-has_priority :
    (z : ℤ) (p q : SourcePack)
    → ltb_ℤ p.priority q.priority ≡ true
    → has_priority z p ≡ true
    → has_priority z q ≡ false
lower-has_priority z p q h k = grind tests

of_priority-insert :
    (z : ℤ) (p : SourcePack) (ps : List SourcePack)
    → of_priority z (insert p ps) ≡ of_priority z (p ∷ ps)
unfolding insert
of_priority-insert z p [] = refl
of_priority-insert z p (q ∷ qs) = elim (Bool-cases (ltb_ℤ p.priority q.priority)) [
  | inl e ↦ elim (Bool-cases (has_priority z p)) [
    | inl h ↦
        let k : has_priority z q ≡ false = lower-has_priority z p q e h in
        rw e (rw (of_priority-insert z p qs) (rw (h, k) refl))
    | inr h ↦ rw e (rw (of_priority-insert z p qs) (rw h refl))
  ]
  | inr e ↦ rw e refl
]

of_priority-sort_by_priority :
    (z : ℤ) (ps : List SourcePack) → of_priority z (sort_by_priority ps) ≡ of_priority z ps
unfolding sort_by_priority
of_priority-sort_by_priority z [] = refl
of_priority-sort_by_priority z (p ∷ ps) =
    of_priority-insert z p (sort_by_priority ps) ∙ rw (of_priority-sort_by_priority z ps) refl

-- A reload of a directory in which no entry crashes does not raise: it keeps the pack of every entry
-- that loads, whatever the broken ones among them, each as often, by falling priority, and packs of
-- the same priority in the order of the directory.
pub reload-packs_in :
    (entries : List DirEntry)
    → has_crash entries ≡ false
    → (packs : List SourcePack) × (reload (some entries) ≡ some packs)
      × Perm packs (packs_in entries)
      × IsSorted packs
      × ((z : ℤ) → of_priority z packs ≡ of_priority z (packs_in entries))
unfolding reload
reload-packs_in entries h = (
  sort_by_priority (packs_in entries),
  rw (load_all-packs_in entries h) refl,
  sort_by_priority-perm (packs_in entries),
  sort_by_priority-IsSorted (packs_in entries),
  λ z. of_priority-sort_by_priority z (packs_in entries),
)

abbrev IsBest : RawEventEnvelope → SourcePack → List SourcePack → Type 0
IsBest e p ps = All (λ q. matched (q.detect e) ≡ true → q.priority ≤ℤ p.priority) ps

first-IsBest :
    (e : RawEventEnvelope) (p : SourcePack) (ps : List SourcePack)
    → All (λ q. q.priority ≤ℤ p.priority) ps
    → IsBest e p ps
first-IsBest e p [] h = tt
first-IsBest e p (q ∷ qs) (h, hs) = ((λ m. h), first-IsBest e p qs hs)

match_sorted :
    (packs : List SourcePack) (e : RawEventEnvelope) (p : SourcePack)
    → IsSorted packs
    → match packs e ≡ some p
    → (matched (p.detect e) ≡ true) × IsBest e p packs
unfolding match
match_sorted [] e p s h = cc
match_sorted (q ∷ qs) e p (low, s) h = elim (Bool-cases (matched (q.detect e))) [
  | inl hit ↦
      let same : q ≡ p = ground arith in
      (rw same at hit, ((λ m. rw same (omega arith)), first-IsBest e p qs (rw same at low)))
  | inr miss ↦
      let (hit, best) = match_sorted qs e p s (rw miss at h) in
      (hit, ((λ m. absurd (false≢true (sym miss ∙ m))), best))
]

reload-IsSorted :
    (dir : Option (List DirEntry)) (packs : List SourcePack)
    → reload dir ≡ some packs
    → IsSorted packs
unfolding reload
reload-IsSorted none packs h = subst IsSorted (some_inj h) tt
reload-IsSorted (some entries) packs h = elim (Option-cases (load_all entries)) [
  | inl q ↦ none_absurd packs (rw q at h)
  | inr (loaded, q) ↦ subst IsSorted (some_inj (rw q at h)) (sort_by_priority-IsSorted loaded)
]

abbrev pub Member : SourcePack → List SourcePack → Type 0
Member p [] = ⊥
Member p (q ∷ qs) = (p ≡ q) ⊎ Member p qs

All-Member {ℓ} :
    (P : SourcePack → Type ℓ) (p : SourcePack) (ps : List SourcePack) → All P ps → Member p ps → P p
All-Member P p [] h k = absurd k
All-Member P p (q ∷ qs) (h, hs) (inl e) = subst P (sym e) h
All-Member P p (q ∷ qs) (h, hs) (inr k) = All-Member P p qs hs k

-- What holds of every pack holds of the chosen one.
pub All-match :
    (P : SourcePack → Type 0) (packs : List SourcePack) (e : RawEventEnvelope) (p : SourcePack)
    → All P packs
    → match packs e ≡ some p
    → P p
unfolding match
All-match P [] e p h m = none_absurd p m
All-match P (q ∷ qs) e p (h, hs) m = elim (Bool-cases (matched (q.detect e))) [
  | inl hit ↦ subst P (some_inj (rw hit at m)) h
  | inr miss ↦ All-match P qs e p hs (rw miss at m)
]

-- The chosen pack of a registry detects the envelope, and no pack of the registry that detects it
-- has a higher priority.
pub match_best :
    (dir : Option (List DirEntry)) (packs : List SourcePack) (e : RawEventEnvelope)
    (p q : SourcePack)
    → reload dir ≡ some packs
    → match packs e ≡ some p
    → Member q packs
    → matched (q.detect e) ≡ true
    → (matched (p.detect e) ≡ true) × (q.priority ≤ℤ p.priority)
match_best dir packs e p q loaded chosen inside detects =
    let (hit, best) = match_sorted packs e p (reload-IsSorted dir packs loaded) chosen in
    (
      hit,
      All-Member (λ x. matched (x.detect e) ≡ true → x.priority ≤ℤ p.priority) q packs best inside
          detects,
    )

-- No pack is chosen exactly if none of the packs detects the envelope.
pub match-none :
    (packs : List SourcePack) (e : RawEventEnvelope)
    → (match packs e ≡ none) ↔ All (λ q. matched (q.detect e) ≡ false) packs
unfolding match
match-none [] e = ((λ h. tt), (λ h. refl))
match-none (q ∷ qs) e = elim (Bool-cases (matched (q.detect e))) [
  | inl hit ↦ ((λ k. none_absurd q (sym (rw hit at k))), (λ k. absurd (false≢true (sym k.0 ∙ hit))))
  | inr miss ↦
      ((λ k. (miss, (match-none qs e).0 (rw miss at k))), (λ k. rw miss ((match-none qs e).1 k.1)))
]
