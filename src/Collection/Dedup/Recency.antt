-- ===== src/Collection/Dedup/Recency.antt =====
-- src/collection/dedup.py: the cache against an unbounded recency list.
use ulpf_prism_sih.Python.Ordered.Members.{contains-append}
use ulpf_prism_sih.Prelude.{
  ℕ, ◌+◌, ◌≤◌, ◌≡◌, refl, sym, ap, ◌∙◌, String, false, ◌||◌, inl, inr, List, [], ◌∷◌, ◌++◌, arith,
  ltb, if◌then◌else◌, length, contains, without, length-append, Bool-cases, tests, some, str_eq,
  str_eq_iff, str_eq_refl,
}
use ulpf_prism_sih.Collection.Dedup.{
  HashCache, create, assign, move_to_end, evict, check_and_add, size,
}

-- The unbounded recency list of a history, the oldest first: each hash stands at its last use.
abbrev pub recency_from : List String → List String → List String
recency_from seen [] = seen
recency_from seen (h ∷ hs) = recency_from (move_to_end h seen) hs

-- The cache after the hashes of a history.
unfoldable pub run : HashCache → List String → HashCache
run c [] = c
run c (h ∷ hs) = run (check_and_add c h).1 hs

abbrev pub IsDistinct : List String → Type 0
IsDistinct [] = Unit
IsDistinct (x ∷ xs) = (contains x xs ≡ false) × IsDistinct xs

without_snoc : (h : String) (es : List String) → without h (es ++ h ∷ []) ≡ without h es
without_snoc h [] = rw (str_eq_refl h)
without_snoc h (e ∷ es) = rw (without_snoc h es)

pub move_to_end-assign :
    (h : String) (es : List String) → move_to_end h (assign h es) ≡ move_to_end h es
unfolding move_to_end assign
move_to_end-assign h es = elim (Bool-cases (contains h es)) [
  | inl e ↦ rw e
  | inr e ↦ rw (e, without_snoc h es)
]

without_absent : (h : String) (es : List String) → contains h es ≡ false → without h es ≡ es
without_absent h [] p = refl
without_absent h (e ∷ es) p = ground (arith, without_absent h es)

contains-without :
    (k h : String) (es : List String)
    → contains k (without h es) ≡ (if str_eq h k then false else contains k es)
contains-without k h [] = ground arith
contains-without k h (e ∷ es) =
    ground (arith, contains-without k h es, str_eq_iff e h, str_eq_iff e k, str_eq_iff h k)

without-IsDistinct : (h : String) (es : List String) → IsDistinct es → IsDistinct (without h es)
without-IsDistinct h [] d = tt
without-IsDistinct h (e ∷ es) (p, d) = elim (Bool-cases (str_eq e h)) [
  | inl q ↦ rw q (without-IsDistinct h es d)
  | inr q ↦ rw q (ground (arith, contains-without e h es, p), without-IsDistinct h es d)
]

snoc-IsDistinct :
    (h : String) (es : List String)
    → contains h es ≡ false
    → IsDistinct es
    → IsDistinct (es ++ h ∷ [])
snoc-IsDistinct h [] p d = (refl, tt)
snoc-IsDistinct h (e ∷ es) p (q, d) = (
  ground (arith, contains-append e es (h ∷ []), q, p, str_eq_iff e h, str_eq_iff h e),
  snoc-IsDistinct h es (ground arith) d,
)

move_to_end-IsDistinct :
    (h : String) (es : List String) → IsDistinct es → IsDistinct (move_to_end h es)
unfolding move_to_end
move_to_end-IsDistinct h es d =
    snoc-IsDistinct h (without h es) (ground (arith, contains-without h h es, str_eq_refl h))
      (without-IsDistinct h es d)

-- A list of distinct hashes loses at most one of them.
length-without :
    (h : String) (es : List String) → IsDistinct es → length es ≤ length (without h es) + 1
length-without h [] d = omega arith
length-without h (e ∷ es) (p, d) =
    ground (arith, length-without h es d, without_absent h es, str_eq_iff e h)

length-move_to_end :
    (h : String) (es : List String) → length (move_to_end h es) ≡ length (without h es) + 1
unfolding move_to_end
length-move_to_end h es = omega (arith, length-append (without h es) (h ∷ []))

evict_cons : (n : ℕ) (e : String) (es : List String) → n ≤ length es → evict n (e ∷ es) ≡ evict n es
unfolding evict
evict_cons n e es h = ground arith

evict_fits : (n : ℕ) (es : List String) → length es ≤ n → evict n es ≡ es
unfolding evict
evict_fits n [] h = refl
evict_fits n (e ∷ es) h = ground arith

pub length-evict : (n : ℕ) (es : List String) → length (evict n es) ≤ n
unfolding evict
length-evict n [] = omega arith
length-evict n (e ∷ es) = ground (arith, length-evict n es)

-- The oldest hash is dropped after a use, if it would have been dropped before it.
evict-move_to_end_cons :
    (n : ℕ) (h e : String) (es : List String)
    → n ≤ length es
    → IsDistinct es
    → evict n (move_to_end h es) ≡ evict n (move_to_end h (e ∷ es))
evict-move_to_end_cons n h e es m d = elim (Bool-cases (str_eq e h)) [
  | inl q ↦ unfold move_to_end in rw q
  | inr q ↦
      unfold move_to_end in
      rw q (
        sym (
          evict_cons n e (without h es ++ h ∷ [])
            (omega (arith, length-append (without h es) (h ∷ []), length-without h es d, m))))
]

-- Forgetting the oldest hashes before a use does not show after it.
evict-move_to_end :
    (n : ℕ) (h : String) (es : List String)
    → IsDistinct es
    → evict n (move_to_end h (evict n es)) ≡ evict n (move_to_end h es)
evict-move_to_end n h [] d = unfold evict in refl
evict-move_to_end n h (e ∷ es) (p, d) = elim (Bool-cases (ltb n (length (e ∷ es)))) [
  | inl more ↦
      rw (evict_cons n e es (omega (tests, more)))
        (evict-move_to_end n h es d ∙ evict-move_to_end_cons n h e es (omega (tests, more)) d)
  | inr fits ↦ rw (evict_fits n (e ∷ es) (omega (tests, fits)))
]

-- What the entries are after each hash of a history.
entries-run_from :
    (c : HashCache) (seen : List String) (history : List String)
    → IsDistinct seen
    → c.entries ≡ evict c.max_entries seen
    → (run c history).entries ≡ evict c.max_entries (recency_from seen history)
unfolding run check_and_add
entries-run_from c seen [] d e = e
entries-run_from c seen (h ∷ hs) d e =
    entries-run_from (check_and_add c h).1 (move_to_end h seen) hs (move_to_end-IsDistinct h seen d)
      (rw (move_to_end-assign h c.entries, e) (evict-move_to_end c.max_entries h seen d))

contains-move_to_end :
    (k h : String) (es : List String)
    → contains k (move_to_end h es) ≡ (str_eq h k || contains k es)
unfolding move_to_end
contains-move_to_end k h es =
    ground (arith, contains-append k (without h es) (h ∷ []), contains-without k h es)

contains-recency_from :
    (k : String) (seen history : List String)
    → contains k (recency_from seen history) ≡ (contains k seen || contains k history)
contains-recency_from k seen [] = ground arith
contains-recency_from k seen (h ∷ hs) =
    ground (arith, contains-recency_from k (move_to_end h seen) hs, contains-move_to_end k h seen)

create-fields : (n : ℕ) (c : HashCache) → create n ≡ some c → (c.entries ≡ []) × (c.max_entries ≡ n)
unfolding create
create-fields n c made = ground arith

module _ (n : ℕ) (c : HashCache) (made : create n ≡ some c) (history : List String) where
  entries-run : (run c history).entries ≡ evict n (recency_from [] history)
  entries-run =
      let (empty, most) = create-fields n c made in
      rw (← most) (
        entries-run_from c [] history tt
          (rw empty (sym (evict_fits c.max_entries [] (omega arith)))))

  pub check_and_add-recency_list :
      (h : String)
      → ((run c history).entries ≡ evict n (recency_from [] history))
        × ((check_and_add (run c history) h).0 ≡ contains h (evict n (recency_from [] history)))
  unfolding check_and_add
  check_and_add-recency_list h = (entries-run, ap (contains h) entries-run)

  -- The cache never holds more hashes than its capacity.
  pub size-run : size (run c history) ≤ n
  unfolding size
  size-run = rw entries-run (length-evict n (recency_from [] history))

  -- While no more distinct hashes than the capacity have been seen, the duplicate flag is exact: it
  -- is set exactly if the hash occurs in the history.
  pub check_and_add_exact :
      (h : String)
      → length (recency_from [] history) ≤ n
      → (check_and_add (run c history) h).0 ≡ contains h history
  check_and_add_exact h fits =
      (check_and_add-recency_list h).1
      ∙ rw (evict_fits n (recency_from [] history) fits) (contains-recency_from h [] history)

module _ (c : HashCache) (h : String) where
  pub size-check_and_add : size (check_and_add c h).1 ≤ c.max_entries
  unfolding check_and_add size
  size-check_and_add = length-evict c.max_entries (move_to_end h (assign h c.entries))

  pub max_entries-check_and_add : (check_and_add c h).1.max_entries ≡ c.max_entries
  unfolding check_and_add
  max_entries-check_and_add = refl
