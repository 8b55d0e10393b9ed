-- ===== src/Pipeline/Visibility/Searched.antt =====
-- `search` against a filter of the newest events.
use ulpf_prism_sih.Prelude.{
  ℕ, zero, suc, ◌+◌, ◌-◌, ◌<◌, max, Bool, true, false, Option, none, some, List, [], ◌∷◌, ◌++◌, ◌≡◌,
  refl, ap, ◌∙◌, arith, leb, length, take, length-append, inl, inr, Option-cases, some_inj,
  none_absurd,
}
use mathlib.Core.Path.{subst}
use mathlib.Core.List.{append-nil, append_assoc}
use ulpf_prism_sih.Python.{Python}
use ulpf_prism_sih.Pipeline.Visibility.{
  Event, AnalyticalVisibilityStore, Filters, matches, reversed, search_loop, search,
}

-- The events that pass the filters, where the filters read each of them without raising.
unfoldable pub filtered : (Event → Option Bool) → List Event → Option (List Event)
filtered keeps [] = some []
filtered keeps (e ∷ es) = elim (keeps e) [
  | none ↦ none
  | some false ↦ filtered keeps es
  | some true ↦ elim (filtered keeps es) [ none ↦ none | some xs ↦ some (e ∷ xs) ]
]

full : (limit n : ℕ) → n ≡ max 1 limit → leb limit n ≡ true
full limit n h = ground arith

room_left : (limit n : ℕ) → n < max 1 limit → 0 < n → leb limit n ≡ false
room_left limit n h k = ground arith

some_first :
    (e : Event) (o : Option (List Event)) {xs : List Event}
    → elim o [ none ↦ none | some ys ↦ some (e ∷ ys) ] ≡ some xs
    → (ys : List Event) × (o ≡ some ys) × (xs ≡ e ∷ ys)
some_first e none h = cc
some_first e (some ys) h = (ys, refl, cc)

-- One result more: the last one, or the loop goes on.
keep_one :
    (keeps : Event → Option Bool) (limit room : ℕ) (results : List Event) (x : Event)
    (es ys : List Event)
    → length results + suc room ≡ max 1 limit
    → ((r : ℕ)
        → room ≡ suc r
        → search_loop keeps limit (results ++ x ∷ []) es
          ≡ some ((results ++ x ∷ []) ++ take (suc r) ys))
    → elim (leb limit (length (results ++ x ∷ []))) [
      | true ↦ some (results ++ x ∷ [])
      | false ↦ search_loop keeps limit (results ++ x ∷ []) es
    ]
      ≡ some (results ++ take (suc room) (x ∷ ys))
keep_one keeps limit zero results x es ys h rest =
    rw (full limit (length (results ++ x ∷ [])) (omega (arith, length-append results (x ∷ []))))
      refl
keep_one keeps limit (suc r) results x es ys h rest =
    rw
      (room_left limit (length (results ++ x ∷ [])) (omega (arith, length-append results (x ∷ [])))
        (omega (arith, length-append results (x ∷ []))))
      (rest r refl ∙ ap some (append_assoc results (x ∷ []) (take (suc r) ys)))

more :
    (results : List Event) (x : Event) (room r : ℕ) {n : ℕ}
    → length results + suc room ≡ n
    → room ≡ suc r
    → length (results ++ x ∷ []) + suc r ≡ n
more results x room r h s = omega (arith, length-append results (x ∷ []))

-- With room for one result more, the loop takes as many as there is room for.
search_loop-filtered :
    (keeps : Event → Option Bool) (limit room : ℕ) (results es : List Event) (xs : List Event)
    → length results + suc room ≡ max 1 limit
    → filtered keeps es ≡ some xs
    → search_loop keeps limit results es ≡ some (results ++ take (suc room) xs)
unfolding search_loop filtered
search_loop-filtered keeps limit room results [] xs h e =
    rw (← some_inj e) (rw (append-nil results) refl)
search_loop-filtered keeps limit room results (x ∷ es) xs h e = elim (Option-cases (keeps x)) [
  | inl q ↦ none_absurd xs (rw (q, filtered) at e)
  | inr (false, q) ↦
      rw (q, search_loop)
        (search_loop-filtered keeps limit room results es xs h (rw (q, filtered) at e))
  | inr (true, q) ↦
      let (ys, f, split) = some_first x (filtered keeps es) (rw (q, filtered) at e) in
      rw (q, search_loop)
        (rw split (
          keep_one keeps limit room results x es ys h (λ r s.
            search_loop-filtered keeps limit r (results ++ x ∷ []) es ys (more results x room r h s)
              f)))
]

-- Where no event makes the filters raise, a search returns the newest events that pass them, the
-- newest first, as many as the limit says and one at least; and all of them, if they are fewer.
pub search-filtered :
    (py : Python) (f : Filters) (limit : ℕ) (s : AnalyticalVisibilityStore) (xs : List Event)
    → filtered (matches py f) (reversed s.events) ≡ some xs
    → search py f limit s ≡ some (take (max 1 limit) xs)
unfolding search
search-filtered py f limit s xs h =
    let e : suc (max 1 limit - 1) ≡ max 1 limit = omega arith in
    subst (λ n. search_loop (matches py f) limit [] (reversed s.events) ≡ some (take n xs)) e
      (search_loop-filtered (matches py f) limit (max 1 limit - 1) [] (reversed s.events) xs
        (omega arith) h)
