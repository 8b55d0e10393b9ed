-- ===== src/Collection/Dedup/LastUses.antt =====
-- src/collection/dedup.py: the cache against the last distinct hashes of a history.
use mathlib.Core.List.{append-nil, append_assoc}
use ulpf_prism_sih.Prelude.{
  ℕ, suc, ◌-◌, ◌≡◌, refl, sym, ap, ◌∙◌, String, Bool, true, false, inl, inr, List, [], ◌∷◌, ◌++◌,
  arith, ltb, if◌then◌else◌, length, drop, contains, without, Bool-cases, tests, some, str_eq,
  str_eq_iff,
}
use ulpf_prism_sih.Collection.Dedup.{HashCache, create, move_to_end, evict, check_and_add}
use ulpf_prism_sih.Collection.Dedup.Recency.{recency_from, run, check_and_add-recency_list}

-- The distinct hashes of a history, each at the place of its last occurrence.
abbrev pub last_uses : List String → List String
last_uses [] = []
last_uses (h ∷ hs) = if contains h hs then last_uses hs else h ∷ last_uses hs

-- The last elements of a list, as many as a number says.
abbrev pub last {ℓ} : {A : Type ℓ} → ℕ → List A → List A
last n xs = drop (length xs - n) xs

evict-last : (n : ℕ) (es : List String) → evict n es ≡ last n es
unfolding evict
evict-last n [] = let e : 0 - n ≡ 0 = omega arith in rw e refl
evict-last n (e ∷ es) = elim (Bool-cases (ltb n (length (e ∷ es)))) [
  | inl h ↦
      let k : suc (length es) - n ≡ suc (length es - n) = omega (tests, h) in
      rw (h, k) (evict-last n es)
  | inr h ↦ let k : suc (length es) - n ≡ 0 = omega (tests, h) in rw (h, k) refl
]

-- A list without every hash of another.
abbrev without_all : List String → List String → List String
without_all [] es = es
without_all (h ∷ hs) es = without_all hs (without h es)

without-append :
    (h : String) (xs ys : List String) → without h (xs ++ ys) ≡ without h xs ++ without h ys
without-append h [] ys = refl
without-append h (x ∷ xs) ys = elim (Bool-cases (str_eq x h)) [
  | inl q ↦ rw q (without-append h xs ys)
  | inr q ↦ rw q (ap (λ zs. x ∷ zs) (without-append h xs ys))
]

without_all-append :
    (hs xs ys : List String) → without_all hs (xs ++ ys) ≡ without_all hs xs ++ without_all hs ys
without_all-append [] xs ys = refl
without_all-append (h ∷ hs) xs ys =
    rw (without-append h xs ys) (without_all-append hs (without h xs) (without h ys))

without_all-nil : (hs : List String) → without_all hs [] ≡ []
without_all-nil [] = refl
without_all-nil (h ∷ hs) = without_all-nil hs

without_all-one :
    (hs : List String) (h : String)
    → without_all hs (h ∷ []) ≡ (if contains h hs then [] else h ∷ [])
without_all-one [] h = refl
without_all-one (k ∷ hs) h = elim (Bool-cases (str_eq h k)) [
  | inl q ↦
      let e : str_eq k h ≡ true = ground (arith, str_eq_iff h k, str_eq_iff k h) in
      rw (q, e) (without_all-nil hs)
  | inr q ↦
      let e : str_eq k h ≡ false = ground (arith, str_eq_iff h k, str_eq_iff k h) in
      rw (q, e) (without_all-one hs h)
]

append-last_uses :
    (b : Bool) (h : String) (xs ys : List String)
    → (xs ++ (if b then [] else h ∷ [])) ++ ys ≡ xs ++ (if b then ys else h ∷ ys)
append-last_uses true h xs ys = append_assoc xs [] ys
append-last_uses false h xs ys = append_assoc xs (h ∷ []) ys

recency_from-last_uses :
    (seen history : List String)
    → recency_from seen history ≡ without_all history seen ++ last_uses history
unfolding move_to_end
recency_from-last_uses seen [] = sym (append-nil seen)
recency_from-last_uses seen (h ∷ hs) =
    recency_from-last_uses (without h seen ++ h ∷ []) hs
    ∙ rw (without_all-append hs (without h seen) (h ∷ []), without_all-one hs h)
        (append-last_uses (contains h hs) h (without_all hs (without h seen)) (last_uses hs))

-- After any history, a cache of capacity n holds the last n distinct hashes of the history in the
-- order of their last uses, and reports a hash as a duplicate exactly if it is among them.
pub check_and_add-last_uses :
    (n : ℕ) (c : HashCache) (history : List String) (h : String)
    → create n ≡ some c
    → ((run c history).entries ≡ last n (last_uses history))
      × ((check_and_add (run c history) h).0 ≡ contains h (last n (last_uses history)))
check_and_add-last_uses n c history h made =
    let e : evict n (recency_from [] history) ≡ last n (last_uses history) =
      evict-last n (recency_from [] history)
      ∙ ap (last n) (recency_from-last_uses [] history ∙ rw (without_all-nil history) refl) in
    let (held, reported) = check_and_add-recency_list n c made history h in
    (held ∙ e, reported ∙ ap (contains h) e)
