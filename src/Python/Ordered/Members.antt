-- ===== src/Python/Ordered/Members.antt =====
-- `sorted(set(xs))` and `list(dict.fromkeys(xs))` have the elements of the list.
use Prim.Native.Nat.{Ordering}
use Prim.Native.String.{compare}
use ulpf_prism_sih.Prelude.{
  String, Bool, true, false, ◌||◌, List, [], ◌∷◌, ◌++◌, ◌≡◌, refl, ap, ◌∙◌, inl, inr, arith,
  contains, Bool-cases, str_eq, str_eq_iff,
}
use ulpf_prism_sih.Python.Ordered.{insert, sorted_set, sorted_texts, first_seen, unique}

pub contains-append :
    (k : String) (xs ys : List String) → contains k (xs ++ ys) ≡ (contains k xs || contains k ys)
contains-append k [] ys = refl
contains-append k (x ∷ xs) ys = ground (arith, contains-append k xs ys)

compare-equal : (x y : String) → compare x y ≡ Ordering.eq → str_eq x y ≡ true
compare-equal x y h = rw h refl

or-absorb : (a b c : Bool) → (a ≡ true → b ≡ true) → (b || c) ≡ (a || (b || c))
or-absorb true b c h = rw (h refl) refl
or-absorb false b c h = refl

or-swap : (a b c : Bool) → (b || (a || c)) ≡ (a || (b || c))
or-swap true true c = refl
or-swap true false c = refl
or-swap false b c = refl

-- the three ways in which `insert` goes on
contains-step :
    (s x y : String) (ys : List String) (o : Ordering)
    → compare x y ≡ o
    → contains s (insert compare x ys) ≡ (str_eq x s || contains s ys)
    → contains s (elim o [
      | Ordering.lt ↦ x ∷ y ∷ ys
      | Ordering.eq ↦ y ∷ ys
      | Ordering.gt ↦ y ∷ insert compare x ys
    ])
      ≡ (str_eq x s || contains s (y ∷ ys))
contains-step s x y ys Ordering.lt o h = refl
contains-step s x y ys Ordering.eq o h =
    or-absorb (str_eq x s) (str_eq y s) (contains s ys)
      (λ e. ground (arith, str_eq_iff x s, str_eq_iff x y, str_eq_iff y s, compare-equal x y o, e))
contains-step s x y ys Ordering.gt o h = rw h (or-swap (str_eq x s) (str_eq y s) _)

contains-insert :
    (s x : String) (ys : List String)
    → contains s (insert compare x ys) ≡ (str_eq x s || contains s ys)
unfolding insert
contains-insert s x [] = refl
contains-insert s x (y ∷ ys) = contains-step s x y ys (compare x y) refl (contains-insert s x ys)

pub contains-sorted_texts :
    (s : String) (xs : List String) → contains s (sorted_texts xs) ≡ contains s xs
unfolding sorted_texts sorted_set
contains-sorted_texts s [] = refl
contains-sorted_texts s (x ∷ xs) =
    contains-insert s x (sorted_set compare xs)
    ∙ ap (λ b. str_eq x s || b) (contains-sorted_texts s xs)

contains-first_seen :
    (s : String) (met xs : List String)
    → (contains s met || contains s (first_seen met xs)) ≡ (contains s met || contains s xs)
unfolding first_seen
contains-first_seen s met [] = refl
contains-first_seen s met (x ∷ xs) = elim (Bool-cases (contains x met)) [
  | inl m ↦ ground (arith, m, contains-first_seen s met xs, str_eq_iff x s)
  | inr m ↦ ground (arith, m, contains-first_seen s (x ∷ met) xs)
]

pub contains-unique : (s : String) (xs : List String) → contains s (unique xs) ≡ contains s xs
unfolding unique
contains-unique s xs = contains-first_seen s [] xs
