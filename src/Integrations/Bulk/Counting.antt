-- ===== src/Integrations/Bulk/Counting.antt =====
-- src/integrations/opensearch.py: the counts of one answer.
use ulpf_prism_sih.Prelude.{
  ℕ, suc, ◌+◌, String, Text, ◌≡◌, refl, Bool, true, false, ◌&&◌, Option, none, some, List, [], ◌∷◌,
  arith, ◌==◌, length, Bool-cases, Option-cases, inl, inr, some_inj, none_absurd,
}
use mathlib.Core.Path.{subst}
use mathlib.Core.Bool.{false≢true}
use ulpf_prism_sih.Int.{ℤ}
use ulpf_prism_sih.Dict
use ulpf_prism_sih.Dict.{Dict}
use ulpf_prism_sih.Json.{Json, null, boolean, int, float, str, arr, obj, items}
use ulpf_prism_sih.Integrations.Delivery.{DeliveryResult, reconciled}
use ulpf_prism_sih.Integrations.Bulk.{
  Posted, responded, post_raised, is_success, operation, reason, status_of, Tally, tally_status,
  count_items, no_tally, of_tally, all_fail, read_items, read_response,
}

abbrev pub counted : Tally → ℕ
counted t = t.delivered + t.retryable_failures + t.terminal_failures

counted-tally_status :
    (why : Option String) (status : Option ℤ) (t : Tally)
    → counted (tally_status why status t) ≡ suc (counted t)
unfolding tally_status
counted-tally_status why none t = omega arith
counted-tally_status why (some status) t = ground arith

counted-count_items :
    (vs : List Json) (t u : Tally) → count_items vs t ≡ some u → counted u ≡ counted t + length vs
unfolding count_items
counted-count_items [] t u h = ground arith
counted-count_items (v ∷ vs) t u h = elim (Option-cases (operation v)) [
  | inl none_there ↦ none_absurd u (rw none_there at h)
  | inr (op, there) ↦
      let now = tally_status (reason op) (status_of op) t in
      omega (
        arith,
        counted-tally_status (reason op) (status_of op) t,
        counted-count_items vs now u (rw there at h),
      )
]

-- The result accounts for n events.
abbrev pub AccountsFor : ℕ → DeliveryResult → Type 0
AccountsFor n r = (reconciled r ≡ true) × (r.attempted ≡ n)

all_fail-AccountsFor :
    (n : ℕ) (retry : Bool) (message : Text) → AccountsFor n (all_fail n retry message)
unfolding reconciled
all_fail-AccountsFor n true message = (ground arith, refl)
all_fail-AccountsFor n false message = (ground arith, refl)

of_tally-AccountsFor : (n : ℕ) (t : Tally) → counted t ≡ n → AccountsFor n (of_tally n t)
unfolding reconciled
of_tally-AccountsFor n t h = (ground arith, refl)

read_items-AccountsFor :
    (n : ℕ) (o : Option Json) (r : DeliveryResult) → read_items n o ≡ some r → AccountsFor n r
unfolding read_items
read_items-AccountsFor n (some (arr vs)) r h = elim (Bool-cases (length (items vs) == n)) [
  | inl right ↦ elim (Option-cases (count_items (items vs) no_tally)) [
    | inl e ↦ none_absurd r (rw e at (rw right at h))
    | inr (t, e) ↦
        subst (AccountsFor n) (some_inj (rw e at (rw right at h)))
          (of_tally-AccountsFor n t (ground (arith, counted-count_items (items vs) no_tally t e)))
  ]
  | inr wrong ↦ subst (AccountsFor n) (some_inj (rw wrong at h)) (all_fail-AccountsFor n true _)
]
read_items-AccountsFor n none r h =
    subst (AccountsFor n) (some_inj h) (all_fail-AccountsFor n true _)
read_items-AccountsFor n (some null) r h =
    subst (AccountsFor n) (some_inj h) (all_fail-AccountsFor n true _)
read_items-AccountsFor n (some (boolean b)) r h =
    subst (AccountsFor n) (some_inj h) (all_fail-AccountsFor n true _)
read_items-AccountsFor n (some (int z)) r h =
    subst (AccountsFor n) (some_inj h) (all_fail-AccountsFor n true _)
read_items-AccountsFor n (some (float s)) r h =
    subst (AccountsFor n) (some_inj h) (all_fail-AccountsFor n true _)
read_items-AccountsFor n (some (str s)) r h =
    subst (AccountsFor n) (some_inj h) (all_fail-AccountsFor n true _)
read_items-AccountsFor n (some (obj fs)) r h =
    subst (AccountsFor n) (some_inj h) (all_fail-AccountsFor n true _)

pub read_response-AccountsFor :
    (n : ℕ) (answer : Posted) (r : DeliveryResult)
    → read_response n answer ≡ some r
    → AccountsFor n r
unfolding read_response
read_response-AccountsFor n (post_raised message) r h =
    subst (AccountsFor n) (some_inj h) (all_fail-AccountsFor n true message)
read_response-AccountsFor n (responded status body) r h = elim (Bool-cases (is_success status)) [
  | inl e ↦ read_items-AccountsFor n (Dict.lookup "items" body) r (rw e at h)
  | inr e ↦ subst (AccountsFor n) (some_inj (rw e at h)) (all_fail-AccountsFor n _ _)
]

abbrev is_there : Option (Dict Json) → Bool
is_there none = false
is_there (some d) = true

-- Each item is an object whose `index` is one, or it has none; otherwise its reading raises.
abbrev pub all_operations : List Json → Bool
all_operations [] = true
all_operations (v ∷ vs) = is_there (operation v) && all_operations vs

abbrev pub readable : Option Json → Bool
readable (some (arr vs)) = all_operations (items vs)
readable _ = true

abbrev pub is_readable : Posted → Bool
is_readable (post_raised message) = true
is_readable (responded status body) = readable (Dict.lookup "items" body)

count_items_total :
    (vs : List Json) (t : Tally)
    → all_operations vs ≡ true
    → (u : Tally) × (count_items vs t ≡ some u)
unfolding count_items
count_items_total [] t h = (t, refl)
count_items_total (v ∷ vs) t h = elim (Option-cases (operation v)) [
  | inl e ↦ absurd (false≢true (rw e at h))
  | inr (op, e) ↦ rw e (count_items_total vs _ (rw e at h))
]

read_items_total :
    (n : ℕ) (o : Option Json) → readable o ≡ true → (r : DeliveryResult) × (read_items n o ≡ some r)
unfolding read_items
read_items_total n (some (arr vs)) h = elim (Bool-cases (length (items vs) == n)) [
  | inl right ↦
      let (t, e) = count_items_total (items vs) no_tally h in rw right (rw e (of_tally n t, refl))
  | inr wrong ↦ rw wrong (_, refl)
]
read_items_total n none h = (_, refl)
read_items_total n (some null) h = (_, refl)
read_items_total n (some (boolean b)) h = (_, refl)
read_items_total n (some (int z)) h = (_, refl)
read_items_total n (some (float s)) h = (_, refl)
read_items_total n (some (str s)) h = (_, refl)
read_items_total n (some (obj fs)) h = (_, refl)

pub read_response_total :
    (n : ℕ) (answer : Posted)
    → is_readable answer ≡ true
    → (r : DeliveryResult) × (read_response n answer ≡ some r)
unfolding read_response
read_response_total n (post_raised message) h = (_, refl)
read_response_total n (responded status body) h = elim (Bool-cases (is_success status)) [
  | inl e ↦ rw e (read_items_total n (Dict.lookup "items" body) h)
  | inr e ↦ rw e (_, refl)
]
