-- ===== src/Integrations/Bulk/Confirmed.antt =====
-- src/integrations/opensearch.py: the answers after which the one document of a request counts as
-- delivered.
use ulpf_prism_sih.Prelude.{
  ℕ, ◌≡◌, refl, ap, ◌∙◌, String, Bool, true, false, Option, none, some, [], ◌∷◌, arith, ◌==◌,
  length, Text, Bool-cases, Option-cases, inl, inr, some_inj, none_absurd,
}
use ulpf_prism_sih.Int.{ℤ}
use ulpf_prism_sih.Dict
use ulpf_prism_sih.Dict.{Dict}
use ulpf_prism_sih.Json.{Json, null, boolean, int, float, str, arr, obj, Items, nil, cons, items}
use ulpf_prism_sih.Integrations.Delivery.{DeliveryResult}
use ulpf_prism_sih.Integrations.Bulk.{
  Posted, responded, post_raised, is_success, is_retryable, operation, reason, status_of, Tally,
  tally_status, tally_item, count_items, no_tally, all_fail, read_items, read_response,
}

-- The item is an object whose operation has a status in the two hundreds.
abbrev pub Succeeds : Json → Type 0
Succeeds item =
    (op : Dict Json) × (status : ℤ) × (operation item ≡ some op)
    × (status_of op ≡ some status)
    × (is_success status ≡ true)

-- A successful answer to a request of one document, whose one item is a success.
abbrev pub Confirms : Posted → Type 0
Confirms answer =
    (status : ℤ) × (body : Dict Json) × (item : Json) × (answer ≡ responded status body)
    × (is_success status ≡ true)
    × (Dict.lookup "items" body ≡ some (arr (cons item nil)))
    × Succeeds item

tally_status_success :
    (why : Option String) (status : Option ℤ)
    → (tally_status why status no_tally).delivered ≡ 1
    → (z : ℤ) × (status ≡ some z) × (is_success z ≡ true)
unfolding tally_status
tally_status_success why none h = absurd (omega (arith, h))
tally_status_success why (some z) h = elim (Bool-cases (is_success z)) [
  | inl good ↦ (z, refl, good)
  | inr bad ↦ absurd (ground arith)
]

count_one :
    (item : Json) (t : Tally)
    → count_items (item ∷ []) no_tally ≡ some t
    → t.delivered ≡ 1
    → Succeeds item
unfolding count_items tally_item
count_one item t h one = elim (Option-cases (operation item)) [
  | inl e ↦ none_absurd t (rw e at h)
  | inr (op, e) ↦
      let same = some_inj (rw e at h) in
      let (z, has, good) = tally_status_success (reason op) (status_of op) (rw same one) in
      (op, z, e, has, good)
]

all_fail_none :
    {C : Type 0} (n : ℕ) (retry : Bool) (m : Text) (r : DeliveryResult)
    → all_fail n retry m ≡ r
    → r.delivered ≡ 1
    → C
all_fail_none n retry m r same one =
    absurd (omega (arith, ap (λ (x : DeliveryResult). x.delivered) same, one))

not_one : (item v : Json) (vs : Items) → (length (items (cons item (cons v vs))) == 1) ≡ false
not_one item v vs = ground arith

read_items_one :
    (o : Option Json) (r : DeliveryResult)
    → read_items 1 o ≡ some r
    → r.delivered ≡ 1
    → (item : Json) × (o ≡ some (arr (cons item nil))) × Succeeds item
unfolding read_items
read_items_one (some (arr nil)) r h one = all_fail_none 1 true _ r (some_inj h) one
read_items_one (some (arr (cons item nil))) r h one =
    elim (Option-cases (count_items (item ∷ []) no_tally)) [
      | inl e ↦ none_absurd r (rw e at h)
      | inr (t, e) ↦ (
        item,
        refl,
        count_one item t e (ap (λ (x : DeliveryResult). x.delivered) (some_inj (rw e at h)) ∙ one),
      )
    ]
read_items_one (some (arr (cons item (cons v vs)))) r h one =
    all_fail_none 1 true _ r (some_inj (rw (not_one item v vs) at h)) one
read_items_one none r h one = all_fail_none 1 true _ r (some_inj h) one
read_items_one (some null) r h one = all_fail_none 1 true _ r (some_inj h) one
read_items_one (some (boolean b)) r h one = all_fail_none 1 true _ r (some_inj h) one
read_items_one (some (int z)) r h one = all_fail_none 1 true _ r (some_inj h) one
read_items_one (some (float s)) r h one = all_fail_none 1 true _ r (some_inj h) one
read_items_one (some (str s)) r h one = all_fail_none 1 true _ r (some_inj h) one
read_items_one (some (obj fs)) r h one = all_fail_none 1 true _ r (some_inj h) one

pub read_response_one :
    (answer : Posted) (r : DeliveryResult)
    → read_response 1 answer ≡ some r
    → r.delivered ≡ 1
    → Confirms answer
unfolding read_response
read_response_one (post_raised m) r h one = all_fail_none 1 true m r (some_inj h) one
read_response_one (responded status body) r h one = elim (Bool-cases (is_success status)) [
  | inl good ↦
      let (item, shape, success) = read_items_one (Dict.lookup "items" body) r (rw good at h) one in
      (status, body, item, refl, good, shape, success)
  | inr bad ↦ all_fail_none 1 (is_retryable status) _ r (some_inj (rw bad at h)) one
]
