-- ===== src/Exports/Partition.antt =====
-- Names of the files of an export, and the parts of its events.
use Prim.Native.String.{◌++◌ as append}
use text.Mathlib.TextLemmas.{append_cancel_left}
use mathlib.Core.Path.{subst}
use ulpf_prism_sih.Prelude.{
  ℕ, suc, ◌+◌, String, Bool, true, false, Option, none, some, List, [], ◌∷◌, ◌≡◌, refl, arith, inl,
  inr, str_eq, str_eq_iff, length, Bool-cases, none_absurd, some_inj,
}
use ulpf_prism_sih.Dict.{Dict}
use ulpf_prism_sih.Json.{Json}
use ulpf_prism_sih.Exports.{is_valid, kept, selected}

pub str_eq-append : (p s t : String) → str_eq s t ≡ false → str_eq (append p s) (append p t) ≡ false
str_eq-append p s t n = elim (Bool-cases (str_eq (append p s) (append p t))) [
  | inl q ↦
      let k =
        (str_eq_iff s t).1
          (append_cancel_left p s t ((str_eq_iff (append p s) (append p t)).0 q)) in
      cc
  | inr q ↦ q
]

kept-length :
    (e : Dict Json) (o : Option Bool) (a b : Option (List (Dict Json))) (n : ℕ)
    {v q : List (Dict Json)}
    → ((x y : List (Dict Json)) → a ≡ some x → b ≡ some y → length x + length y ≡ n)
    → kept true e o a ≡ some v
    → kept false e o b ≡ some q
    → length v + length q ≡ suc n
kept-length e (some true) (some x) (some y) n {v} {q} h i j =
    subst (λ a. length a + length q ≡ suc n) (some_inj i)
      (subst (λ a. suc (length x) + length a ≡ suc n) (some_inj j)
        (let k = h x y refl refl in omega arith))
kept-length e (some false) (some x) (some y) n {v} {q} h i j =
    subst (λ a. length a + length q ≡ suc n) (some_inj i)
      (subst (λ a. length x + length a ≡ suc n) (some_inj j)
        (let k = h x y refl refl in omega arith))
kept-length e none a b n {v} {q} h i j = none_absurd v i
kept-length e (some c) none b n {v} {q} h i j = none_absurd v i
kept-length e (some c) (some x) none n {v} {q} h i j = none_absurd q j

-- Every event is in one of the two files.
pub selected-length :
    (es : List (Dict Json)) {v q : List (Dict Json)}
    → selected true es ≡ some v
    → selected false es ≡ some q
    → length v + length q ≡ length es
unfolding selected
selected-length [] {v} {q} h k =
    subst (λ a. length a + length q ≡ 0) (some_inj h)
      (subst (λ a. 0 + length a ≡ 0) (some_inj k) refl)
selected-length (e ∷ es) h k =
    kept-length e (is_valid e) (selected true es) (selected false es) (length es)
      (λ x y i j. selected-length es i j) h k
