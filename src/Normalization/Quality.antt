-- ===== src/Normalization/Quality.antt =====
-- The quality section of a normalized event under the semantic rules.
use Prim.Native.String.{compare}
use ulpf_prism_sih.Prelude.{
  String, Bool, true, false, ◌&&◌, some, List, [], ◌∷◌, ◌++◌, ◌≡◌, ◌≢◌, refl, ◌⊎◌, inl, inr, arith,
  Bool-cases,
}
use ulpf_prism_sih.Dict
use ulpf_prism_sih.Dict.{Dict, lookup-assign}
use ulpf_prism_sih.Json.{Json, str}
use ulpf_prism_sih.Python.{Python, truthy, get}
use ulpf_prism_sih.Python.Ordered.{insert, sorted_set, sorted_texts, unique}
use ulpf_prism_sih.Contracts.Status.{ParseStatus}
use ulpf_prism_sih.Contracts.ParsedEvent.{ParsedEvent, ParseIssue}
use ulpf_prism_sih.Normalization.Models.{MappingResult}
use ulpf_prism_sih.Normalization.Normalizer.{
  is_nil, texts, quality, quality_status, messages, warnings_of, invalidated, described,
}
use ulpf_prism_sih.Validation.Issue.{ValidationIssue}
use ulpf_prism_sih.Validation.Semantics.{is_text, partial_rule, uncertainty_rule}

truthy-texts : (py : Python) (xs : List String) → is_nil xs ≡ false → truthy py (texts xs) ≡ true
unfolding truthy
truthy-texts py [] h = cc
truthy-texts py (x ∷ xs) h = refl

is_nil-insert : (x : String) (ys : List String) → is_nil (insert compare x ys) ≡ false
unfolding insert
is_nil-insert x [] = refl
is_nil-insert x (y ∷ ys) = ground arith

pub is_nil-sorted_texts : (xs : List String) → is_nil (sorted_texts xs) ≡ is_nil xs
unfolding sorted_texts
is_nil-sorted_texts [] = refl
is_nil-sorted_texts (x ∷ xs) = is_nil-insert x (sorted_set compare xs)

pub is_nil-unique : (xs : List String) → is_nil (unique xs) ≡ is_nil xs
unfolding unique
is_nil-unique [] = refl
is_nil-unique (x ∷ xs) = refl

is_nil-append : (xs ys : List String) → is_nil (xs ++ ys) ≡ (is_nil xs && is_nil ys)
is_nil-append [] ys = refl
is_nil-append (x ∷ xs) ys = refl

and-false : (b : Bool) → (b && false) ≡ false
and-false true = refl
and-false false = refl

is_nil-messages : (is : List ParseIssue) → is ≢ [] → is_nil (messages is) ≡ false
unfolding messages
is_nil-messages [] h = absurd (h refl)
is_nil-messages (i ∷ is) h = refl

-- A mapping's warnings and the issues of the parser are warnings of the event.
pub warnings_of-mapping :
    (e : ParsedEvent) (m : MappingResult) (late : List String)
    → is_nil m.warnings ≡ false
    → is_nil (warnings_of e m late) ≡ false
unfolding warnings_of
warnings_of-mapping e m late h = simp (is_nil-append, h)

pub warnings_of-issues :
    (e : ParsedEvent) (m : MappingResult) (late : List String)
    → e.issues ≢ []
    → is_nil (warnings_of e m late) ≡ false
unfolding warnings_of
warnings_of-issues e m late h = simp (is_nil-append, is_nil-messages e.issues h, and-false)

module _ (py : Python) (status : ParseStatus) (missing warnings : List String) where
  warnings_truthy :
      is_nil warnings ≡ false → truthy py (get "warnings" (quality status missing warnings)) ≡ true
  unfolding quality get Dict.lookup
  warnings_truthy h = truthy-texts py (unique warnings) (rw (is_nil-unique warnings) h)

  missing_truthy :
      is_nil missing ≡ false
      → truthy py (get "missing_fields" (quality status missing warnings)) ≡ true
  unfolding quality get Dict.lookup
  missing_truthy h = truthy-texts py (sorted_texts missing) (rw (is_nil-sorted_texts missing) h)

  status_lem :
      get "status" (quality status missing warnings) ≡ str (quality_status status missing warnings)
  unfolding quality get Dict.lookup
  status_lem = refl

  pub uncertainty_rule-nil :
      (label : Json)
      → (is_text "unknown" label ≡ true → is_nil warnings ≡ false)
      → uncertainty_rule py label (some (quality status missing warnings)) ≡ []
  unfolding uncertainty_rule
  uncertainty_rule-nil label h = elim (Bool-cases (is_text "unknown" label)) [
    | inl e ↦ rw (e, warnings_truthy (h e)) refl
    | inr e ↦ rw e refl
  ]

  -- the status is `partial` only with a reason
  with_reason :
      (is_nil missing ≡ false) ⊎ (is_nil warnings ≡ false)
      → partial_rule py (some (quality status missing warnings)) ≡ []
  unfolding partial_rule
  with_reason (inl h) = rw (missing_truthy h) (ground arith)
  with_reason (inr h) = rw (warnings_truthy h) (ground arith)

  not_partial :
      is_text "partial" (str (quality_status status missing warnings)) ≡ false
      → partial_rule py (some (quality status missing warnings)) ≡ []
  unfolding partial_rule
  not_partial h = rw status_lem (rw h refl)

pub partial_rule-nil :
    (py : Python) (status : ParseStatus) (missing warnings : List String)
    → (status ≡ ParseStatus.partial → is_nil warnings ≡ false)
    → partial_rule py (some (quality status missing warnings)) ≡ []
unfolding quality_status
partial_rule-nil py ParseStatus.failed missing warnings h = not_partial py _ missing warnings refl
partial_rule-nil py ParseStatus.unrecognized missing warnings h =
    not_partial py _ missing warnings refl
partial_rule-nil py ParseStatus.partial missing warnings h =
    with_reason py _ missing warnings (inr (h refl))
partial_rule-nil py ParseStatus.success (x ∷ xs) warnings h =
    with_reason py _ (x ∷ xs) warnings (inl refl)
partial_rule-nil py ParseStatus.success [] (w ∷ ws) h = with_reason py _ [] (w ∷ ws) (inr refl)
partial_rule-nil py ParseStatus.success [] [] h = not_partial py _ [] [] refl

-- The quality section that replaces the one of an invalid event has its issues as warnings.
module _ (py : Python) (warnings : List String) (q : Dict Json) (i : ValidationIssue)
    (is : List ValidationIssue) where
  status_invalidated : get "status" (invalidated warnings q (i ∷ is)) ≡ str "invalid"
  unfolding invalidated get
  status_invalidated = rw (lookup-assign, lookup-assign)

  warnings_invalidated : truthy py (get "warnings" (invalidated warnings q (i ∷ is))) ≡ true
  unfolding invalidated get
  warnings_invalidated =
      rw lookup-assign
        (truthy-texts py (warnings ++ described (i ∷ is)) (simp (is_nil-append, and-false)))

  pub invalidated_rules :
      (label : Json)
      → (partial_rule py (some (invalidated warnings q (i ∷ is))) ≡ [])
        × (uncertainty_rule py label (some (invalidated warnings q (i ∷ is))) ≡ [])
  unfolding partial_rule uncertainty_rule
  invalidated_rules label = (rw status_invalidated refl, rw warnings_invalidated (ground arith))
