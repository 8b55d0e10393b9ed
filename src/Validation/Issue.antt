-- ===== src/Validation/Issue.antt =====
-- src/validation/result.py: an issue, ordered by its fields in their order.
use Prim.Native.Nat.{Ordering}
use Prim.Native.String.{compare}
use ulpf_prism_sih.Prelude.{String, Bool, true, false, List, [], ◌∷◌}
use ulpf_prism_sih.Python.Ordered.{sorted_set}

pub record ValidationIssue : Type 0 where
  pub path : String
  pub rule : String
  pub message : String

abbrev after : Ordering → Ordering → Ordering
after Ordering.eq o = o
after Ordering.lt o = Ordering.lt
after Ordering.gt o = Ordering.gt

unfoldable pub order : ValidationIssue → ValidationIssue → Ordering
order a b =
    after (compare a.path b.path) (after (compare a.rule b.rule) (compare a.message b.message))

-- `tuple(sorted(set(issues)))`
unfoldable pub canonical : List ValidationIssue → List ValidationIssue
unfolding sorted_set order
canonical = sorted_set order

-- `ValidationResult.valid`
abbrev pub is_valid : List ValidationIssue → Bool
is_valid [] = true
is_valid (i ∷ is) = false
