-- ===== src/Python/Ordered.antt =====
-- `sorted(set(xs))`: the elements in order, each once; and `list(dict.fromkeys(xs))`: each once, in
-- the order of its first occurrence.
pub mod Members
use Prim.Native.Nat.{Ordering}
use Prim.Native.String.{compare}
use ulpf_prism_sih.Prelude.{String, List, [], ◌∷◌, contains, if◌then◌else◌}

module _ {A : Type 0} (order : A → A → Ordering) where
  unfoldable pub insert : A → List A → List A
  insert x [] = x ∷ []
  insert x (y ∷ ys) = elim (order x y) [
    | Ordering.lt ↦ x ∷ y ∷ ys
    | Ordering.eq ↦ y ∷ ys
    | Ordering.gt ↦ y ∷ insert x ys
  ]

  unfoldable pub sorted_set : List A → List A
  unfolding insert
  sorted_set [] = []
  sorted_set (x ∷ xs) = insert x (sorted_set xs)

-- on texts
unfoldable pub sorted_texts : List String → List String
unfolding sorted_set
sorted_texts = sorted_set compare

-- the texts already met stand in the first list
unfoldable pub first_seen : List String → List String → List String
first_seen met [] = []
first_seen met (x ∷ xs) =
    let rest = first_seen (x ∷ met) xs in
    let skipped = first_seen met xs in if contains x met then skipped else x ∷ rest

unfoldable pub unique : List String → List String
unfolding first_seen
unique = first_seen []
