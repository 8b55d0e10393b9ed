-- ===== src/Collection/Dedup.antt =====
-- src/collection/dedup.py: the bounded cache of recently seen hashes. The `OrderedDict` is the list
-- of its keys, the oldest first; the lock makes each call one step.
pub mod Recency
pub mod LastUses
use ulpf_prism_sih.Prelude.{
  ℕ, String, Bool, Option, none, some, List, [], ◌∷◌, ◌++◌, ltb, if◌then◌else◌, length, contains,
  without, ◌==◌,
}

pub record HashCache : Type 0 where
  pub entries : List String
  pub max_entries : ℕ

-- `ValueError` is `none`
unfoldable pub create : ℕ → Option HashCache
create n = if n == 0 then none else some (record { entries = []; max_entries = n })

-- `entries[h] = None`: an old key keeps its place, a new one goes to the end
unfoldable pub assign : String → List String → List String
assign h es = if contains h es then es else es ++ h ∷ []

unfoldable pub move_to_end : String → List String → List String
move_to_end h es = without h es ++ h ∷ []

-- `while len(entries) > max_entries: popitem(last=False)`
unfoldable pub evict : ℕ → List String → List String
evict most [] = []
evict most (e ∷ es) = if ltb most (length (e ∷ es)) then evict most es else e ∷ es

unfoldable pub check_and_add : HashCache → String → Bool × HashCache
check_and_add c h = (
  contains h c.entries,
  record c { entries = evict c.max_entries (move_to_end h (assign h c.entries)) },
)

unfoldable pub size : HashCache → ℕ
size c = length c.entries
