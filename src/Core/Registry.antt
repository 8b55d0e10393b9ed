-- ===== src/Core/Registry.antt =====
-- core/registry.py: the source packs by priority, and the choice of the pack for an envelope.
pub mod Best
use mathlib.Core.Option
use ulpf_prism_sih.Prelude.{
  ℕ, String, Bool, true, false, Option, none, some, List, [], ◌∷◌, ltb, leb, if◌then◌else◌, str_eq,
}
use ulpf_prism_sih.Int.{ℤ, pos, negsuc, ltb_ℤ}
use ulpf_prism_sih.Contracts.RawEvent.{RawEventEnvelope}
use ulpf_prism_sih.Core.SourcePack.{
  SourcePack, Detection, verdict, confidence, unusable, detect_raised,
}

-- An entry of the pack directory, in the order of the names: no pack, one that fails to load with
-- a load or validation error, one that fails with any other exception, or a pack.
pub data DirEntry : Type 0 where
  no_pack broken crashing : DirEntry
  loads : SourcePack → DirEntry

-- The loop over the directory; only the load and validation errors are caught, and `none` is
-- another exception, which passes through.
unfoldable pub load_all : List DirEntry → Option (List SourcePack)
load_all [] = some []
load_all (no_pack ∷ more) = load_all more
load_all (broken ∷ more) = load_all more
load_all (crashing ∷ more) = none
load_all (loads p ∷ more) = Option.map (λ ps. p ∷ ps) (load_all more)

insert : SourcePack → List SourcePack → List SourcePack
insert p [] = p ∷ []
insert p (q ∷ qs) = if ltb_ℤ p.priority q.priority then q ∷ insert p qs else p ∷ q ∷ qs

-- `sort(key=priority, reverse=True)`, which is stable
unfoldable pub sort_by_priority : List SourcePack → List SourcePack
unfolding insert
sort_by_priority [] = []
sort_by_priority (p ∷ ps) = insert p (sort_by_priority ps)

-- `reload`; a missing directory leaves no packs
unfoldable pub reload : Option (List DirEntry) → Option (List SourcePack)
reload none = some []
reload (some entries) = Option.map sort_by_priority (load_all entries)

unfoldable pub get_pack : List SourcePack → String → Option SourcePack
get_pack [] id = none
get_pack (p ∷ ps) id = if str_eq p.pack_id id then some p else get_pack ps id

-- a `ValueError` and any exception of `detect` are caught, and pass the pack over
unfoldable pub matched : Detection → Bool
matched (verdict b) = b
matched (confidence (pos n)) = if leb n 1_000_000 then ltb 0 n else false
matched (confidence (negsuc n)) = false
matched unusable = false
matched detect_raised = false

-- `match`
unfoldable pub match : List SourcePack → RawEventEnvelope → Option SourcePack
match [] e = none
match (p ∷ ps) e = let rest = match ps e in if matched (p.detect e) then some p else rest
