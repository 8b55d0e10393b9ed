-- ===== src/Core/Examples.antt =====
-- The theorems about the core at concrete packs.
use ulpf_prism_sih.Prelude.{◌≡◌, refl, inl, inr, true, Option, some, List, [], ◌∷◌, arith}
use ulpf_prism_sih.Contracts.ParsedEvent.{verify_event_identity}
use ulpf_prism_sih.Core.SourcePack.{SourcePack}
use mathlib.Core.List.{Perm}
use ulpf_prism_sih.Int.{ℤ, ◌≤ℤ◌}
use ulpf_prism_sih.Contracts.RawEvent.{envelope_of}
use ulpf_prism_sih.Contracts.ParsedEvent.{unrecognized}
use ulpf_prism_sih.Core.Engine.{process}
use ulpf_prism_sih.Core.Engine.Identity.{MakesValidEvents, RefersTo, process-RefersTo}
use ulpf_prism_sih.Core.Registry.{
  DirEntry, loads, broken, no_pack, reload, load_all, sort_by_priority, matched, match,
}
use ulpf_prism_sih.Core.Registry.Best.{match_best, IsSorted, of_priority, reload-packs_in}
use ulpf_prism_sih.Samples.{good_pack, deaf_pack, bad_pack, envelope, event}

abbrev directory : Option (List DirEntry)
directory = some (no_pack ∷ loads good_pack ∷ broken ∷ loads deaf_pack ∷ loads bad_pack ∷ [])

abbrev by_priority : List SourcePack
by_priority = deaf_pack ∷ bad_pack ∷ good_pack ∷ []

reload-directory : reload directory ≡ some by_priority
unfolding reload load_all sort_by_priority
reload-directory = refl

chosen : match by_priority envelope ≡ some bad_pack
unfolding match matched
chosen = refl

match_best_example :
    (matched (bad_pack.detect envelope) ≡ true) × (good_pack.priority ≤ℤ bad_pack.priority)
match_best_example =
    match_best directory by_priority envelope bad_pack good_pack reload-directory chosen
      (inr (inr (inl refl))) (unfold matched in refl)

reload-packs_in_example :
    (packs : List SourcePack) × (reload directory ≡ some packs)
    × Perm packs (good_pack ∷ deaf_pack ∷ bad_pack ∷ [])
    × IsSorted packs
    × ((z : ℤ) → of_priority z packs ≡ of_priority z (good_pack ∷ deaf_pack ∷ bad_pack ∷ []))
reload-packs_in_example =
    reload-packs_in (no_pack ∷ loads good_pack ∷ broken ∷ loads deaf_pack ∷ loads bad_pack ∷ [])
      refl

valid_event : verify_event_identity event ≡ true
unfolding verify_event_identity unrecognized envelope_of
valid_event = refl

good_pack_valid : MakesValidEvents good_pack
good_pack_valid e other_event h = ground (arith, valid_event)

bad_pack_valid : MakesValidEvents bad_pack
bad_pack_valid e other_event h = cc

process-RefersTo_example : RefersTo envelope (process (bad_pack ∷ good_pack ∷ []) 3000000 envelope)
process-RefersTo_example =
    process-RefersTo (bad_pack ∷ good_pack ∷ []) 3000000 envelope
      (bad_pack_valid, (good_pack_valid, tt))
