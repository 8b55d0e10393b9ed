-- ===== src/Normalization/Registry.antt =====
-- src/normalization/registry.py: a refused registration is `none`.
use ulpf_prism_sih.Prelude.{String, Bool, ◌&&◌, Option, none, some, List, [], ◌∷◌, if◌then◌else◌}
use ulpf_prism_sih.Dict
use ulpf_prism_sih.Dict.{Dict}
use ulpf_prism_sih.Python.Ordered.{sorted_texts}
use ulpf_prism_sih.Python.Words.{is_snake_case, is_semver}
use ulpf_prism_sih.Normalization.Models.{NormalizationMapping}

abbrev pub Mappings : Type 0
Mappings = Dict NormalizationMapping

add : Mappings → NormalizationMapping → Option NormalizationMapping → Option Mappings
add r m (some old) = none
add r m none = some (Dict.assign m.source_pack_id m r)

-- `register`: the first argument says whether the mapping's `map` is callable
unfoldable pub register : Bool → NormalizationMapping → Mappings → Option Mappings
unfolding add
register is_callable m r =
    if is_snake_case m.source_pack_id && is_semver m.version && is_callable
    then add r m (Dict.lookup m.source_pack_id r)
    else none

-- `get`
unfoldable pub get : Option String → Mappings → Option NormalizationMapping
get none r = none
get (some id) r = Dict.lookup id r

keys : Mappings → List String
keys [] = []
keys ((k, m) ∷ r) = k ∷ keys r

-- `source_pack_ids`
unfoldable pub source_pack_ids : Mappings → List String
unfolding keys
source_pack_ids r = sorted_texts (keys r)
