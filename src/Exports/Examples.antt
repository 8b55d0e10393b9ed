-- ===== src/Exports/Examples.antt =====
-- The theorems about exports at two events.
use Prim.Native.String.{◌++◌ as append}
use ulpf_prism_sih.Prelude.{true, false, Option, none, some, List, [], ◌∷◌, ◌≡◌, refl}
use ulpf_prism_sih.Dict
use ulpf_prism_sih.Dict.{Dict}
use ulpf_prism_sih.Json.{Json, str, obj, end, field}
use ulpf_prism_sih.Samples.{platform}
use ulpf_prism_sih.Python.Sample.{python}
use ulpf_prism_sih.Exports.{
  Environment, ExportManifest, Files, selected, payload, export, verify_manifest,
}
use ulpf_prism_sih.Exports.Verified.{export-verify_manifest}

abbrev world : Environment
world = record {
  platform = platform;
  python = python;
  dumps = λ e. 123 ∷ 125 ∷ [];
  printed = λ m. [];
  fails = λ path. false;
  now = "1970-01-01T00:00:00+00:00";
}

abbrev events : List (Dict Json)
events = [] ∷ (("quality", obj (field "status" (str "partial") end)) ∷ []) ∷ []

abbrev valid : List (Dict Json)
valid = [] ∷ []

abbrev others : List (Dict Json)
others = (("quality", obj (field "status" (str "partial") end)) ∷ []) ∷ []

abbrev outcome : Option ExportManifest × Files
outcome = export world "lake" events []

abbrev manifest_or : ExportManifest → Option ExportManifest → ExportManifest
manifest_or d none = d
manifest_or d (some m) = m

abbrev nothing : ExportManifest
nothing = record {
  format = "";
  exported_at = "";
  total_events = 0;
  valid_events = 0;
  quarantine_events = 0;
  files = [];
}

came : outcome ≡ (some (manifest_or nothing outcome.0), outcome.1)
unfolding export selected ulpf_prism_sih.Exports.is_valid Dict.lookup
    ulpf_prism_sih.Exports.export_file ulpf_prism_sih.Exports.atomic_write
    ulpf_prism_sih.Exports.describe_file Dict.assign
came = refl

export-verify_manifest_example :
    verify_manifest platform some outcome.1 (manifest_or nothing outcome.0) ≡ true
export-verify_manifest_example = export-verify_manifest world some "lake" events [] refl refl came
