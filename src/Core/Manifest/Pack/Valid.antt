-- ===== src/Core/Manifest/Pack/Valid.antt =====
-- Valid manifests make packs.
use ulpf_prism_sih.Prelude.{
  String, Bool, true, false, ◌&&◌, Option, some, List, [], ◌∷◌, ◌≡◌, refl, inl, inr, Bool-cases,
  none_absurd,
}
use ulpf_prism_sih.Dict.{Dict}
use ulpf_prism_sih.Int.{ℤ}
use ulpf_prism_sih.Json.{Json, null, boolean, int, float, str, arr, obj, items, fields}
use ulpf_prism_sih.Python.{get}
use ulpf_prism_sih.Core.Parsers.{option}
use ulpf_prism_sih.Core.Manifest.{
  DetectionRule, detection_rule, FieldRule, ManifestPack, validate_manifest, detection_rules,
  field_rules, field_rule, is_filled, is_text, all_mappings, is_integer, are_mappings, all_fields,
  are_valid,
}
use ulpf_prism_sih.Core.Manifest.Pack.{build, rules_of, fields_of, sections, create, load}

Filled : Json → Type 0
Filled v = (s : String) × (v ≡ str s) × (is_filled (str s) ≡ true)

filled : (v : Json) → is_filled v ≡ true → Filled v
unfolding Filled
filled (str s) h = (s, refl, h)
filled null h = cc
filled (boolean b) h = cc
filled (int n) h = cc
filled (float x) h = cc
filled (arr vs) h = cc
filled (obj fs) h = cc

a_text : (v : Json) → is_text v ≡ true → (s : String) × (v ≡ str s)
a_text (str s) h = (s, refl)
a_text null h = cc
a_text (boolean b) h = cc
a_text (int n) h = cc
a_text (float x) h = cc
a_text (arr vs) h = cc
a_text (obj fs) h = cc

an_integer : (v : Json) → is_integer v ≡ true → (n : ℤ) × (v ≡ int n)
an_integer (int n) h = (n, refl)
an_integer null h = cc
an_integer (boolean b) h = cc
an_integer (str s) h = cc
an_integer (float x) h = cc
an_integer (arr vs) h = cc
an_integer (obj fs) h = cc

detection_rules_total :
    (vs : List Json)
    → all_mappings vs ≡ true
    → (rs : List DetectionRule) × (detection_rules vs ≡ some rs)
unfolding detection_rules
detection_rules_total [] h = ([], refl)
detection_rules_total (obj fs ∷ vs) h =
    let (rs, e) = detection_rules_total vs h in (detection_rule (fields fs) ∷ rs, rw e refl)
detection_rules_total (null ∷ vs) h = cc
detection_rules_total (boolean b ∷ vs) h = cc
detection_rules_total (int n ∷ vs) h = cc
detection_rules_total (float x ∷ vs) h = cc
detection_rules_total (str s ∷ vs) h = cc
detection_rules_total (arr ws ∷ vs) h = cc

rules_of_total :
    (v : Json) → are_mappings v ≡ true → (rs : List DetectionRule) × (rules_of v ≡ some rs)
unfolding rules_of
rules_of_total (arr vs) h = detection_rules_total (items vs) h
rules_of_total null h = cc
rules_of_total (boolean b) h = cc
rules_of_total (int n) h = cc
rules_of_total (float x) h = cc
rules_of_total (str s) h = cc
rules_of_total (obj fs) h = cc

and_true : (a b : Bool) → (a && b) ≡ true → (a ≡ true) × (b ≡ true)
and_true true true h = (refl, refl)
and_true true false h = cc
and_true false b h = cc

field_rule_total :
    (v w : Json) (d : Dict Json)
    → is_text v ≡ true
    → is_text w ≡ true
    → (r : FieldRule) × (field_rule v w d ≡ some r)
unfolding field_rule
field_rule_total v w d h k =
    let (s, e) = a_text v h in
    let (t, f) = a_text w k in
    (
      record {
        name = s;
        source = t;
        default = get "default" d;
        required = option "required" (boolean false) d;
      },
      rw (e, f) refl,
    )

field_rules_total :
    (vs : List Json) → all_fields vs ≡ true → (rs : List FieldRule) × (field_rules vs ≡ some rs)
unfolding field_rules
field_rules_total [] h = ([], refl)
field_rules_total (obj fs ∷ vs) h =
    let (a, b) = and_true _ _ h in
    let (n, s) = and_true _ _ a in
    let (r, e) =
      field_rule_total (get "name" (fields fs)) (get "source" (fields fs)) (fields fs) n s in
    let (rs, f) = field_rules_total vs b in (r ∷ rs, rw (e, f) refl)
field_rules_total (null ∷ vs) h = cc
field_rules_total (boolean b ∷ vs) h = cc
field_rules_total (int n ∷ vs) h = cc
field_rules_total (float x ∷ vs) h = cc
field_rules_total (str s ∷ vs) h = cc
field_rules_total (arr ws ∷ vs) h = cc

-- The attributes of a pack that its users read are filled texts.
abbrev pub IsFilled : ManifestPack → Type 0
IsFilled pack =
    (is_filled (str pack.vendor) ≡ true)
    × (is_filled (str pack.product) ≡ true)
    × (is_filled (str pack.pack_version) ≡ true)
    × (is_filled (str pack.format_type) ≡ true)

Loaded : Option ManifestPack → Type 0
Loaded o = (pack : ManifestPack) × (o ≡ some pack) × IsFilled pack

build-Loaded :
    (directory : String) (pack : Dict Json) (v p w n t : Json) (format : Dict Json)
    (o : Option (List DetectionRule)) (q : Option (List FieldRule))
    → Filled v
    → Filled p
    → Filled w
    → ((i : ℤ) × (n ≡ int i))
    → Filled t
    → ((rs : List DetectionRule) × (o ≡ some rs))
    → ((rs : List FieldRule) × (q ≡ some rs))
    → Loaded (build directory pack v p w n t format o q)
unfolding build Loaded Filled
build-Loaded directory pack v p w n t format o q (a, va, fa) (b, vb, fb) (c, vc, fc) (i, vi)
      (d, vd, fd) (rs, vr) (fs, vf) =
    rw (va, vb, vc, vi, vd, vr, vf) (_, refl, (fa, fb, fc, fd))

sections-Loaded :
    (directory : String) (a b c d : Json)
    → are_valid a b c d ≡ true
    → Loaded (sections directory a b c d)
unfolding sections fields_of
sections-Loaded directory (obj pack) (obj detection) (obj format) (arr fs) h =
    let (h, all_fs) = and_true _ _ h in
    let (h, type) = and_true _ _ h in
    let (h, rules) = and_true _ _ h in
    let (h, priority) = and_true _ _ h in
    let (h, version) = and_true _ _ h in
    let (h, product) = and_true _ _ h in
    let (h, vendor) = and_true _ _ h in
    build-Loaded directory (fields pack) _ _ _ _ _ (fields format) _ _ (filled _ vendor)
      (filled _ product) (filled _ version) (an_integer _ priority) (filled _ type)
      (rules_of_total _ rules) (field_rules_total (items fs) all_fs)
sections-Loaded directory a b c d h = cc

-- A manifest that `validate_manifest` accepts makes a pack: no later step of the constructor raises,
-- and the pack's vendor, product, version and format are filled texts.
pub load-IsFilled :
    (directory : String) (manifest : Json) {m : Dict Json}
    → validate_manifest manifest ≡ some m
    → (pack : ManifestPack) × (load directory manifest ≡ some pack) × IsFilled pack
unfolding load validate_manifest create Loaded
load-IsFilled directory (obj fs) {m} h =
    let d = fields fs in
    let valid = are_valid (get "pack" d) (get "detection" d) (get "format" d) (get "fields" d) in
    elim (Bool-cases valid) [
      | inl q ↦ rw q (sections-Loaded directory _ _ _ _ q)
      | inr q ↦ none_absurd m (rw q at h)
    ]
load-IsFilled directory null h = none_absurd _ h
load-IsFilled directory (boolean b) h = none_absurd _ h
load-IsFilled directory (int n) h = none_absurd _ h
load-IsFilled directory (float x) h = none_absurd _ h
load-IsFilled directory (str s) h = none_absurd _ h
load-IsFilled directory (arr vs) h = none_absurd _ h
