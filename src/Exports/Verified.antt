-- ===== src/Exports/Verified.antt =====
-- An export's manifest verifies against the files that it wrote.
use Prim.Native.String.{◌++◌ as append}
use mathlib.Core.Path.{subst}
use ulpf_prism_sih.Prelude.{
  ◌+◌, String, Bool, true, false, Option, none, some, List, ◌≡◌, ◌⊎◌, refl, ◌∙◌, arith, inl, inr,
  if◌then◌else◌, str_eq_refl, length, Bytes,
}
use ulpf_prism_sih.Dict
use ulpf_prism_sih.Dict.{Dict, lookup-assign}
use ulpf_prism_sih.Json.{Json}
use ulpf_prism_sih.Exports.{
  ExportFile, ExportManifest, Environment, Files, selected, schema_version, payload, of_content,
  describe_file, atomic_write, described, export_file, manifest_written, manifest_of, finished,
  second, exported, export, sum_rows, content_of, matches, files_match, verify_manifest,
}
use ulpf_prism_sih.Exports.Partition.{str_eq-append, selected-length}

module _ (w : Environment) (resolve : String → Option String) where
  abbrev file_of : String → List (Dict Json) → Bool → ExportFile
  file_of path records quarantine = record {
    path = path;
    rows = length records;
    bytes = length (payload w records);
    sha256 = w.platform.hexdigest (payload w records);
    schema_version = schema_version w.python records;
    format = "jsonl";
    quarantine = quarantine;
  }

  describe_file-assign :
      (path : String) (records : List (Dict Json)) (quarantine : Bool) (files : Files)
      → describe_file w
          (Dict.assign path (payload w records) files)
          path
          (length records)
          (schema_version w.python records)
          quarantine
        ≡ some (file_of path records quarantine)
  unfolding describe_file of_content
  describe_file-assign path records quarantine files =
      let e : Dict.lookup path (Dict.assign path (payload w records) files)
          ≡ some (payload w records) =
        lookup-assign path path (payload w records) files ∙ rw (str_eq_refl path) refl in
      rw e refl

  described-cases :
      (path : String) (records : List (Dict Json)) (quarantine b : Bool) (files : Files)
      → let r =
          described w path records quarantine
            (if b then (false, files) else (true, Dict.assign path (payload w records) files)) in
        (r ≡ (none, files))
        ⊎ (r ≡ (some (file_of path records quarantine), Dict.assign path (payload w records) files))
  unfolding described
  described-cases path records quarantine true files = inl refl
  described-cases path records quarantine false files =
      inr (rw (describe_file-assign path records quarantine files) refl)

  export_file-cases :
      (path : String) (records : List (Dict Json)) (quarantine : Bool) (files : Files)
      → (export_file w path records quarantine files ≡ (none, files))
        ⊎ (export_file w path records quarantine files
            ≡ (some (file_of path records quarantine), Dict.assign path (payload w records) files))
  unfolding export_file atomic_write
  export_file-cases path records quarantine files =
      described-cases path records quarantine (w.fails path) files

  Verifies : Option ExportManifest × Files → Type 0
  Verifies (none, files) = Unit
  Verifies (some m, files) = verify_manifest w.platform resolve files m ≡ true

  -- the lookups of the two files behind the write of the manifest
  matches-file_of :
      (path : String) (records : List (Dict Json)) (quarantine : Bool) (files : Files)
      → resolve path ≡ some path
      → Dict.lookup path files ≡ some (payload w records)
      → matches w.platform (file_of path records quarantine) (content_of files (resolve path))
        ≡ true
  matches-file_of path records quarantine files r e =
      rw r (rw e (rw (str_eq_refl (w.platform.hexdigest (payload w records))) (ground arith)))

  module _ (prefix : String) where
    abbrev normalized : String
    normalized = append prefix "_normalized.jsonl"

    abbrev quarantined : String
    quarantined = append prefix "_quarantine.jsonl"

    abbrev manifest : String
    manifest = append prefix "_manifest.v2.json"

    verify_manifest-manifest_of :
        (events v q : List (Dict Json)) (files : Files)
        → length v + length q ≡ length events
        → resolve normalized ≡ some normalized
        → resolve quarantined ≡ some quarantined
        → Dict.lookup normalized files ≡ some (payload w v)
        → Dict.lookup quarantined files ≡ some (payload w q)
        → verify_manifest w.platform resolve files
            (manifest_of w events v q (file_of normalized v false) (file_of quarantined q true))
          ≡ true
    unfolding verify_manifest sum_rows files_match
    verify_manifest-manifest_of events v q files h r t a b =
        rw (matches-file_of normalized v false files r a)
          (rw (matches-file_of quarantined q true files t b) (ground (arith, h)))

    -- the files behind the last write
    abbrev after : List (Dict Json) → List (Dict Json) → Bytes → Files → Files
    after v q m files =
        Dict.assign manifest m
          (Dict.assign quarantined (payload w q) (Dict.assign normalized (payload w v) files))

    lookup-after_normalized :
        (v q : List (Dict Json)) (m : Bytes) (files : Files)
        → Dict.lookup normalized (after v q m files) ≡ some (payload w v)
    lookup-after_normalized v q m files = rw lookup-assign (
        rw (str_eq-append prefix "_manifest.v2.json" "_normalized.jsonl" refl) (
          rw lookup-assign (
            rw (str_eq-append prefix "_quarantine.jsonl" "_normalized.jsonl" refl)
              (rw lookup-assign (rw (str_eq_refl normalized) refl)))))

    lookup-after_quarantined :
        (v q : List (Dict Json)) (m : Bytes) (files : Files)
        → Dict.lookup quarantined (after v q m files) ≡ some (payload w q)
    lookup-after_quarantined v q m files = rw lookup-assign (
        rw (str_eq-append prefix "_manifest.v2.json" "_quarantine.jsonl" refl)
          (rw lookup-assign (rw (str_eq_refl quarantined) refl)))

    manifest_written-Verifies :
        (m : ExportManifest) (b : Bool) (files files' : Files)
        → verify_manifest w.platform resolve files' m ≡ true
        → Verifies (manifest_written m (if b then (false, files) else (true, files')))
    unfolding manifest_written Verifies
    manifest_written-Verifies m true files files' h = tt
    manifest_written-Verifies m false files files' h = h

    finished-Verifies :
        (events v q : List (Dict Json)) (files : Files) (x : Option ExportFile × Files)
        → length v + length q ≡ length events
        → resolve normalized ≡ some normalized
        → resolve quarantined ≡ some quarantined
        → (x ≡ (none, Dict.assign normalized (payload w v) files))
          ⊎ (x ≡ (
            some (file_of quarantined q true),
            Dict.assign quarantined (payload w q) (Dict.assign normalized (payload w v) files),
          ))
        → Verifies (finished w prefix events v q (file_of normalized v false) x)
    unfolding finished Verifies atomic_write
    finished-Verifies events v q files x h r t (inl e) = rw e tt
    finished-Verifies events v q files x h r t (inr e) = rw e (
        manifest_written-Verifies _ (w.fails manifest) _ _ (
          verify_manifest-manifest_of events v q (after v q _ files) h r t
            (lookup-after_normalized v q _ files) (lookup-after_quarantined v q _ files)))

    second-Verifies :
        (events v q : List (Dict Json)) (files : Files) (x : Option ExportFile × Files)
        → length v + length q ≡ length events
        → resolve normalized ≡ some normalized
        → resolve quarantined ≡ some quarantined
        → (x ≡ (none, files))
          ⊎ (x ≡ (some (file_of normalized v false), Dict.assign normalized (payload w v) files))
        → Verifies (second w prefix events v q x)
    unfolding second Verifies
    second-Verifies events v q files x h r t (inl e) = rw e tt
    second-Verifies events v q files x h r t (inr e) = rw e (
        finished-Verifies events v q files _ h r t
          (export_file-cases quarantined q true (Dict.assign normalized (payload w v) files)))

    exported-Verifies :
        (events : List (Dict Json)) (a b : Option (List (Dict Json))) (files : Files)
        → ((v q : List (Dict Json)) → a ≡ some v → b ≡ some q → length v + length q ≡ length events)
        → resolve normalized ≡ some normalized
        → resolve quarantined ≡ some quarantined
        → Verifies (exported w prefix events a b files)
    unfolding exported Verifies
    exported-Verifies events (some v) (some q) files h r t =
        second-Verifies events v q files _ (h v q refl refl) r t
          (export_file-cases normalized v false files)
    exported-Verifies events none b files h r t = tt
    exported-Verifies events (some v) none files h r t = tt

    -- The manifest that an export returns verifies against the files that the export leaves: the rows
    -- of its files are all events, the valid ones and the others, and each file has the recorded size
    -- and SHA-256; provided that the two files' paths resolve to themselves below the root. Writes may
    -- fail.
    pub export-verify_manifest :
        (events : List (Dict Json)) (files : Files) {m : ExportManifest} {files' : Files}
        → resolve normalized ≡ some normalized
        → resolve quarantined ≡ some quarantined
        → export w prefix events files ≡ (some m, files')
        → verify_manifest w.platform resolve files' m ≡ true
    unfolding export Verifies
    export-verify_manifest events files r t h = subst Verifies h (
        exported-Verifies events (selected true events) (selected false events) files
          (λ v q i j. selected-length events i j) r t)
