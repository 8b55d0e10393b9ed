-- ===== src/Exports.antt =====
-- src/exports: the JSON Lines export (jsonl.py) and its manifest (models.py). The files of the base
-- directory are a dictionary by path; a write that fails leaves them alone, as a rename does.
mod Partition
pub mod Lines
pub mod Verified
mod Examples
use Prim.Native.String.{◌++◌ as append}
use ulpf_prism_sih.Prelude.{
  ℕ, ◌+◌, String, Bool, true, false, not, ◌&&◌, Option, none, some, List, [], ◌∷◌, ◌++◌, ◌==◌,
  if◌then◌else◌, str_eq, length, Bytes,
}
use ulpf_prism_sih.Dict
use ulpf_prism_sih.Dict.{Dict}
use ulpf_prism_sih.Json.{Json, str, obj, fields}
use ulpf_prism_sih.Python.{Python, str_of, get}
use ulpf_prism_sih.Contracts.Platform.{Platform}

pub record ExportFile : Type 0 where
  pub path : String
  pub rows : ℕ
  pub bytes : ℕ
  pub sha256 : String
  pub schema_version : String
  pub format : String
  pub quarantine : Bool

pub record ExportManifest : Type 0 where
  pub format : String
  pub exported_at : String
  pub total_events : ℕ
  pub valid_events : ℕ
  pub quarantine_events : ℕ
  pub files : List ExportFile

abbrev is_text : String → Option Json → Bool
is_text s none = str_eq s "valid"
is_text s (some (str t)) = str_eq t s
is_text s (some v) = false

-- `_is_valid`; a quality that is no dictionary raises
unfoldable pub is_valid : Dict Json → Option Bool
is_valid event = elim (Dict.lookup "quality" event) [
  | none ↦ some true
  | some (obj fs) ↦ some (is_text "valid" (Dict.lookup "status" (fields fs)))
  | some v ↦ none
]

abbrev kept : Bool → Dict Json → Option Bool → Option (List (Dict Json)) → Option (List (Dict Json))
kept wanted e (some b) (some rest) = some (if (if wanted then b else not b) then e ∷ rest else rest)
kept wanted e _ _ = none

-- the events that are valid, or that are not
unfoldable pub selected : Bool → List (Dict Json) → Option (List (Dict Json))
selected wanted [] = some []
selected wanted (e ∷ es) = kept wanted e (is_valid e) (selected wanted es)

abbrev agree : String → List String → Bool
agree v [] = true
agree v (w ∷ ws) = str_eq v w && agree v ws

versions : Python → List (Dict Json) → List String
versions py [] = []
versions py (e ∷ es) =
    (elim (Dict.lookup "schema_version" e) [ none ↦ "unknown" | some v ↦ str_of py v ])
    ∷ versions py es

one_version : List String → String
one_version [] = "unknown"
one_version (v ∷ vs) = if agree v vs then v else "mixed"

-- `_schema_version`
unfoldable pub schema_version : Python → List (Dict Json) → String
unfolding versions one_version
schema_version py events = one_version (versions py events)

abbrev pub Files : Type 0
Files = Dict Bytes

-- `json.dumps` of an event, in UTF-8, and of a manifest; the outcomes of the writes by path
pub record Environment : Type 0 where
  pub platform : Platform
  pub python : Python
  pub dumps : Dict Json → Bytes
  pub printed : ExportManifest → Bytes
  pub fails : String → Bool
  pub now : String

-- the lines of the events
unfoldable pub payload : Environment → List (Dict Json) → Bytes
payload w [] = []
payload w (e ∷ es) = w.dumps e ++ 10 ∷ payload w es

-- what `describe_file` makes of the content that it reads
of_content : Environment → String → ℕ → String → Bool → Option Bytes → Option ExportFile
of_content w path rows version quarantine none = none
of_content w path rows version quarantine (some content) = some (record {
  path = path;
  rows = rows;
  bytes = length content;
  sha256 = w.platform.hexdigest content;
  schema_version = version;
  format = "jsonl";
  quarantine = quarantine;
})

-- `describe_file`; a file that cannot be read raises
unfoldable pub describe_file : Environment → Files → String → ℕ → String → Bool → Option ExportFile
unfolding of_content
describe_file w files path rows version quarantine =
    of_content w path rows version quarantine (Dict.lookup path files)

-- `atomic_write`
unfoldable pub atomic_write : Environment → String → Bytes → Files → Bool × Files
atomic_write w path content files =
    if w.fails path then (false, files) else (true, Dict.assign path content files)

described :
    Environment → String → List (Dict Json) → Bool → Bool × Files → Option ExportFile × Files
described w path records quarantine (false, files) = (none, files)
described w path records quarantine (true, files) = (
  describe_file w files path (length records) (schema_version w.python records) quarantine,
  files,
)

-- one round of the loop of `export`
unfoldable pub export_file :
    Environment → String → List (Dict Json) → Bool → Files → Option ExportFile × Files
unfolding described
export_file w path records quarantine files =
    described w path records quarantine (atomic_write w path (payload w records) files)

-- `write_manifest`, and the manifest as the result
manifest_written : ExportManifest → Bool × Files → Option ExportManifest × Files
manifest_written m (false, files) = (none, files)
manifest_written m (true, files) = (some m, files)

abbrev pub manifest_of :
    Environment
    → List (Dict Json)
    → List (Dict Json)
    → List (Dict Json)
    → ExportFile
    → ExportFile
    → ExportManifest
manifest_of w events valid quarantine a b = record {
  format = "jsonl";
  exported_at = w.now;
  total_events = length events;
  valid_events = length valid;
  quarantine_events = length quarantine;
  files = a ∷ b ∷ [];
}

finished :
    Environment
    → String
    → List (Dict Json)
    → List (Dict Json)
    → List (Dict Json)
    → ExportFile
    → Option ExportFile × Files
    → Option ExportManifest × Files
finished w prefix events valid quarantine a (none, files) = (none, files)
finished w prefix events valid quarantine a (some b, files) =
    let m = manifest_of w events valid quarantine a b in
    manifest_written m (atomic_write w (append prefix "_manifest.v2.json") (w.printed m) files)

second :
    Environment
    → String
    → List (Dict Json)
    → List (Dict Json)
    → List (Dict Json)
    → Option ExportFile × Files
    → Option ExportManifest × Files
second w prefix events valid quarantine (none, files) = (none, files)
second w prefix events valid quarantine (some a, files) =
    finished w prefix events valid quarantine a
      (export_file w (append prefix "_quarantine.jsonl") quarantine true files)

exported :
    Environment
    → String
    → List (Dict Json)
    → Option (List (Dict Json))
    → Option (List (Dict Json))
    → Files
    → Option ExportManifest × Files
exported w prefix events (some valid) (some quarantine) files =
    second w prefix events valid quarantine
      (export_file w (append prefix "_normalized.jsonl") valid false files)
exported w prefix events _ _ files = (none, files)

-- `JsonlExporter.export`; a call that raises returns `none`
unfoldable pub export :
    Environment → String → List (Dict Json) → Files → Option ExportManifest × Files
unfolding manifest_written finished second exported
export w prefix events files =
    exported w prefix events (selected true events) (selected false events) files

abbrev counts : Option Bool → Bool → Bool
counts none quarantine = true
counts (some true) quarantine = quarantine
counts (some false) quarantine = not quarantine

-- the sum of the rows of all files, or of those of one kind
unfoldable pub sum_rows : Option Bool → List ExportFile → ℕ
sum_rows wanted [] = 0
sum_rows wanted (f ∷ fs) = (if counts wanted f.quarantine then f.rows else 0) + sum_rows wanted fs

-- a file's place, if it is below the root, and its content
abbrev content_of : Files → Option String → Option Bytes
content_of files none = none
content_of files (some path) = Dict.lookup path files

abbrev matches : Platform → ExportFile → Option Bytes → Bool
matches p f none = false
matches p f (some content) = length content == f.bytes && str_eq (p.hexdigest content) f.sha256

unfoldable pub files_match : Platform → (String → Option String) → Files → List ExportFile → Bool
files_match p resolve files [] = true
files_match p resolve files (f ∷ fs) =
    matches p f (content_of files (resolve f.path)) && files_match p resolve files fs

-- `verify_manifest`; `resolve` gives a path's place below the root, if it has one
unfoldable pub verify_manifest : Platform → (String → Option String) → Files → ExportManifest → Bool
unfolding sum_rows files_match
verify_manifest p resolve files m =
    m.total_events == m.valid_events + m.quarantine_events
    && sum_rows none m.files == m.total_events
    && sum_rows (some true) m.files == m.quarantine_events
    && sum_rows (some false) m.files == m.valid_events
    && files_match p resolve files m.files
