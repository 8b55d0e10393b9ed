-- ===== src/Validation/Events.antt =====
-- src/validation/validate_unified_event.py. The JSON schema is a parameter: the structural issues
-- of an event.
use ulpf_prism_sih.Prelude.{ℕ, Option, none, some, List, ◌++◌, if◌then◌else◌}
use ulpf_prism_sih.Dict.{Dict}
use ulpf_prism_sih.Json.{Json, obj, fields}
use ulpf_prism_sih.Python.{Python}
use ulpf_prism_sih.Contracts.Platform.{Platform}
use ulpf_prism_sih.Validation.Issue.{ValidationIssue, canonical, is_valid}
use ulpf_prism_sih.Validation.Semantics.{validate_semantics}

module _ (p : Platform) (py : Python) (structure : Dict Json → List ValidationIssue) where
  -- `validate_event`
  unfoldable pub validate_event : Dict Json → List ValidationIssue
  validate_event event = canonical (structure event ++ validate_semantics p py event)

  -- `validate_file` on what reading the file and `json.loads` give; an error is `none`
  unfoldable pub validate_file : Option Json → Option (List ValidationIssue)
  validate_file (some (obj fs)) = some (validate_event (fields fs))
  validate_file _ = none

  abbrev exit_code : Option (List ValidationIssue) → ℕ
  exit_code none = 2
  exit_code (some is) = if is_valid is then 0 else 1

  -- `main`: its exit code
  unfoldable pub main : Option Json → ℕ
  unfolding validate_file
  main file = exit_code (validate_file file)
