-- ===== src/Storage/Examples.antt =====
-- The theorems about the store at concrete payloads.
use ulpf_prism_sih.Prelude.{true, none, some, [], ◌∷◌, codes}
use ulpf_prism_sih.Json.{str, obj, end, field, fields, Fields}
use ulpf_prism_sih.Storage.ClickHouse.{Checks, Faults, Tables, write_batch}
use ulpf_prism_sih.Storage.ClickHouse.Counting.{AccountsFor, write_batch-AccountsFor}
use ulpf_prism_sih.Storage.Sink.{Loads, process}
use ulpf_prism_sih.Storage.Sink.Durable.{IsDurable, process-IsDurable}
use ulpf_prism_sih.Samples.{line}

abbrev checks : Checks
checks = record {
  validate_event = λ e. record { valid = true; issues = [] };
  projects = λ e. true;
  decode_replace = λ raw. "deny";
}

abbrev full : Faults
full = record { events_insert = some (codes "too many parts"); quarantine_insert = none }

abbrev empty_tables : Tables
empty_tables = record { events = []; quarantine = [] }

abbrev bad_quality : Fields
bad_quality = field "quality" (obj (field "status" (str "invalid") end)) end

abbrev loads : Loads
loads payload = some (obj bad_quality)

write_batch-AccountsFor_example :
    AccountsFor empty_tables 2 (write_batch checks full (fields bad_quality ∷ [] ∷ []) empty_tables)
write_batch-AccountsFor_example =
    write_batch-AccountsFor checks full (fields bad_quality ∷ [] ∷ []) empty_tables

process-IsDurable_example :
    IsDurable checks line (loads line) empty_tables (process checks full loads line empty_tables)
process-IsDurable_example = process-IsDurable checks full loads line empty_tables
