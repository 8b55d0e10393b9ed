-- ===== src/Storage/ClickHouse.antt =====
-- src/storage/clickhouse.py: the writes of the event store. The database is the rows of its two
-- tables, the oldest first; a row of the events table is kept as the event that it projects. The
-- validator of src/validation, the projection, which may raise, and the lossy decoding of a payload are
-- parameters. An insert that raises leaves its table as it was.
pub mod Counting
pub mod Single
use ulpf_prism_sih.Prelude.{
  ℕ, ◌+◌, String, Bool, true, false, not, ◌&&◌, ◌||◌, Option, none, some, List, [], ◌∷◌, ◌++◌, map,
  ltb, if◌then◌else◌, length, str_eq, Text, Bytes, codes,
}
use ulpf_prism_sih.Dict
use ulpf_prism_sih.Dict.{Dict}
use ulpf_prism_sih.Json.{Json, null, boolean, int, float, str, arr, obj, fields}

abbrev pub Event : Type 0
Event = Dict Json

pub record ValidationIssue : Type 0 where
  pub path : Text
  pub rule : Text

pub record Validation : Type 0 where
  pub valid : Bool
  pub issues : List ValidationIssue

pub record Checks : Type 0 where
  pub validate_event : Event → Validation
  -- does `map_unified_event` return?
  pub projects : Event → Bool
  -- `payload.decode("utf-8", errors="replace")`
  pub decode_replace : Bytes → String

-- What a quarantined row holds: an event, or the text of a payload that is none.
pub data Payload : Type 0 where
  event : Event → Payload
  undecoded : String → Payload

pub record QuarantineRow : Type 0 where
  pub payload : Payload
  pub error_codes : List Text

pub record WriteResult : Type 0 where
  pub accepted_count : ℕ
  pub valid_count : ℕ
  pub quarantine_count : ℕ
  pub failed_count : ℕ
  pub errors : List Text

pub record Tables : Type 0 where
  pub events : List Event
  pub quarantine : List QuarantineRow

-- Whether the insert into each table raises, with the text of the error.
pub record Faults : Type 0 where
  pub events_insert : Option Text
  pub quarantine_insert : Option Text

says_invalid : Option Json → Bool
says_invalid (some (str s)) = str_eq s "invalid"
says_invalid _ = false

-- `_object_section(event, "quality").get("status")`
quality_status : Option Json → Option Json
quality_status (some (obj fs)) = Dict.lookup "status" (fields fs)
quality_status _ = none

unfoldable pub is_invalid : Event → Bool
unfolding says_invalid quality_status
is_invalid e = says_invalid (quality_status (Dict.lookup "quality" e))

abbrev issue_code : ValidationIssue → Text
issue_code i = i.path ++ codes ":" ++ i.rule

unfoldable pub quarantine_row : Checks → Event → QuarantineRow
quarantine_row k e = record {
  payload = event e;
  error_codes =
      map issue_code (k.validate_event e).issues
      ++ (if is_invalid e then codes "$.quality.status:invalid" ∷ [] else []);
}

-- does the event go to the events table?
abbrev pub is_good : Checks → Event → Bool
is_good k e = (k.validate_event e).valid && not (is_invalid e)

-- The rows for the two tables.
abbrev pub Rows : Type 0
Rows = List Event × List QuarantineRow

place : Checks → Event → Rows → Option Rows
place k e (good, bad) =
    if is_good k e
    then (if k.projects e then some (e ∷ good, bad) else none)
    else some (good, quarantine_row k e ∷ bad)

infixl 5 ◌>>=◌
abbrev ◌>>=◌ {ℓ κ} : {A : Type ℓ} {B : Type κ} → Option A → (A → Option B) → Option B
none >>= k = none
some a >>= k = k a

-- the loop over the events; an exception of the projection is `none`
unfoldable pub split_rows : Checks → List Event → Option Rows
unfolding place
split_rows k [] = some ([], [])
split_rows k (e ∷ es) = do rows ← split_rows k es; place k e rows

-- The counters of the two inserts.
pub record Counts : Type 0 where
  pub inserted : ℕ
  pub failed : ℕ
  pub errors : List Text

-- `if rows: try: insert` with the answer of the client
insert {ℓ} : {A : Type ℓ} → Option Text → List A → List A → Counts × List A
insert fault [] table = (record { inserted = 0; failed = 0; errors = [] }, table)
insert none (r ∷ rs) table =
    (record { inserted = length (r ∷ rs); failed = 0; errors = [] }, table ++ r ∷ rs)
insert (some error) (r ∷ rs) table =
    (record { inserted = 0; failed = length (r ∷ rs); errors = error ∷ [] }, table)

insert_both : Faults → Option Rows → Tables → Option WriteResult × Tables
insert_both f none t = (none, t)
insert_both f (some (good, bad)) t =
    let (v, events) = insert f.events_insert good t.events in
    let (q, quarantine) = insert f.quarantine_insert bad t.quarantine in
    (
      some (record {
        accepted_count = v.inserted + q.inserted;
        valid_count = v.inserted;
        quarantine_count = q.inserted;
        failed_count = v.failed + q.failed;
        errors = v.errors ++ q.errors;
      }),
      record { events = events; quarantine = quarantine },
    )

-- `write_batch`
unfoldable pub write_batch : Checks → Faults → List Event → Tables → Option WriteResult × Tables
unfolding insert_both insert
write_batch k f events t = insert_both f (split_rows k events) t

-- the one row of `quarantine_payload`, with the answer of the client
unfoldable pub insert_quarantine : QuarantineRow → Option Text → Tables → WriteResult × Tables
insert_quarantine row none t = (
  record {
    accepted_count = 1;
    valid_count = 0;
    quarantine_count = 1;
    failed_count = 0;
    errors = [];
  },
  record t { quarantine = t.quarantine ++ row ∷ [] },
)
insert_quarantine row (some error) t = (
  record {
    accepted_count = 0;
    valid_count = 0;
    quarantine_count = 0;
    failed_count = 1;
    errors = error ∷ [];
  },
  t,
)

-- `quarantine_payload`
unfoldable pub quarantine_payload : Checks → Faults → Bytes → String → Tables → WriteResult × Tables
quarantine_payload k f payload error_code t =
    insert_quarantine
      (record {
        payload = undecoded (k.decode_replace payload);
        error_codes = codes error_code ∷ [];
      })
      f.quarantine_insert t
