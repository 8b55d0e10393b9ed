-- ===== src/Collection/Archive.antt =====
-- src/collection/archive.py: the raw archive, two files for each event. A file system is the
-- contents of the files by event id; a write may fail.
pub mod RoundTrip
use ulpf_prism_sih.Prelude.{
  String, Bool, true, false, ◌&&◌, Option, none, some, List, [], ◌∷◌, ◌==◌, if◌then◌else◌, Bytes,
  str_eq,
}
use ulpf_prism_sih.Dict
use ulpf_prism_sih.Dict.{Dict}
use ulpf_prism_sih.Contracts.Platform.{Platform}
use ulpf_prism_sih.Contracts.RawEvent.{RawEventEnvelope, raw_bytes}

-- The metadata file holds the envelope without its payload.
pub record RawEventArchive : Type 0 where
  pub raw_files : Dict Bytes
  pub meta_files : Dict RawEventEnvelope

-- which of the two writes of a `store` fail, with the type name of the exception
pub record StoreFaults : Type 0 where
  pub raw_write : Option String
  pub meta_write : Option String

-- `model_dump(exclude={"raw_payload_b64"})`
unfoldable pub meta_of : RawEventEnvelope → RawEventEnvelope
meta_of e = record e { raw_payload_b64 = [] }

write_meta : RawEventArchive → RawEventEnvelope → Option String → Option String × RawEventArchive
write_meta a e (some failure) = (some failure, a)
write_meta a e none =
    (none, record a { meta_files = Dict.assign e.event_id (meta_of e) a.meta_files })

write_raw :
    RawEventArchive
    → RawEventEnvelope
    → Bytes
    → StoreFaults
    → Option String
    → Option String × RawEventArchive
write_raw a e raw faults (some failure) = (some failure, a)
write_raw a e raw faults none =
    write_meta (record a { raw_files = Dict.assign e.event_id raw a.raw_files }) e faults.meta_write

store_payload :
    RawEventArchive
    → RawEventEnvelope
    → StoreFaults
    → Option Bytes
    → Option String × RawEventArchive
store_payload a e faults none = (some "ValueError", a)
store_payload a e faults (some raw) = write_raw a e raw faults faults.raw_write

-- `store`: the type name of what it raised, if anything, and the files after it
unfoldable pub store :
    RawEventArchive → RawEventEnvelope → StoreFaults → Option String × RawEventArchive
unfolding store_payload write_raw write_meta meta_of
store a e faults = store_payload a e faults (raw_bytes e)

both : Option Bytes → Option RawEventEnvelope → Option (RawEventEnvelope × Bytes)
both (some raw) (some meta) = some (meta, raw)
both _ _ = none

unfoldable pub retrieve : RawEventArchive → String → Option (RawEventEnvelope × Bytes)
unfolding both
retrieve a id = both (Dict.lookup id a.raw_files) (Dict.lookup id a.meta_files)

hash_matches : Platform → Option (RawEventEnvelope × Bytes) → Bool
hash_matches p none = false
hash_matches p (some (meta, raw)) = str_eq (p.hexdigest raw) meta.raw_sha256

unfoldable pub verify : Platform → RawEventArchive → String → Bool
unfolding hash_matches
verify p a id = hash_matches p (retrieve a id)
