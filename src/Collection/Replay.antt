-- ===== src/Collection/Replay.antt =====
-- src/collection/replay.py: the archived events published again. Whether a read of the archive and a
-- publish raise is a function of the place of the event.
pub mod RoundTrip
use ulpf_prism_sih.Prelude.{
  ℕ, suc, ◌+◌, ◌-◌, String, Bool, true, false, Option, none, some, List, [], ◌∷◌, ◌++◌,
  if◌then◌else◌, length, str_eq, Bytes,
}
use ulpf_prism_sih.Contracts.Base64.{encode}
use ulpf_prism_sih.Contracts.Platform.{Platform}
use ulpf_prism_sih.Contracts.RawEvent.{RawEventEnvelope, validate}
use ulpf_prism_sih.Collection.Archive.{RawEventArchive, retrieve}

-- What one event meets.
pub record Faults : Type 0 where
  pub read_raises : Bool
  pub publish_raises : Bool

-- What becomes of one event: it is published, or it fails with an error code.
pub data Replayed : Type 0 where
  sent : RawEventEnvelope → Replayed
  failed_at : String → Replayed

publish : Faults → RawEventEnvelope → Replayed
publish f v = if f.publish_raises then failed_at "REPLAY_DELIVERY_FAILED" else sent v

check_id : Faults → String → Option RawEventEnvelope → Replayed
check_id f id none = failed_at "ARCHIVE_VALIDATION_FAILED"
check_id f id (some v) =
    if str_eq v.event_id id then publish f v else failed_at "ARCHIVE_VALIDATION_FAILED"

check_stored : Platform → Faults → String → Option (RawEventEnvelope × Bytes) → Replayed
check_stored p f id none = failed_at "ARCHIVE_READ_FAILED"
check_stored p f id (some (metadata, raw)) =
    check_id f id (validate p (record metadata { raw_payload_b64 = encode raw }))

-- one round of the loop
unfoldable pub replay_one : Platform → Faults → RawEventArchive → String → Replayed
unfolding check_stored check_id publish
replay_one p f archive id =
    if f.read_raises
    then failed_at "ARCHIVE_READ_FAILED"
    else check_stored p f id (retrieve archive id)

pub record Report : Type 0 where
  pub attempted : ℕ
  pub published : ℕ
  pub failed : ℕ
  pub errors : List (String × String)

-- The envelopes that were published, and the errors, in order.
abbrev note :
    String
    → Replayed
    → List RawEventEnvelope × List (String × String)
    → List RawEventEnvelope × List (String × String)
note id (sent v) (vs, errors) = (v ∷ vs, errors)
note id (failed_at code) (vs, errors) = (vs, (id, code) ∷ errors)

unfoldable pub replay_loop :
    Platform
    → (ℕ → Faults)
    → RawEventArchive
    → List String
    → List RawEventEnvelope × List (String × String)
replay_loop p faults archive [] = ([], [])
replay_loop p faults archive (id ∷ ids) =
    note id (replay_one p (faults 0) archive id) (replay_loop p (λ n. faults (suc n)) archive ids)

-- `replay_events`, with what it published
unfoldable pub replay_events :
    Platform → (ℕ → Faults) → RawEventArchive → List String → Report × List RawEventEnvelope
replay_events p faults archive ids =
    let (vs, errors) = replay_loop p faults archive ids in
    (
      record {
        attempted = length ids;
        published = length vs;
        failed = length ids - length vs;
        errors = errors;
      },
      vs,
    )
