-- ===== src/Core/Engine/Identity.antt =====
-- core/engine.py: the reference of a parsed event to its envelope, and the failures of packs.
use ulpf_prism_sih.Prelude.{
  ℕ, ◌≡◌, refl, true, none, some, List, arith, inl, inr, Option-cases, str_eq_iff, Text,
}
use ulpf_prism_sih.Contracts.RawEvent.{RawEventEnvelope}
use ulpf_prism_sih.Contracts.Status.{ParseStatus}
use ulpf_prism_sih.Contracts.ParsedEvent.{ParsedEvent, verify_event_identity, unrecognized}
use ulpf_prism_sih.Core.SourcePack.{
  SourcePack, ErrorKind, Parsing, parsed, not_event, parse_raised, ulpf, transient, other,
}
use ulpf_prism_sih.Core.Registry.{match}
use ulpf_prism_sih.Core.Registry.Best.{All, All-match}
use ulpf_prism_sih.Core.Engine.{accept, failed_event, process}

-- The events that a pack returns went through the validator of their constructor.
abbrev pub MakesValidEvents : SourcePack → Type 0
MakesValidEvents pack =
    (e : RawEventEnvelope) (event : ParsedEvent)
    → pack.parse e ≡ parsed event
    → verify_event_identity event ≡ true

abbrev pub RefersTo : RawEventEnvelope → ParsedEvent → Type 0
RefersTo e event =
    (event.event_id ≡ e.event_id)
    × (event.raw_event.event_id ≡ e.event_id)
    × (event.raw_event.raw_sha256 ≡ e.raw_sha256)

failed_event-RefersTo :
    (now : ℕ) (e : RawEventEnvelope) (reason : Text) (pack : SourcePack)
    → RefersTo e (failed_event now e reason pack)
unfolding failed_event
failed_event-RefersTo now e reason pack = (refl, refl, refl)

accept-RefersTo :
    (now : ℕ) (e : RawEventEnvelope) (pack : SourcePack) (r : Parsing)
    → ((event : ParsedEvent) → r ≡ parsed event → verify_event_identity event ≡ true)
    → RefersTo e (accept now e pack r)
unfolding accept verify_event_identity failed_event
accept-RefersTo now e pack (parsed event) h = ground (
  arith,
  h event refl,
  str_eq_iff event.event_id event.raw_event.event_id,
  str_eq_iff event.raw_event.event_id e.event_id,
  str_eq_iff event.raw_event.raw_sha256 e.raw_sha256,
)
accept-RefersTo now e pack not_event h = (refl, refl, refl)
accept-RefersTo now e pack (parse_raised ulpf message) h = (refl, refl, refl)
accept-RefersTo now e pack (parse_raised transient message) h = (refl, refl, refl)
accept-RefersTo now e pack (parse_raised other message) h = (refl, refl, refl)

-- `process` returns an event for every envelope, whatever the packs do, and the event refers to the
-- envelope by its id and its hash, provided that the packs build their events by the validating
-- constructor.
pub process-RefersTo :
    (packs : List SourcePack) (now : ℕ) (e : RawEventEnvelope)
    → All MakesValidEvents packs
    → RefersTo e (process packs now e)
unfolding process unrecognized
process-RefersTo packs now e h = elim (Option-cases (match packs e)) [
  | inl no_match ↦ rw no_match (refl, refl, refl)
  | inr (pack, chosen) ↦ rw chosen (
      accept-RefersTo now e pack (pack.parse e)
        (All-match MakesValidEvents packs e pack h chosen e))
]

raised_fails :
    (now : ℕ) (e : RawEventEnvelope) (pack : SourcePack) (kind : ErrorKind) (message : Text)
    → ((accept now e pack (parse_raised kind message)).status ≡ ParseStatus.failed)
      × ((accept now e pack (parse_raised kind message)).raw_event ≡ e)
unfolding accept failed_event
raised_fails now e pack ulpf message = (refl, refl)
raised_fails now e pack transient message = (refl, refl)
raised_fails now e pack other message = (refl, refl)

-- A pack that raises, whatever the exception and a transient one too, and a pack that returns
-- something else than an event, give a failed event that keeps the whole envelope; an envelope
-- that no pack detects gives an unrecognized one that keeps it.
pub process_failures :
    (packs : List SourcePack) (now : ℕ) (e : RawEventEnvelope)
    → ((pack : SourcePack) (kind : ErrorKind) (message : Text)
        → match packs e ≡ some pack
        → pack.parse e ≡ parse_raised kind message
        → ((process packs now e).status ≡ ParseStatus.failed)
          × ((process packs now e).raw_event ≡ e))
      × ((pack : SourcePack)
          → match packs e ≡ some pack
          → pack.parse e ≡ not_event
          → ((process packs now e).status ≡ ParseStatus.failed)
            × ((process packs now e).raw_event ≡ e))
      × (match packs e ≡ none
          → ((process packs now e).status ≡ ParseStatus.unrecognized)
            × ((process packs now e).raw_event ≡ e))
unfolding process unrecognized failed_event
process_failures packs now e = (
  (λ pack kind message chosen raised. rw chosen (rw raised (raised_fails now e pack kind message))),
  (λ pack chosen odd. rw chosen (rw odd (refl, refl))),
  (λ no_match. rw no_match (refl, refl)),
)
