-- ===== src/Collection/Archive/RoundTrip.antt =====
-- src/collection/archive.py: reading what was stored.
use ulpf_prism_sih.Prelude.{
  String, true, false, ◌≡◌, Option, none, some, arith, Bytes, str_eq, str_eq_refl, str_eq_iff,
}
use ulpf_prism_sih.Dict.{lookup-assign}
use ulpf_prism_sih.Contracts.Platform.{Platform}
use ulpf_prism_sih.Contracts.RawEvent.{RawEventEnvelope, raw_bytes}
use ulpf_prism_sih.Collection.Archive.{
  RawEventArchive, StoreFaults, meta_of, store, retrieve, verify,
}

abbrev pub first_fault : StoreFaults → Option String
first_fault f = elim f.raw_write [ some x ↦ some x | none ↦ f.meta_write ]

module _ (a : RawEventArchive) (e : RawEventEnvelope) (f : StoreFaults) (raw : Bytes)
    (held : raw_bytes e ≡ some raw) where
  -- `store` fails exactly if one of its two writes does, with the first failure.
  pub store-fault : (store a e f).0 ≡ first_fault f
  unfolding store
  store-fault = rw held (ground arith)

  pub retrieve-store_self :
      first_fault f ≡ none → retrieve (store a e f).1 e.event_id ≡ some (meta_of e, raw)
  unfolding store retrieve
  retrieve-store_self h = rw held (
      ground (
        arith,
        lookup-assign e.event_id e.event_id raw a.raw_files,
        lookup-assign e.event_id e.event_id (meta_of e) a.meta_files,
        str_eq_refl e.event_id,
      ))

  pub retrieve-store_ne :
      (id : String) → str_eq e.event_id id ≡ false → retrieve (store a e f).1 id ≡ retrieve a id
  unfolding store retrieve
  retrieve-store_ne id h = rw held (
      ground (
        arith,
        lookup-assign e.event_id id raw a.raw_files,
        lookup-assign e.event_id id (meta_of e) a.meta_files,
      ))

  pub verify-store :
      (p : Platform)
      → p.hexdigest raw ≡ e.raw_sha256
      → first_fault f ≡ none
      → verify p (store a e f).1 e.event_id ≡ true
  unfolding verify meta_of
  verify-store p digest h = rw (retrieve-store_self h) ((str_eq_iff _ _).1 digest)
