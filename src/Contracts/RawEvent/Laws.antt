-- ===== src/Contracts/RawEvent/Laws.antt =====
-- src/contracts/raw_event.py: the bytes, size and digest of an envelope.
use ulpf_prism_sih.Prelude.{
  ℕ, String, Bool, true, false, ◌≡◌, refl, ◌&&◌, Option, none, some, arith, ◌==◌, if◌then◌else◌,
  length, Bytes, AreBytes, str_eq, str_eq_refl, str_eq_iff, Option-cases, inl, inr,
}
use mathlib.Core.Bool.{false≢true}
use ulpf_prism_sih.Dict.{Dict}
use ulpf_prism_sih.Json.{Json}
use ulpf_prism_sih.Contracts.Base64.{decode-encode}
use ulpf_prism_sih.Contracts.Platform.{Platform}
use ulpf_prism_sih.Contracts.RawEvent.{
  RawEventEnvelope, Transport, raw_bytes, verify_evidence, validate, from_bytes, envelope_of,
  ip_accepted,
}

eq_self : (n : ℕ) → (n == n) ≡ true
eq_self n = ground arith

module _ (p : Platform) (id : String) (now : ℕ) (raw : Bytes) (source_id : String)
    (transport : Transport) (source_ip : Option String) (collector_id collector_version : String)
    (metadata : Dict Json) where
  -- The envelope of any bytes decodes to exactly those bytes.
  pub raw_bytes-envelope_of :
      AreBytes raw
      → raw_bytes (
          envelope_of p id now raw source_id transport source_ip collector_id collector_version
            metadata)
        ≡ some raw
  unfolding raw_bytes envelope_of
  raw_bytes-envelope_of h = decode-encode raw h

  -- Construction from bytes succeeds exactly if pydantic accepts the source address, and the
  -- envelope then holds the bytes unchanged with their size and digest.
  pub from_bytes_lem :
      AreBytes raw
      → from_bytes p id now raw source_id transport source_ip collector_id collector_version
          metadata
        ≡ (if ip_accepted p source_ip
            then some (
                envelope_of p id now raw source_id transport source_ip collector_id
                  collector_version metadata)
            else none)
  unfolding from_bytes validate verify_evidence raw_bytes envelope_of
  from_bytes_lem h = rw (decode-encode raw h) (
      rw (str_eq_refl (p.hexdigest raw))
        (rw (p.hexdigest-is_sha256 raw) (rw (eq_self (length raw)) (ground arith))))

and_true : (a b : Bool) → (a && b) ≡ true → (a ≡ true) × (b ≡ true)
and_true true b h = (refl, h)
and_true false b h = (h, cc)

verify_evidence_sound :
    (p : Platform) (e : RawEventEnvelope)
    → verify_evidence p e ≡ true
    → (raw : Bytes) × (raw_bytes e ≡ some raw)
      × (length raw ≡ e.raw_size)
      × (p.hexdigest raw ≡ e.raw_sha256)
unfolding verify_evidence
verify_evidence_sound p e h = elim (Option-cases (raw_bytes e)) [
  | inl q ↦ absurd (false≢true (rw q at h))
  | inr (raw, q) ↦
      let (size, digest) =
        and_true (length raw == e.raw_size) (str_eq (p.hexdigest raw) e.raw_sha256) (rw q at h) in
      (raw, q, ground arith, (str_eq_iff _ _).0 digest)
]

validate-eq-some :
    (p : Platform) (e f : RawEventEnvelope)
    → validate p e ≡ some f
    → (f ≡ e) × (verify_evidence p e ≡ true)
unfolding validate
validate-eq-some p e f h = ground arith

-- What a validated envelope carries: it is unchanged, and its payload decodes to bytes of the
-- stated size and the stated SHA-256.
pub validate_sound :
    (p : Platform) (e f : RawEventEnvelope)
    → validate p e ≡ some f
    → (f ≡ e)
      × ((raw : Bytes) × (raw_bytes e ≡ some raw)
          × (length raw ≡ e.raw_size)
          × (p.hexdigest raw ≡ e.raw_sha256))
validate_sound p e f h =
    let (same, ok) = validate-eq-some p e f h in (same, verify_evidence_sound p e ok)
