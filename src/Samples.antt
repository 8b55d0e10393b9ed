-- ===== src/Samples.antt =====
-- Concrete data for the examples: a platform whose digest tells the empty text from the others, and
-- the values that several examples share.
use ulpf_prism_sih.Prelude.{
  ℕ, String, Bool, true, false, ◌≡◌, refl, none, some, [], ◌∷◌, Bytes, codes, str_eq,
}
use ulpf_prism_sih.Int.{pos}
use ulpf_prism_sih.Contracts.Platform.{Platform, is_sha256}
use ulpf_prism_sih.Contracts.RawEvent.{RawEventEnvelope, tcp, envelope_of}
use ulpf_prism_sih.Contracts.ParsedEvent.{ParsedEvent, unrecognized}
use ulpf_prism_sih.Core.SourcePack.{SourcePack, verdict, Parsing, parsed, parse_raised, ulpf}
use ulpf_prism_sih.Streaming.Processors.{Codec, fields}

abbrev pub sample_digest : Bytes → String
sample_digest [] = "0000000000000000000000000000000000000000000000000000000000000000"
sample_digest (b ∷ bs) = "abcdefabcdefabcdefabcdefabcdefabcdefabcdefabcdefabcdefabcdef0123"

pub sample_digest-is_sha256 : (raw : Bytes) → is_sha256 (sample_digest raw) ≡ true
unfolding is_sha256
sample_digest-is_sha256 [] = refl
sample_digest-is_sha256 (b ∷ bs) = refl

abbrev pub platform : Platform
platform = record {
  hexdigest = sample_digest;
  hexdigest-is_sha256 = sample_digest-is_sha256;
  valid_ip = λ ip. str_eq ip "10.0.0.1";
}

-- `deny`
abbrev pub line : Bytes
line = 100 ∷ 101 ∷ 110 ∷ 121 ∷ []

abbrev pub envelope : RawEventEnvelope
envelope =
    envelope_of platform "e-1" 1000000 line "fw" tcp (some "10.0.0.1") "ulpf-collector-01" "0.1.0"
      []

abbrev pub event : ParsedEvent
event = unrecognized 2000000 envelope "a test"

-- A pack that detects everything, one that detects nothing, and one that fails.
abbrev pub pack : String → ℕ → Bool → Parsing → SourcePack
pack id priority detects result = record {
  pack_id = id;
  priority = pos priority;
  vendor = some "Cisco";
  product = none;
  pack_version = none;
  metadata_vendor = none;
  metadata_product = some "ASA";
  metadata_version = some "1.0.0";
  parser_id = none;
  parser_version = some "";
  format_type = none;
  detect = λ e. verdict detects;
  parse = λ e. result;
}

abbrev pub good_pack : SourcePack
good_pack = pack "good" 10 true (parsed event)

abbrev pub deaf_pack : SourcePack
deaf_pack = pack "deaf" 100 false (parsed event)

abbrev pub bad_pack : SourcePack
bad_pack = pack "bad" 20 true (parse_raised ulpf (codes "no fields"))

abbrev pub codec : Codec
codec = record {
  read_raw = λ payload. fields envelope;
  read_parsed = λ payload. fields event;
  validator_message = codes "invalid";
  write_parsed = λ e. some line;
}
