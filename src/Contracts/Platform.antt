-- ===== src/Contracts/Platform.antt =====
-- What the contracts take from outside the repository: the SHA-256 of `hashlib`, whose digest is
-- only ever compared, and pydantic's test of an IP address.
use ulpf_prism_sih.Prelude.{
  ℕ, String, Bool, true, ◌&&◌, ◌||◌, ◌≡◌, List, [], ◌∷◌, leb, ◌==◌, length, Bytes, codes,
}

abbrev pub all {ℓ} : {A : Type ℓ} → (A → Bool) → List A → Bool
all p [] = true
all p (x ∷ xs) = p x && all p xs

abbrev is_hex : ℕ → Bool
is_hex c = leb b'0' c && leb c b'9' || leb b'a' c && leb c b'f'

-- the pattern `^[0-9a-f]{64}$`
unfoldable pub is_sha256 : String → Bool
is_sha256 s = all is_hex (codes s) && length (codes s) == 64

pub record Platform : Type 0 where
  -- `hashlib.sha256(raw).hexdigest()`
  pub hexdigest : Bytes → String
  -- the digest is 64 lowercase hexadecimal digits
  pub hexdigest-is_sha256 : (raw : Bytes) → is_sha256 (hexdigest raw) ≡ true
  -- whether pydantic's `IPvAnyAddress` accepts a text
  pub valid_ip : String → Bool
