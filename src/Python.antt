-- ===== src/Python.antt =====
-- What the normalizer and the validator use of Python on values: `str`, `bool` and `int` of a JSON
-- value, UTF-8, and sorted sets. The parts of the standard library that know Unicode, floats, IP
-- addresses and calendars are fields of a record.
pub mod Ordered
pub mod Words
pub mod Sample
use Prim.Native.Char.{Char, char, nul, code, IsScalar}
use Prim.Native.Nat.{compare, Ordering}
use Prim.Native.String.{◌++◌ as append}
use mathlib.Core.Logic.{dite}
use native.Mathlib.Decide.{dec_lt}
use ulpf_prism_sih.Prelude.{
  ℕ, zero, suc, ◌+◌, ◌*◌, ◌/◌, ◌%◌, ◌<◌, ◌≡◌, ◌≢◌, String, Bool, true, false, not, Option, none,
  some, List, [], ◌∷◌, ◌++◌, arith, ltb, ◌==◌, if◌then◌else◌, Text, Bytes, codes,
}
use ulpf_prism_sih.Decimal
use ulpf_prism_sih.Dict
use ulpf_prism_sih.Dict.{Dict}
use ulpf_prism_sih.Int.{ℤ, pos, negsuc}
use ulpf_prism_sih.Json.{
  Json, null, boolean, int, float, str, arr, obj, Items, nil, cons, end, field,
}
use ulpf_prism_sih.Contracts.RawEvent.{Timestamp, utc}

-- the bytes of one character in UTF-8
abbrev encode_code : ℕ → Bytes
encode_code n =
    if ltb n 128
    then n ∷ []
    else if ltb n 2048
    then (192 + n / 64) ∷ (128 + n % 64) ∷ []
    else if ltb n 65536
    then (224 + n / 4096) ∷ (128 + n / 64 % 64) ∷ (128 + n % 64) ∷ []
    else (240 + n / 262144) ∷ (128 + n / 4096 % 64) ∷ (128 + n / 64 % 64) ∷ (128 + n % 64) ∷ []

encode_codes : Text → Bytes
encode_codes [] = []
encode_codes (c ∷ cs) = encode_code c ++ encode_codes cs

-- `s.encode("utf-8")`
unfoldable pub encode : String → Bytes
unfolding encode_codes
encode s = encode_codes (codes s)

pub record Python : Type 0 where
  -- `str.lower` and `str.upper`
  pub lower : String → String
  pub upper : String → String
  -- `str(value)` of a float, a list or a dictionary
  pub repr : Json → String
  -- `bool(value)` of a float
  pub nonzero : String → Bool
  -- `int(value)` of a float: its `OverflowError` is `none`, its `ValueError` is `some none`
  pub truncate : String → Option (Option ℤ)
  -- the integer that a float is equal to
  pub integral : String → Option ℤ
  -- `str.isalpha`
  pub isalpha : String → Bool
  -- `str(ipaddress.ip_address(text))`; the `ValueError` is `none`
  pub ip_address : String → Option String
  pub ip_address_ne_empty : (t : String) → ip_address t ≢ some ""
  -- an instant's text in UTC, with microseconds and without the offset
  pub isoformat : ℕ → String
  -- `datetime.fromisoformat`; the `ValueError` is `none`
  pub fromisoformat : String → Option Timestamp
  pub fromisoformat-isoformat :
      (t : ℕ)
      → fromisoformat (append (isoformat t) "+00:00") ≡ some (record { instant = t; zone = utc })
  -- `raw.decode("utf-8")`; the `UnicodeDecodeError` is `none`
  pub decode : Bytes → Option String
  pub encode-decode : (raw : Bytes) {s : String} → decode raw ≡ some s → encode s ≡ raw

-- A surrogate, or a number beyond Unicode, is no character.
IsScalar_low : (n : ℕ) → n < 55296 → IsScalar n
IsScalar_low n h = let e : compare n 55296 ≡ Ordering.lt = ground arith in rw e tt

char_of : ℕ → Char
char_of n = dite (dec_lt n 55296) (λ h. char n (IsScalar_low n h)) (λ _. nul)

-- a text of code points as a string
unfoldable pub string : Text → String
unfolding char_of IsScalar_low dec_lt
string [] = String.[]
string (c ∷ cs) = String.◌∷◌ (char_of c) (string cs)

-- `str(n)`
unfoldable pub str_ℤ : ℤ → String
str_ℤ (pos n) = string (Decimal.show n)
str_ℤ (negsuc n) = append "-" (string (Decimal.show (suc n)))

-- `str(value)`
unfoldable pub str_of : Python → Json → String
unfolding str_ℤ
str_of py null = "None"
str_of py (boolean true) = "True"
str_of py (boolean false) = "False"
str_of py (int n) = str_ℤ n
str_of py (str s) = s
str_of py v = py.repr v

-- `bool(value)`
unfoldable pub truthy : Python → Json → Bool
truthy py null = false
truthy py (boolean b) = b
truthy py (int (pos zero)) = false
truthy py (int n) = true
truthy py (float x) = py.nonzero x
truthy py (str String.[]) = false
truthy py (str s) = true
truthy py (arr nil) = false
truthy py (arr vs) = true
truthy py (obj end) = false
truthy py (obj fs) = true

-- `a or b`
unfoldable pub or_else : Python → Json → Json → Json
unfolding truthy
or_else py a b = if truthy py a then a else b

-- `int(value)`: another exception than `TypeError` and `ValueError` is `none`, those are `some none`
unfoldable pub as_int : Python → Json → Option (Option ℤ)
as_int py (boolean b) = some (some (pos (if b then 1 else 0)))
as_int py (int n) = some (some n)
as_int py (float x) = py.truncate x
as_int py (str s) = some (Decimal.int (codes s))
as_int py _ = some none

abbrev pub or_null : Option Json → Json
or_null none = null
or_null (some v) = v

-- `d.get(k)`
unfoldable pub get : String → Dict Json → Json
get k d = or_null (Dict.lookup k d)

-- `d.update(e)`, `{**d, **e}`
unfoldable pub update {ℓ} : {V : Type ℓ} → Dict V → Dict V → Dict V
update d [] = d
update d ((k, v) ∷ e) = update (Dict.assign k v d) e
