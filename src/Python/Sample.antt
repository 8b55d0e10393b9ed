-- ===== src/Python/Sample.antt =====
-- A small standard library for the examples: ASCII, and instants written in unary.
use Prim.Native.Char.{code}
use Prim.Native.String.{◌++◌ as append}
use text.Mathlib.TextLemmas.{cons-append}
use mathlib.Core.Logic.{dif_pos}
use native.Mathlib.Bridge.{le_prop}
use native.Mathlib.Decide.{dec_lt}
use ulpf_prism_sih.Prelude.{
  ℕ, zero, suc, ◌<◌, String, true, Option, none, some, [], ◌∷◌, ◌≡◌, ◌≢◌, refl, ap, sym, arith,
  Bytes, ltb, ltb→lt, lt→ltb, ◌==◌, if◌then◌else◌, Bool-cases, inl, inr, none_absurd, some_inj,
  str_eq,
}
use ulpf_prism_sih.Contracts.RawEvent.{Timestamp, utc, naive}
use ulpf_prism_sih.Python.{Python, encode, char_of, IsScalar_low}

unfoldable pub unary : ℕ → String
unary zero = ""
unary (suc n) = String.◌∷◌ "1" (unary n)

abbrev after_one : Option Timestamp → Option Timestamp
after_one none = none
after_one (some t) = some (record t { instant = suc t.instant })

-- a count of ones, and the offset of UTC or none
unfoldable pub from_unary : String → Option Timestamp
from_unary String.[] = some (record { instant = 0; zone = naive })
from_unary (String.◌∷◌ c s) =
    let rest = from_unary s in
    if code c == b'1'
    then after_one rest
    else if str_eq (String.◌∷◌ c s) "+00:00"
    then some (record { instant = 0; zone = utc })
    else none

pub from_unary-unary :
    (t : ℕ) → from_unary (append (unary t) "+00:00") ≡ some (record { instant = t; zone = utc })
unfolding from_unary unary
from_unary-unary zero = refl
from_unary-unary (suc n) = rw (cons-append "1" (unary n) "+00:00") (rw (from_unary-unary n) refl)

abbrev before : ℕ → Option String → Option String
before c none = none
before c (some s) = some (String.◌∷◌ (char_of c) s)

unfoldable pub decode_ascii : Bytes → Option String
unfolding char_of IsScalar_low dec_lt
decode_ascii [] = some ""
decode_ascii (c ∷ cs) = let rest = decode_ascii cs in if ltb c 128 then before c rest else none

code-char_of : (c : ℕ) → c < 128 → code (char_of c) ≡ c
unfolding char_of
code-char_of c h =
    let k : c < 55296 = omega arith in ap code (dif_pos (dec_lt c 55296) le_prop k _ _)

encode-before :
    (c : ℕ) (rest : Option String) (cs : Bytes) {s : String}
    → c < 128
    → ((t : String) → rest ≡ some t → encode t ≡ cs)
    → before c rest ≡ some s
    → encode s ≡ c ∷ cs
unfolding encode
encode-before c none cs l h e = none_absurd _ e
encode-before c (some t) cs l h e =
    rw (← some_inj e) (rw (code-char_of c l) (rw (lt→ltb c 128 l) (ap (◌∷◌ c) (h t refl))))

pub encode-decode_ascii : (raw : Bytes) {s : String} → decode_ascii raw ≡ some s → encode s ≡ raw
unfolding decode_ascii encode
encode-decode_ascii [] h = ap encode (sym (some_inj h))
encode-decode_ascii (c ∷ cs) h = elim (Bool-cases (ltb c 128)) [
  | inl l ↦
      encode-before c (decode_ascii cs) cs (ltb→lt c 128 l) (λ t k. encode-decode_ascii cs k)
        (rw l at h)
  | inr l ↦ none_absurd _ (rw l at h)
]

abbrev address : String → Option String
address String.[] = none
address (String.◌∷◌ c s) = some (String.◌∷◌ c s)

pub address_ne_empty : (t : String) → address t ≢ some ""
address_ne_empty String.[] h = cc
address_ne_empty (String.◌∷◌ c s) h = cc

abbrev pub python : Python
python = record {
  lower = λ s. s;
  upper = λ s. s;
  repr = λ v. "repr";
  nonzero = λ x. true;
  truncate = λ x. some none;
  integral = λ x. none;
  isalpha = λ s. true;
  ip_address = address;
  ip_address_ne_empty = address_ne_empty;
  isoformat = unary;
  fromisoformat = from_unary;
  fromisoformat-isoformat = from_unary-unary;
  decode = decode_ascii;
  encode-decode = λ raw {s}. encode-decode_ascii raw;
}
