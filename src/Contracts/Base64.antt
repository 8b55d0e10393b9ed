-- ===== src/Contracts/Base64.antt =====
-- The standard library's `base64.b64encode` and `b64decode(…, validate=True)`, which
-- src/contracts/raw_event.py uses, over lists of code points.
use ulpf_prism_sih.Prelude.{
  ℕ, ◌+◌, ◌-◌, ◌*◌, ◌/◌, ◌%◌, ◌<◌, ◌≡◌, refl, Bool, true, false, ◌&&◌, Option, none, some, [], ◌∷◌,
  arith, ◌∙◌, ltb, leb, ◌==◌, if◌then◌else◌, Text, Bytes, AreBytes,
}

-- the character of a 6-bit value
encode_digit : ℕ → ℕ
encode_digit v =
    if ltb v 26
    then v + 65
    else if ltb v 52
    then v + 71
    else if ltb v 62
    then v - 52 + 48
    else if v == 62
    then b'+'
    else b'/'

decode_digit : ℕ → Option ℕ
decode_digit c =
    if leb 65 c && leb c 90
    then some (c - 65)
    else if leb 97 c && leb c 122
    then some (c - 71)
    else if leb 48 c && leb c 57
    then some (c + 52 - 48)
    else if c == b'+'
    then some 62
    else if c == b'/'
    then some 63
    else none

unfoldable pub encode : Bytes → Text
unfolding encode_digit
encode [] = []
encode (a ∷ []) = encode_digit (a / 4) ∷ encode_digit (a % 4 * 16) ∷ b'=' ∷ b'=' ∷ []
encode (a ∷ b ∷ []) =
    encode_digit (a / 4)
    ∷ encode_digit (a % 4 * 16 + b / 16)
    ∷ encode_digit (b % 16 * 4)
    ∷ b'='
    ∷ []
encode (a ∷ b ∷ c ∷ rest) =
    encode_digit (a / 4)
    ∷ encode_digit (a % 4 * 16 + b / 16)
    ∷ encode_digit (b % 16 * 4 + c / 64)
    ∷ encode_digit (c % 64)
    ∷ encode rest

infixl 5 ◌>>=◌
abbrev ◌>>=◌ {ℓ κ} : {A : Type ℓ} {B : Type κ} → Option A → (A → Option B) → Option B
none >>= k = none
some a >>= k = k a

-- the last group, with its padding
decode_last : ℕ → ℕ → ℕ → ℕ → Option Bytes
decode_last c d e f =
    if e == b'='
    then (if f == b'='
        then (do x ← decode_digit c; y ← decode_digit d; some ((x * 4 + y / 16) ∷ []))
        else none)
    else (do
      x ← decode_digit c
      y ← decode_digit d
      z ← decode_digit e
      some ((x * 4 + y / 16) ∷ (y % 16 * 16 + z / 4) ∷ []))

decode_group : ℕ → ℕ → ℕ → ℕ → Option Bytes → Option Bytes
decode_group c d e f rest = do
  x ← decode_digit c
  y ← decode_digit d
  z ← decode_digit e
  w ← decode_digit f
  bs ← rest
  some ((x * 4 + y / 16) ∷ (y % 16 * 16 + z / 4) ∷ (z % 4 * 64 + w) ∷ bs)

abbrev is_empty : Text → Bool
is_empty [] = true
is_empty (c ∷ cs) = false

unfoldable pub decode : Text → Option Bytes
unfolding decode_last decode_group decode_digit
decode [] = some []
decode (c ∷ d ∷ e ∷ f ∷ cs) =
    let rest = decode cs in
    if is_empty cs && f == b'=' then decode_last c d e f else decode_group c d e f rest
decode _ = none

digit_round : (v : ℕ) → v < 64 → decode_digit (encode_digit v) ≡ some v
unfolding encode_digit decode_digit
digit_round v h = ground arith

digit_ne_pad : (v : ℕ) → v < 64 → (encode_digit v == b'=') ≡ false
unfolding encode_digit
digit_ne_pad v h = ground arith

-- One group of three bytes, with the rest decoded.
group_round :
    (a b c : ℕ) (rest : Bytes)
    → a < 256
    → b < 256
    → c < 256
    → decode_group
        (encode_digit (a / 4))
        (encode_digit (a % 4 * 16 + b / 16))
        (encode_digit (b % 16 * 4 + c / 64))
        (encode_digit (c % 64))
        (some rest)
      ≡ some (a ∷ b ∷ c ∷ rest)
unfolding decode_group
group_round a b c rest ha hb hc = rw (digit_round (a / 4) (omega arith)) (
    rw (digit_round (a % 4 * 16 + b / 16) (omega arith)) (
      rw (digit_round (b % 16 * 4 + c / 64) (omega arith))
        (rw (digit_round (c % 64) (omega arith)) (ground arith))))

and_false : (b : Bool) → (b && false) ≡ false
and_false true = refl
and_false false = refl

decode-four :
    (c d e f : ℕ) (cs : Text)
    → (f == b'=') ≡ false
    → decode (c ∷ d ∷ e ∷ f ∷ cs) ≡ decode_group c d e f (decode cs)
unfolding decode
decode-four c d e f cs h = rw (h, and_false (is_empty cs))

-- Decoding the encoding of any bytes gives back those bytes.
pub decode-encode : (bs : Bytes) → AreBytes bs → decode (encode bs) ≡ some bs
unfolding encode
decode-encode [] h = unfold decode in refl
decode-encode (a ∷ []) (ha, _) =
    unfold decode in
    rw (digit_round (a / 4) (omega arith))
      (rw (digit_round (a % 4 * 16) (omega arith)) (ground arith))
decode-encode (a ∷ b ∷ []) (ha, (hb, _)) =
    unfold decode in
    rw (digit_ne_pad (b % 16 * 4) (omega arith)) (
      rw (digit_round (a / 4) (omega arith)) (
        rw (digit_round (a % 4 * 16 + b / 16) (omega arith))
          (rw (digit_round (b % 16 * 4) (omega arith)) (ground arith))))
decode-encode (a ∷ b ∷ c ∷ rest) (ha, (hb, (hc, h))) =
    decode-four _ _ _ _ (encode rest) (digit_ne_pad (c % 64) (omega arith))
    ∙ rw (decode-encode rest h) (group_round a b c rest ha hb hc)
