-- ===== src/Decimal/RoundTrip.antt =====
-- Python's `int` and `str` on natural numbers, one after the other.
use mathlib.Core.List.{append-nil, append_assoc}
use ulpf_prism_sih.Prelude.{
  ℕ, zero, suc, ◌+◌, ◌-◌, ◌*◌, ◌/◌, ◌%◌, ◌<◌, ◌≡◌, refl, sym, ap, ◌∙◌, Bool, true, false, ◌&&◌,
  some, [], ◌∷◌, ◌++◌, arith, tests, ltb, leb, Text, Bool-cases, inl, inr,
}
use ulpf_prism_sih.Int.{pos}
use ulpf_prism_sih.Decimal.{
  show_digits, show, is_digit, is_space, strip_start, strip_end, read_digits, read_signed, int,
  positive,
}

show_digits-small : (fuel n : ℕ) → ltb n 10 ≡ true → show_digits (suc fuel) n ≡ (n + 48) ∷ []
unfolding show_digits
show_digits-small fuel n h = ground arith

show_digits-large :
    (fuel n : ℕ)
    → ltb n 10 ≡ false
    → show_digits (suc fuel) n ≡ show_digits fuel (n / 10) ++ (n % 10 + 48) ∷ []
unfolding show_digits
show_digits-large fuel n h = ground arith

read_digit :
    (acc d : ℕ) (after : Bool) (rest : Text)
    → d < 10
    → read_digits acc after ((d + 48) ∷ rest) ≡ read_digits (acc * 10 + d) true rest
unfolding read_digits is_digit
read_digit acc d after rest h =
    let e : d + 48 - 48 ≡ d = omega arith in
    let f : (leb 48 (d + 48) && leb (d + 48) 57) ≡ true = ground arith in rw f (rw e)

-- Reading the digits of a number, and then the rest, is reading the rest after that number.
read_digits-show_digits :
    (fuel n : ℕ) (after : Bool) (rest : Text)
    → n < fuel
    → read_digits 0 after (show_digits fuel n ++ rest) ≡ read_digits n true rest
read_digits-show_digits zero n after rest h = absurd (omega arith)
read_digits-show_digits (suc fuel) n after rest h = elim (Bool-cases (ltb n 10)) [
  | inl small ↦ rw (show_digits-small fuel n small) (
      read_digit 0 n after rest (omega (tests, small))
      ∙ ap (λ (k : ℕ). read_digits k true rest) (omega arith))
  | inr large ↦ rw (show_digits-large fuel n large) (
      rw (append_assoc (show_digits fuel (n / 10)) ((n % 10 + 48) ∷ []) rest) (
        read_digits-show_digits fuel (n / 10) after ((n % 10 + 48) ∷ rest) (omega (tests, large))
        ∙ read_digit (n / 10) (n % 10) true rest (omega arith)
        ∙ ap (λ (k : ℕ). read_digits k true rest) (omega arith)))
]

abbrev AreDigits : Text → Type 0
AreDigits [] = Unit
AreDigits (c ∷ cs) = (is_digit c ≡ true) × AreDigits cs

AreDigits-append : (s t : Text) → AreDigits s → AreDigits t → AreDigits (s ++ t)
AreDigits-append [] t h k = k
AreDigits-append (c ∷ cs) t (h, hs) k = (h, AreDigits-append cs t hs k)

digit : (d : ℕ) → d < 10 → is_digit (d + 48) ≡ true
unfolding is_digit
digit d h = ground arith

show_digits-AreDigits : (fuel n : ℕ) → AreDigits (show_digits fuel n)
show_digits-AreDigits zero n = unfold show_digits in tt
show_digits-AreDigits (suc fuel) n = elim (Bool-cases (ltb n 10)) [
  | inl small ↦ rw (show_digits-small fuel n small) (digit n (omega (tests, small)), tt)
  | inr large ↦ rw (show_digits-large fuel n large) (
      AreDigits-append (show_digits fuel (n / 10)) ((n % 10 + 48) ∷ [])
        (show_digits-AreDigits fuel (n / 10)) (digit (n % 10) (omega arith), tt))
]

digit_no_space : (c : ℕ) → is_digit c ≡ true → is_space c ≡ false
unfolding is_digit is_space
digit_no_space c h = ground arith

strip_end-digits : (s : Text) → AreDigits s → strip_end s ≡ s
unfolding strip_end
strip_end-digits [] h = refl
strip_end-digits (c ∷ []) (h, hs) = rw (digit_no_space c h)
strip_end-digits (c ∷ d ∷ ds) (h, hs) = rw (strip_end-digits (d ∷ ds) hs)

strip_start-digits : (s : Text) → AreDigits s → strip_start s ≡ s
unfolding strip_start
strip_start-digits [] h = refl
strip_start-digits (c ∷ cs) (h, hs) = rw (digit_no_space c h)

read_signed-digits : (s : Text) → AreDigits s → read_signed s ≡ positive (read_digits 0 false s)
unfolding read_signed
read_signed-digits [] h = unfold read_digits in refl
read_signed-digits (c ∷ cs) (h, hs) = unfold is_digit in ground arith

int_lem : (s : Text) → int s ≡ read_signed (strip_end (strip_start s))
unfolding int
int_lem s = refl

show_lem : (n : ℕ) → show n ≡ show_digits (suc n) n
unfolding show
show_lem n = refl

read_digits-nil : (n : ℕ) → read_digits n true [] ≡ some n
unfolding read_digits
read_digits-nil n = refl

-- Reading the text of a natural number gives that number.
pub int-show : (n : ℕ) → int (show n) ≡ some (pos n)
int-show n =
    let ds = show_digits (suc n) n in
    let all_digits = show_digits-AreDigits (suc n) n in
    let value : read_digits 0 false ds ≡ some n =
      ap (read_digits 0 false) (sym (append-nil ds))
      ∙ read_digits-show_digits (suc n) n false [] (omega arith)
      ∙ read_digits-nil n in
    rw (show_lem n) (
      int_lem ds
      ∙ ap (λ s. read_signed (strip_end s)) (strip_start-digits ds all_digits)
      ∙ ap read_signed (strip_end-digits ds all_digits)
      ∙ read_signed-digits ds all_digits
      ∙ ap positive value)
