-- ===== src/Decimal.antt =====
-- The language's `str(n)` and `int(text)`, which the streaming headers go through. Texts are code
-- points; `int` reads ASCII digits and white space.
pub mod RoundTrip
use mathlib.Core.Bool.{◌||◌}
use ulpf_prism_sih.Prelude.{
  ℕ, zero, suc, ◌+◌, ◌-◌, ◌*◌, ◌/◌, ◌%◌, Bool, true, false, ◌&&◌, Option, none, some, List, [], ◌∷◌,
  ◌++◌, ltb, leb, ◌==◌, if◌then◌else◌, Text,
}
use ulpf_prism_sih.Int.{ℤ, pos, negate}

show_digits : ℕ → ℕ → Text
show_digits zero n = []
show_digits (suc fuel) n = elim (ltb n 10) [
  | true ↦ (n + 48) ∷ []
  | false ↦ show_digits fuel (n / 10) ++ (n % 10 + 48) ∷ []
]

-- `str(n)`; more digits than the number has units are not needed
unfoldable pub show : ℕ → Text
unfolding show_digits
show n = show_digits (suc n) n

is_digit : ℕ → Bool
is_digit c = leb 48 c && leb c 57

is_space : ℕ → Bool
is_space c = c == 32 || leb 9 c && leb c 13 || leb 28 c && leb c 31

strip_start : Text → Text
strip_start [] = []
strip_start (c ∷ cs) = let rest = strip_start cs in if is_space c then rest else c ∷ cs

abbrev drop_space : ℕ → Text → Text
drop_space c [] = if is_space c then [] else c ∷ []
drop_space c (d ∷ ds) = c ∷ d ∷ ds

strip_end : Text → Text
strip_end [] = []
strip_end (c ∷ cs) = drop_space c (strip_end cs)

-- the digits, with single underscores between them; `after_digit` says whether one came last
read_digits : ℕ → Bool → Text → Option ℕ
read_digits acc after_digit [] = if after_digit then some acc else none
read_digits acc after_digit (c ∷ cs) =
    let more = read_digits (acc * 10 + (c - 48)) true cs in
    let gap = read_digits acc false cs in
    if is_digit c then more else if c == b'_' && after_digit then gap else none

abbrev positive : Option ℕ → Option ℤ
positive none = none
positive (some n) = some (pos n)

abbrev negative : Option ℕ → Option ℤ
negative none = none
negative (some n) = some (negate n)

read_signed : Text → Option ℤ
read_signed [] = none
read_signed (c ∷ cs) =
    if c == b'-'
    then negative (read_digits 0 false cs)
    else if c == b'+'
    then positive (read_digits 0 false cs)
    else positive (read_digits 0 false (c ∷ cs))

-- `int(text)`; the `ValueError` is `none`
unfoldable pub int : Text → Option ℤ
unfolding read_signed read_digits strip_start strip_end is_digit is_space
int s = read_signed (strip_end (strip_start s))
