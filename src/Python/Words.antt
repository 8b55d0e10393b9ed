-- ===== src/Python/Words.antt =====
-- The text operations and the regular expressions of src/normalization and src/validation on names:
-- each expression is the automaton that it denotes.
pub mod Snake
use Prim.Native.Char.{Char, code}
use Prim.Native.String.{◌++◌ as append}
use ulpf_prism_sih.Prelude.{
  ℕ, zero, suc, String, Bool, true, false, not, ◌&&◌, ◌||◌, leb, ◌==◌, if◌then◌else◌,
}

abbrev pub is_lower : ℕ → Bool
is_lower c = leb b'a' c && leb c b'z'

abbrev pub is_digit : ℕ → Bool
is_digit c = leb b'0' c && leb c b'9'

abbrev pub is_word : ℕ → Bool
is_word c = is_lower c || is_digit c

abbrev pub is_underscore : ℕ → Bool
is_underscore c = c == b'_'

-- Python's white space
is_space : ℕ → Bool
is_space c =
    leb 9 c && leb c 13
    || leb 28 c && leb c 32
    || c == 133
    || c == 160
    || c == 5760
    || leb 8192 c && leb c 8202
    || c == 8232
    || c == 8233
    || c == 8239
    || c == 8287
    || c == 12288

-- `s.lstrip(...)` and `s.rstrip(...)` of the characters that pass a test
pub strip_start : (ℕ → Bool) → String → String
strip_start p String.[] = ""
strip_start p (String.◌∷◌ c s) =
    let rest = strip_start p s in if p (code c) then rest else String.◌∷◌ c s

abbrev pub keep_end : (ℕ → Bool) → Char → String → String
keep_end p c String.[] = if p (code c) then "" else String.◌∷◌ c ""
keep_end p c (String.◌∷◌ d s) = String.◌∷◌ c (String.◌∷◌ d s)

pub strip_end : (ℕ → Bool) → String → String
strip_end p String.[] = ""
strip_end p (String.◌∷◌ c s) = keep_end p c (strip_end p s)

-- `s.strip()`
unfoldable pub strip : String → String
unfolding strip_start strip_end is_space
strip s = strip_end is_space (strip_start is_space s)

-- `re.sub("[^a-z0-9]+", "_", s)`; the flag says whether a run of other characters has begun
pub squash : Bool → String → String
squash run String.[] = ""
squash run (String.◌∷◌ c s) =
    let rest = squash (not (is_word (code c))) s in
    if is_word (code c) then String.◌∷◌ c rest else if run then rest else String.◌∷◌ "_" rest

-- `re.sub("[^a-z0-9]+", "_", s).strip("_")`
unfoldable pub words : String → String
unfolding squash strip_start strip_end
words s = strip_end is_underscore (strip_start is_underscore (squash false s))

-- `not s or not s[0].isalpha()` on the result of `words`, then the fallback
unfoldable pub named : String → String → String
named String.[] fallback = fallback
named (String.◌∷◌ c s) fallback = if is_lower (code c) then String.◌∷◌ c s else fallback

-- `(?:_[a-z0-9]+)*` inside a word, and right after an underscore
pub snake_rest : Bool → String → Bool
snake_rest gap String.[] = not gap
snake_rest gap (String.◌∷◌ c s) =
    let after_word = snake_rest false s in
    let after_gap = snake_rest true s in
    if is_word (code c)
    then after_word
    else if gap
    then false
    else is_underscore (code c) && after_gap

-- `^[a-z][a-z0-9]*(?:_[a-z0-9]+)*$`
unfoldable pub is_snake_case : String → Bool
unfolding snake_rest
is_snake_case String.[] = false
is_snake_case (String.◌∷◌ c s) = is_lower (code c) && snake_rest false s

-- What was read of a part of a version: nothing, a zero, or a number with a leading nonzero digit.
pub data Part : Type 0 where
  empty zeroed number : Part

-- a part may end here
abbrev is_read : Part → Bool
is_read Part.empty = false
is_read _ = true

-- the part after one more digit
abbrev takes_digit : Part → Bool
takes_digit Part.zeroed = false
takes_digit _ = true

abbrev next_part : Part → ℕ → Part
next_part Part.empty c = if c == b'0' then Part.zeroed else Part.number
next_part p c = p

semver_rest : ℕ → Part → String → Bool
semver_rest dots p String.[] = dots == 0 && is_read p
semver_rest dots p (String.◌∷◌ c s) = elim (is_digit (code c)) [
  | true ↦ takes_digit p && semver_rest dots (next_part p (code c)) s
  | false ↦ elim (code c == b'.' && is_read p) [
    | true ↦ elim dots [ zero ↦ false | suc d ↦ semver_rest d Part.empty s ]
    | false ↦ false
  ]
]

-- `^(0|[1-9][0-9]*)\.(0|[1-9][0-9]*)\.(0|[1-9][0-9]*)$`
unfoldable pub is_semver : String → Bool
unfolding semver_rest
is_semver = semver_rest 2 Part.empty

begins : String → String → Bool
begins String.[] s = true
begins (String.◌∷◌ c t) String.[] = false
begins (String.◌∷◌ c t) (String.◌∷◌ d s) = code c == code d && begins t s

-- `text in s`
unfoldable pub occurs : String → String → Bool
unfolding begins
occurs t String.[] = begins t ""
occurs t (String.◌∷◌ c s) = begins t (String.◌∷◌ c s) || occurs t s
