-- ===== src/Python/Words/Snake.antt =====
-- What the replacement of other characters and the stripping leave is in snake case.
use Prim.Native.Char.{Char, code}
use ulpf_prism_sih.Prelude.{
  String, Bool, true, false, not, ◌&&◌, ◌≡◌, refl, ◌⊎◌, inl, inr, arith, if◌then◌else◌, Bool-cases,
}
use ulpf_prism_sih.Python.Words.{
  is_word, is_underscore, strip_start, keep_end, strip_end, squash, words, named, snake_rest,
  is_snake_case,
}

-- Letters, digits and single underscores; the flag says whether an underscore came last.
is_tidy : Bool → String → Bool
is_tidy gap String.[] = true
is_tidy gap (String.◌∷◌ c s) =
    let after_word = is_tidy false s in
    let after_gap = is_tidy true s in
    if is_word (code c)
    then after_word
    else if gap
    then false
    else is_underscore (code c) && after_gap

squash_lem : (run : Bool) (s : String) → is_tidy run (squash run s) ≡ true
unfolding squash is_tidy
squash_lem run String.[] = refl
squash_lem true (String.◌∷◌ c s) = ground (arith, squash_lem (not (is_word (code c))) s)
squash_lem false (String.◌∷◌ c s) = ground (arith, squash_lem (not (is_word (code c))) s)

strip_start_lem : (s : String) → is_tidy true s ≡ true → strip_start is_underscore s ≡ s
unfolding strip_start is_tidy
strip_start_lem String.[] h = refl
strip_start_lem (String.◌∷◌ c s) h = ground arith

strip_start-tidy :
    (s : String) → is_tidy false s ≡ true → is_tidy true (strip_start is_underscore s) ≡ true
unfolding strip_start is_tidy
strip_start-tidy String.[] h = refl
strip_start-tidy (String.◌∷◌ c s) h = ground (arith, strip_start_lem s)

-- A text that is tidy after an underscore ends in a word, or nothing is left of it.
abbrev Ends : Bool → String → Type 0
Ends gap s = (snake_rest gap s ≡ true) ⊎ (s ≡ "")

word_end :
    (gap : Bool) (c : Char) (r : String)
    → is_word (code c) ≡ true
    → Ends false r
    → Ends gap (keep_end is_underscore c r)
unfolding snake_rest
word_end gap c String.[] w h = inl (ground arith)
word_end gap c (String.◌∷◌ d r) w (inl h) = inl (ground arith)
word_end gap c (String.◌∷◌ d r) w (inr h) = cc

gap_end :
    (c : Char) (r : String)
    → is_word (code c) ≡ false
    → is_underscore (code c) ≡ true
    → Ends true r
    → Ends false (keep_end is_underscore c r)
unfolding snake_rest
gap_end c String.[] w u h = inr (ground arith)
gap_end c (String.◌∷◌ d r) w u (inl h) = inl (ground arith)
gap_end c (String.◌∷◌ d r) w u (inr h) = cc

strip_end-Ends :
    (gap : Bool) (s : String) → is_tidy gap s ≡ true → Ends gap (strip_end is_underscore s)
unfolding strip_end is_tidy snake_rest
strip_end-Ends gap String.[] h = inr refl
strip_end-Ends true (String.◌∷◌ c s) h =
    word_end true c (strip_end is_underscore s) (ground arith)
      (strip_end-Ends false s (ground arith))
strip_end-Ends false (String.◌∷◌ c s) h = elim (Bool-cases (is_word (code c))) [
  | inl w ↦ word_end false c (strip_end is_underscore s) w (strip_end-Ends false s (ground arith))
  | inr o ↦
      gap_end c (strip_end is_underscore s) o (ground arith) (strip_end-Ends true s (ground arith))
]

-- The words of a text are in snake case, from their second character on at least, or empty.
words-Ends : (s : String) → Ends true (words s)
unfolding words
words-Ends s =
    strip_end-Ends true (strip_start is_underscore (squash false s))
      (strip_start-tidy (squash false s) (squash_lem false s))

named-is_snake_case :
    (s fallback : String)
    → Ends true s
    → is_snake_case fallback ≡ true
    → is_snake_case (named s fallback) ≡ true
unfolding named is_snake_case snake_rest
named-is_snake_case String.[] fallback e h = h
named-is_snake_case (String.◌∷◌ c s) fallback (inl e) h = ground arith
named-is_snake_case (String.◌∷◌ c s) fallback (inr e) h = cc

pub named-words :
    (s fallback : String)
    → is_snake_case fallback ≡ true
    → is_snake_case (named (words s) fallback) ≡ true
named-words s fallback = named-is_snake_case (words s) fallback (words-Ends s)
