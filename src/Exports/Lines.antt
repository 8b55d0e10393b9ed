-- ===== src/Exports/Lines.antt =====
-- The lines of a file, as a reader of JSON Lines takes them.
use ulpf_prism_sih.Prelude.{
  ℕ, Bool, false, ◌||◌, List, [], ◌∷◌, ◌++◌, map, ◌==◌, ◌≡◌, refl, ap, ◌∙◌, inl, inr, arith,
  Bool-cases, if◌then◌else◌, Bytes,
}
use ulpf_prism_sih.Dict.{Dict}
use ulpf_prism_sih.Json.{Json}
use ulpf_prism_sih.Exports.{Environment, payload}

-- One more byte at the start of the first line.
abbrev onto : ℕ → List Bytes → List Bytes
onto c [] = (c ∷ []) ∷ []
onto c (l ∷ ls) = (c ∷ l) ∷ ls

-- The lines of a content, each without the line feed at its end.
unfoldable pub lines : Bytes → List Bytes
lines [] = []
lines (c ∷ cs) = if c == 10 then [] ∷ lines cs else onto c (lines cs)

abbrev pub has_line_feed : Bytes → Bool
has_line_feed [] = false
has_line_feed (c ∷ cs) = c == 10 || has_line_feed cs

lines-line : (xs ys : Bytes) → has_line_feed xs ≡ false → lines (xs ++ 10 ∷ ys) ≡ xs ∷ lines ys
unfolding lines
lines-line [] ys h = refl
lines-line (x ∷ xs) ys h = elim (Bool-cases (x == 10)) [
  | inl q ↦ ground (arith, q, h)
  | inr q ↦ rw q (ap (onto x) (lines-line xs ys (ground (arith, q, h))))
]

pub lines-payload :
    (w : Environment) (es : List (Dict Json))
    → ((e : Dict Json) → has_line_feed (w.dumps e) ≡ false)
    → lines (payload w es) ≡ map w.dumps es
unfolding payload
lines-payload w [] h = unfold lines in refl
lines-payload w (e ∷ es) h =
    lines-line (w.dumps e) (payload w es) (h e) ∙ ap (λ ls. w.dumps e ∷ ls) (lines-payload w es h)
