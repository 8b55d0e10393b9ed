-- ===== src/Collection/Tcp/Draining.antt =====
-- src/collection/tcp_collector.py: what the loop over the delimiters leaves in the buffer.
use ulpf_prism_sih.Prelude.{
  ℕ, zero, suc, ◌+◌, ◌≤◌, ◌<◌, ◌≡◌, refl, none, some, List, [], ◌∷◌, ◌++◌, arith, tests, ltb, ◌==◌,
  if◌then◌else◌, length, length-append, Bytes, Bool-cases, Option-cases, inl, inr,
}
use ulpf_prism_sih.Collection.Tcp.{
  Emitted, recv_size, split_line, Drained, keep, stop, prepend, drain, after_drain,
}
use ulpf_prism_sih.Collection.Tcp.Framing.{Leaves, NoDelimiter, drain-none}

split_line-eq-none : (buffer : Bytes) → split_line buffer ≡ none → NoDelimiter buffer
unfolding split_line
split_line-eq-none [] h = tt
split_line-eq-none (b ∷ bs) h = (ground arith, split_line-eq-none bs (ground arith))

split_line_shorter :
    (buffer line rest : Bytes) → split_line buffer ≡ some (line, rest) → length rest < length buffer
unfolding split_line
split_line_shorter [] line rest h = cc
split_line_shorter (b ∷ bs) line rest h = elim (Bool-cases (b == 10)) [
  | inl e ↦ ground arith
  | inr e ↦ elim (Option-cases (split_line bs)) [
    | inl q ↦ ground arith
    | inr ((l, r), q) ↦ ground (arith, split_line_shorter bs l r q)
  ]
]

prepend-Leaves :
    (line : Bytes) (d : Drained) (P : Bytes → Type 0) → Leaves d P → Leaves (prepend line d) P
prepend-Leaves line (keep lines rest) P h = h
prepend-Leaves line (stop lines) P h = tt

drain-some :
    (fuel most : ℕ) (buffer line rest : Bytes)
    → split_line buffer ≡ some (line, rest)
    → drain (suc fuel) most buffer
      ≡ (if ltb most (length line) then stop (line ∷ []) else prepend line (drain fuel most rest))
unfolding drain
drain-some fuel most buffer line rest q = ground (arith, q)

-- What stays in the buffer holds no delimiter.
pub drain-NoDelimiter :
    (fuel most : ℕ) (buffer : Bytes)
    → length buffer ≤ fuel
    → Leaves (drain fuel most buffer) NoDelimiter
drain-NoDelimiter zero most [] f = unfold drain in tt
drain-NoDelimiter zero most (b ∷ bs) f = absurd (omega arith)
drain-NoDelimiter (suc fuel) most buffer f = elim (Option-cases (split_line buffer)) [
  | inl q ↦
      rw (drain-none (suc fuel) most buffer (split_line-eq-none buffer q))
        (split_line-eq-none buffer q)
  | inr ((line, rest), q) ↦
      rw (drain-some fuel most buffer line rest q) (elim (Bool-cases (ltb most (length line))) [
        | inl over ↦ rw over tt
        | inr fits ↦ rw fits (
            prepend-Leaves line (drain fuel most rest) NoDelimiter (
              drain-NoDelimiter fuel most rest
                (omega (arith, split_line_shorter buffer line rest q))))
      ])
]

pub after_drain-congr :
    (most : ℕ) (d : Drained) (f g : Bytes → List Emitted)
    → Leaves d (λ rest. length rest ≤ most → f rest ≡ g rest)
    → after_drain most d f ≡ after_drain most d g
unfolding after_drain
after_drain-congr most (stop lines) f g h = refl
after_drain-congr most (keep lines rest) f g h = elim (Bool-cases (ltb most (length rest))) [
  | inl over ↦ rw over
  | inr fits ↦ rw fits (rw (h (omega (tests, fits))))
]

pub Leaves-map :
    (d : Drained) (P Q R : Bytes → Type 0)
    → ((rest : Bytes) → P rest → Q rest → R rest)
    → Leaves d P
    → Leaves d Q
    → Leaves d R
Leaves-map (keep lines rest) P Q R f p q = f rest p q
Leaves-map (stop lines) P Q R f p q = tt

-- A chunk of the requested size keeps the buffer within one byte over the limit.
pub chunk_fits :
    (most : ℕ) (buffer bs : Bytes)
    → length buffer ≤ most
    → length bs ≤ recv_size most (length buffer)
    → length (buffer ++ bs) ≤ most + 1
unfolding recv_size
chunk_fits most buffer bs fits asked = omega (arith, length-append buffer bs, fits, asked)
