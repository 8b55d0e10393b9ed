-- ===== src/Collection/Tcp/Framing.antt =====
-- src/collection/tcp_collector.py: the framing of a byte stream, one byte at a time, and the lines
-- that a buffer gives.
use mathlib.Core.List.{append-nil, append_assoc}
use ulpf_prism_sih.Prelude.{
  ℕ, zero, suc, ◌+◌, ◌≤◌, ◌<◌, ◌≡◌, refl, ◌∙◌, true, false, none, some, List, [], ◌∷◌, ◌++◌, arith,
  tests, ge→ltb, lt→ltb, ltb→lt, ltb, ◌==◌, if◌then◌else◌, length, length-append, Bytes, Bool-cases,
  inl, inr,
}
use ulpf_prism_sih.Collection.Tcp.{
  Received, chunk, closed, timed_out, failed, Emitted, ingesting, rejecting, recv_size, split_line,
  Drained, keep, stop, drain, after_drain, if_held,
}

-- The framing of a byte stream, one byte at a time: a delimiter emits the line before it, and the
-- first line to pass the limit is emitted, cut there, and ends the connection.
unfoldable pub frame : ℕ → Bytes → Bytes → (Bytes → List Emitted) → List Emitted
frame most line [] next = next line
frame most line (b ∷ bs) next =
    let on = frame most (line ++ b ∷ []) bs next in
    let fresh = frame most [] bs next in
    if b == 10
    then ingesting line ∷ fresh
    else if ltb most (length line + 1)
    then ingesting (line ++ b ∷ []) ∷ []
    else on

-- The bytes of a connection up to its first event that is no chunk.
abbrev pub stream : List Received → Bytes
stream (chunk bs ∷ more) = bs ++ stream more
stream _ = []

-- What that event does with the unfinished line.
abbrev pub ending : List Received → Bytes → List Emitted
ending [] line = []
ending (chunk bs ∷ more) line = ending more line
ending (closed ∷ more) line = if_held line ingesting
ending (timed_out ∷ more) line = if_held line rejecting
ending (failed ∷ more) line = []

-- What the buffer holds after its lines are taken out, if the connection goes on.
abbrev pub Leaves : Drained → (Bytes → Type 0) → Type 0
Leaves (keep lines rest) P = P rest
Leaves (stop lines) P = Unit

-- Each chunk is at most as long as the code asked for.
abbrev pub IsSchedule : ℕ → Bytes → List Received → Type 0
IsSchedule most buffer (chunk bs ∷ more) =
    (length bs ≤ recv_size most (length buffer))
    × Leaves (drain (length (buffer ++ bs)) most (buffer ++ bs)) (λ rest. IsSchedule most rest more)
IsSchedule most buffer _ = Unit

abbrev pub NoDelimiter : Bytes → Type 0
NoDelimiter [] = Unit
NoDelimiter (b ∷ bs) = ((b == 10) ≡ false) × NoDelimiter bs

pub frame-append :
    (most : ℕ) (line xs ys : Bytes) (next : Bytes → List Emitted)
    → frame most line (xs ++ ys) next ≡ frame most line xs (λ l. frame most l ys next)
unfolding frame
frame-append most line [] ys next = refl
frame-append most line (x ∷ xs) ys next =
    rw (frame-append most [] xs ys next) (rw (frame-append most (line ++ x ∷ []) xs ys next))

split_line-none : (line : Bytes) → NoDelimiter line → split_line line ≡ none
unfolding split_line
split_line-none [] h = refl
split_line-none (b ∷ bs) (p, h) = rw p (rw (split_line-none bs h))

split_line-delimiter :
    (line rest : Bytes) (b : ℕ)
    → NoDelimiter line
    → (b == 10) ≡ true
    → split_line (line ++ b ∷ rest) ≡ some (line, rest)
unfolding split_line
split_line-delimiter [] rest b h e = rw e
split_line-delimiter (x ∷ xs) rest b (p, h) e = rw p (rw (split_line-delimiter xs rest b h e))

NoDelimiter-snoc :
    (line : Bytes) (b : ℕ) → NoDelimiter line → (b == 10) ≡ false → NoDelimiter (line ++ b ∷ [])
NoDelimiter-snoc [] b h e = (e, tt)
NoDelimiter-snoc (x ∷ xs) b (p, h) e = (p, NoDelimiter-snoc xs b h e)

pub drain-none :
    (fuel most : ℕ) (line : Bytes) → NoDelimiter line → drain fuel most line ≡ keep [] line
unfolding drain
drain-none zero most line h = refl
drain-none (suc fuel) most line h = ground (arith, split_line-none line h)

-- A delimiter in the buffer takes one line out of it, if that is not overlong.
drain-delimiter :
    (fuel most : ℕ) (line rest : Bytes) (b : ℕ) (next : Bytes → List Emitted)
    → NoDelimiter line
    → (b == 10) ≡ true
    → length line ≤ most
    → after_drain most (drain (suc fuel) most (line ++ b ∷ rest)) next
      ≡ ingesting line ∷ after_drain most (drain fuel most rest) next
unfolding drain after_drain
drain-delimiter fuel most line rest b next h e fits =
    ground (arith, split_line-delimiter line rest b h e)

-- A byte over the limit is the last one that fits into the buffer.
overlong-frame :
    (fuel most : ℕ) (line bs : Bytes) (b : ℕ) (next : Bytes → List Emitted)
    → NoDelimiter line
    → (b == 10) ≡ false
    → most < length line + 1
    → length (line ++ b ∷ bs) ≤ most + 1
    → after_drain most (drain fuel most (line ++ b ∷ bs)) next ≡ frame most line (b ∷ bs) next
unfolding frame
overlong-frame fuel most line [] b next h e over room =
    rw (drain-none fuel most (line ++ b ∷ []) (NoDelimiter-snoc line b h e)) (
      rw e (
        rw (lt→ltb most (length line + 1) over) (
          unfold after_drain in
          rw (
            lt→ltb most (length (line ++ b ∷ []))
              (omega (arith, length-append line (b ∷ []), over))))))
overlong-frame fuel most line (x ∷ bs) b next h e over room =
    absurd (omega (arith, length-append line (b ∷ x ∷ bs), room, over))

-- One chunk, whatever it is: taking lines out of the buffer is framing the chunk's bytes.
pub after_drain-frame :
    (fuel most : ℕ) (line bs : Bytes) (next : Bytes → List Emitted)
    → length bs ≤ fuel
    → NoDelimiter line
    → length line ≤ most
    → length (line ++ bs) ≤ most + 1
    → after_drain most (drain fuel most (line ++ bs)) next ≡ frame most line bs next
after_drain-frame fuel most line [] next f h fits room = rw (append-nil line) (
    rw (drain-none fuel most line h)
      (unfold after_drain frame in rw (ge→ltb most (length line) fits)))
after_drain-frame zero most line (b ∷ bs) next f h fits room = absurd (omega arith)
after_drain-frame (suc fuel) most line (b ∷ bs) next f h fits room = elim (Bool-cases (b == 10)) [
  | inl e ↦
      drain-delimiter fuel most line bs b next h e fits
      ∙ rw
          (after_drain-frame fuel most [] bs next (omega arith) tt (omega arith)
            (omega (arith, length-append line (b ∷ bs), room)))
          (unfold frame in rw e)
  | inr e ↦ elim (Bool-cases (ltb most (length line + 1))) [
    | inl over ↦ overlong-frame (suc fuel) most line bs b next h e (ltb→lt _ _ over) room
    | inr within ↦ rw (← append_assoc line (b ∷ []) bs) (
        after_drain-frame (suc fuel) most (line ++ b ∷ []) bs next (omega arith)
          (NoDelimiter-snoc line b h e) (omega (tests, length-append line (b ∷ []), within))
          (omega (
            arith,
            length-append (line ++ b ∷ []) bs,
            length-append line (b ∷ []),
            length-append line (b ∷ bs),
            room,
          ))
        ∙ (unfold frame in rw e (rw within)))
  ]
]
