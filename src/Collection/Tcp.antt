-- ===== src/Collection/Tcp.antt =====
-- src/collection/tcp_collector.py: the newline framing of one TCP connection. The connection is the
-- sequence of what `recv` returned or raised; the result is the calls into the pipeline, in order.
pub mod Framing
pub mod Draining
pub mod Stream
pub mod Bounds
use ulpf_prism_sih.Prelude.{
  ℕ, zero, suc, ◌+◌, ◌-◌, Bool, true, false, Option, none, some, List, [], ◌∷◌, ◌++◌, map, min, max,
  ltb, ◌==◌, if◌then◌else◌, length, Bytes,
}

pub data Received : Type 0 where
  chunk : Bytes → Received
  closed timed_out failed : Received

-- `_emit` ingests a frame; an incomplete frame is rejected.
pub data Emitted : Type 0 where
  ingesting : Bytes → Emitted
  rejecting : Bytes → Emitted

-- how many bytes the code asks `recv` for
unfoldable pub recv_size : ℕ → ℕ → ℕ
recv_size most held = min 65535 (max 1 (most + 1 - held))

abbrev cons_line : ℕ → Option (Bytes × Bytes) → Option (Bytes × Bytes)
cons_line b none = none
cons_line b (some (line, rest)) = some (b ∷ line, rest)

-- the bytes before the first delimiter, and those behind it
unfoldable pub split_line : Bytes → Option (Bytes × Bytes)
split_line [] = none
split_line (b ∷ bs) =
    let found = split_line bs in if b == 10 then some ([], bs) else cons_line b found

-- The lines taken out of the buffer, with what is left in it, or with the early return.
pub data Drained : Type 0 where
  keep : List Bytes → Bytes → Drained
  stop : List Bytes → Drained

abbrev prepend : Bytes → Drained → Drained
prepend line (keep lines rest) = keep (line ∷ lines) rest
prepend line (stop lines) = stop (line ∷ lines)

-- `while DELIMITER in buffer`; each round takes at least one byte, so the length is enough fuel
unfoldable pub drain : ℕ → ℕ → Bytes → Drained
drain zero most buffer = keep [] buffer
drain (suc fuel) most buffer = elim (split_line buffer) [
  | none ↦ keep [] buffer
  | some (line, rest) ↦
      if ltb most (length line) then stop (line ∷ []) else prepend line (drain fuel most rest)
]

-- the rest of a round: an overlong buffer is emitted and ends the connection
unfoldable pub after_drain : ℕ → Drained → (Bytes → List Emitted) → List Emitted
after_drain most (stop lines) next = map ingesting lines
after_drain most (keep lines rest) next =
    map ingesting lines ++ (if ltb most (length rest) then ingesting rest ∷ [] else next rest)

abbrev pub if_held : Bytes → (Bytes → Emitted) → List Emitted
if_held [] emit = []
if_held (b ∷ bs) emit = emit (b ∷ bs) ∷ []

-- the loop of `_handle_conn`
unfoldable pub handle_conn : ℕ → Bytes → List Received → List Emitted
handle_conn most buffer [] = []
handle_conn most buffer (timed_out ∷ more) = if_held buffer rejecting
handle_conn most buffer (failed ∷ more) = []
handle_conn most buffer (closed ∷ more) = if_held buffer ingesting
handle_conn most buffer (chunk bs ∷ more) =
    let held = buffer ++ bs in
    after_drain most (drain (length held) most held) (λ rest. handle_conn most rest more)
