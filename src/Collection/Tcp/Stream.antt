-- ===== src/Collection/Tcp/Stream.antt =====
-- src/collection/tcp_collector.py: the calls of a connection against the framing of its bytes.
use ulpf_prism_sih.Prelude.{
  ℕ, ◌≤◌, ◌≡◌, refl, sym, ◌∙◌, List, [], ◌∷◌, ◌++◌, arith, length, length-append, Bytes,
}
use ulpf_prism_sih.Collection.Tcp.{Received, chunk, closed, timed_out, failed, drain, handle_conn}
use ulpf_prism_sih.Collection.Tcp.Framing.{
  frame, stream, ending, IsSchedule, NoDelimiter, frame-append, after_drain-frame,
}
use ulpf_prism_sih.Collection.Tcp.Draining.{
  drain-NoDelimiter, after_drain-congr, Leaves-map, chunk_fits,
}

-- The calls of a connection are the framing of its byte stream, for any cut of the stream into
-- chunks of at most the requested size, and so do not depend on the cut. The buffer may start with
-- a part of a line within the limit.
pub handle_conn-frame :
    (most : ℕ) (buffer : Bytes) (events : List Received)
    → NoDelimiter buffer
    → length buffer ≤ most
    → IsSchedule most buffer events
    → handle_conn most buffer events ≡ frame most buffer (stream events) (ending events)
unfolding handle_conn frame
handle_conn-frame most buffer [] h fits ok = refl
handle_conn-frame most buffer (closed ∷ more) h fits ok = refl
handle_conn-frame most buffer (timed_out ∷ more) h fits ok = refl
handle_conn-frame most buffer (failed ∷ more) h fits ok = refl
handle_conn-frame most buffer (chunk bs ∷ more) h fits (asked, ok) =
    let held = buffer ++ bs in
    let drained = drain (length held) most held in
    after_drain-congr most drained (λ rest. handle_conn most rest more)
      (λ rest. frame most rest (stream more) (ending more))
      (Leaves-map drained NoDelimiter (λ rest. IsSchedule most rest more) _
        (λ rest clean next short. handle_conn-frame most rest more clean short next)
        (drain-NoDelimiter (length held) most held (omega arith)) ok)
    ∙ after_drain-frame (length held) most buffer bs _ (omega (arith, length-append buffer bs)) h
        fits (chunk_fits most buffer bs fits asked)
    ∙ sym (frame-append most buffer bs (stream more) (ending more))

-- Two connections that carry the same bytes and end alike make the same calls, however `recv` cut
-- the bytes.
pub handle_conn-chunks :
    (most : ℕ) (one other : List Received)
    → IsSchedule most [] one
    → IsSchedule most [] other
    → stream one ≡ stream other
    → ending one ≡ ending other
    → handle_conn most [] one ≡ handle_conn most [] other
handle_conn-chunks most one other p q bytes end =
    handle_conn-frame most [] one tt (omega arith) p
    ∙ (λ i. frame most [] (bytes i) (end i))
    ∙ sym (handle_conn-frame most [] other tt (omega arith) q)
