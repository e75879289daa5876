-- ===== src/Http/Server/Sent.antt =====
-- src/app/http_server.cpp: the bytes that send_next_chunk and poll send, and those still to be
-- sent.
use neu_stack.Common.{
  ◌≡◌, refl, ap, sym, ◌∙◌, inl, inr, Bool, true, false, Option, none, some, [], ◌++◌, if◌then◌else◌,
  arith, Bool-cases, Option-cases,
}
use neu_stack.Http.Text.{bytes_eq}
use neu_stack.Http.Parser.Rounds.{concat}
use neu_stack.Http.Server.Stream.{
  Generator, Connection, drain_pending, flush_pending, stream_chunks, begin_stream, continue_stream,
  send_next_chunk, poll,
}
use neu_stack.Http.Server.Loops.{send_chunks-Chunked}
use neu_stack.Http.Server.Pending.{to_stream, all_bytes, drain_pending-Drained}
use neu_stack.Http.Server.Begun.{
  IsSending, Sends, begin_stream-all_bytes, begin_stream-begun, begin_stream-generator,
  close-all_bytes, close-generator, stream_chunks-Streamed, streaming_bytes,
}

stream_chunks-begun :
    (g : Generator) (c : Connection)
    → c.pending_data ≡ []
    → c.pending_offset ≡ 0
    → c.header_sent ≡ true
    → (stream_chunks g c).1.header_sent ≡ true
unfolding stream_chunks
stream_chunks-begun g c e o begun =
    let law = (send_chunks-Chunked g.chunks c e o).header_sent ∙ begun in ground (arith, law)

stream_done :
    (g : Generator) (c : Connection)
    → (drain_pending (begin_stream g c)).0 ≡ true
    → continue_stream g c ≡ stream_chunks g (drain_pending (begin_stream g c)).1
unfolding continue_stream
stream_done g c done = rw done

stream_blocked :
    (g : Generator) (c : Connection)
    → (drain_pending (begin_stream g c)).0 ≡ false
    → continue_stream g c ≡ (false, (drain_pending (begin_stream g c)).1)
unfolding continue_stream
stream_blocked g c blocked = rw blocked

send_next_chunk_lem :
    (g : Generator) (c : Connection)
    → c.generator ≡ some g
    → send_next_chunk c ≡ continue_stream g c
unfolding send_next_chunk
send_next_chunk_lem g c e =
    let f : Option Generator → Bool × Connection =
      λ o. elim o [ none ↦ (true, c) | some g' ↦ continue_stream g' c ] in
    ap f e

poll_streaming :
    (g : Generator) (c : Connection) → c.generator ≡ some g → poll c ≡ (send_next_chunk c).1
unfolding poll
poll_streaming g c e =
    let f : Option Generator → Connection = λ o. elim o [
      | none ↦ if bytes_eq c.pending_data [] then c else (flush_pending c).1
      | some g' ↦ (send_next_chunk c).1
    ] in
    ap f e

poll_idle :
    (c : Connection)
    → c.generator ≡ none
    → poll c ≡ (if bytes_eq c.pending_data [] then c else (flush_pending c).1)
unfolding poll
poll_idle c e =
    let f : Option Generator → Connection = λ o. elim o [
      | none ↦ if bytes_eq c.pending_data [] then c else (flush_pending c).1
      | some g' ↦ (send_next_chunk c).1
    ] in
    ap f e

send_next_chunk-Sends :
    (g : Generator) (c : Connection)
    → c.generator ≡ some g
    → IsSending c
    → Sends c (send_next_chunk c)
send_next_chunk-Sends g c e sending =
    let c1 = begin_stream g c in
    let first = begin_stream-all_bytes g c e sending in
    let generator1 = begin_stream-generator g c ∙ e in
    let r = drain_pending c1 in
    let law = drain_pending-Drained c1 in
    let begun = law.leaves.header_sent ∙ begin_stream-begun g c in
    let generator = law.leaves.generator ∙ generator1 in
    -- What is left of the stream is the same before and behind the drain.
    let drained : all_bytes r.1 ≡ all_bytes c1 = (λ i.
      law.bytes i
      ++ to_stream (law.leaves.keep_alive i) (law.leaves.header_sent i) (law.leaves.generator i)) in
    elim (Bool-cases r.0) [
      | inl done ↦
          let empty = law.empty done in
          let next = stream_chunks-Streamed g r.1 empty.0 empty.1 begun in
          let rest : all_bytes r.1 ≡ r.1.sent ++ concat g.chunks =
            streaming_bytes g r.1 generator begun empty.0 in
          let whole = sym rest ∙ drained ∙ first in
          rw (send_next_chunk_lem g c e ∙ stream_done g c done) record {
            bytes = next.bytes ∙ whole;
            begun = stream_chunks-begun g r.1 empty.0 empty.1 begun;
            finished = λ h. next.finished h ∙ whole;
          }
      | inr blocked ↦ rw (send_next_chunk_lem g c e ∙ stream_blocked g c blocked) record {
        bytes = drained ∙ first;
        begun = begun;
        finished = λ h. absurd (ground (arith, h));
      }
    ]

pub flush-all_bytes :
    (c : Connection)
    → (all_bytes (flush_pending c).1 ≡ all_bytes c) × ((flush_pending c).1.generator ≡ c.generator)
unfolding flush_pending
flush-all_bytes c =
    let law = drain_pending-Drained c in
    let kept : all_bytes (drain_pending c).1 ≡ all_bytes c = (λ i.
      law.bytes i
      ++ to_stream (law.leaves.keep_alive i) (law.leaves.header_sent i) (law.leaves.generator i)) in
    elim (Bool-cases (drain_pending c).0) [
      | inl done ↦ rw done (
        close-all_bytes (drain_pending c).1 ∙ kept,
        close-generator (drain_pending c).1 ∙ law.leaves.generator,
      )
      | inr blocked ↦ rw blocked (kept, law.leaves.generator)
    ]

idle-IsSending : (c : Connection) → c.generator ≡ none → IsSending c
idle-IsSending c e g h fresh = absurd (ground (arith, e, h))

begun-IsSending : (c : Connection) → c.header_sent ≡ true → IsSending c
begun-IsSending c e g h fresh = absurd (ground (arith, e, fresh))

-- A call of poll, whatever send accepts in it, loses no byte, repeats none and keeps their order:
-- what is sent, with what is pending and what is still to be generated, stays the same. Where it
-- ends a streamed response, all of it has been sent.
pub poll-all_bytes :
    (c : Connection)
    → IsSending c
    → (all_bytes (poll c) ≡ all_bytes c)
      × IsSending (poll c)
      × ((g : Generator)
          → c.generator ≡ some g
          → (send_next_chunk c).0 ≡ true
          → (poll c).sent ≡ all_bytes c)
poll-all_bytes c sending = elim (Option-cases c.generator) [
  | inl idle ↦ elim (Bool-cases (bytes_eq c.pending_data [])) [
    | inl none' ↦
        let step : poll c ≡ c = poll_idle c idle ∙ (rw none') in
        rw step (refl, sending, λ g e h. absurd (ground (arith, idle, e)))
    | inr some' ↦
        let step : poll c ≡ (flush_pending c).1 = poll_idle c idle ∙ (rw some') in
        let law = flush-all_bytes c in
        rw step (
          law.0,
          idle-IsSending (flush_pending c).1 (law.1 ∙ idle),
          λ g e h. absurd (ground (arith, idle, e)),
        )
  ]
  | inr (g, e) ↦
      let law = send_next_chunk-Sends g c e sending in
      rw (poll_streaming g c e)
        (law.bytes, begun-IsSending (send_next_chunk c).1 law.begun, λ g' e' h. law.finished h)
]
