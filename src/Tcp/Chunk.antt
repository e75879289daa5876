-- ===== src/Tcp/Chunk.antt =====
-- src/transport/tcp_connection.cpp: what one round of send_buffered_data does with its bytes.
use neu_stack.Common.{
  ℕ, zero, suc, ◌-◌, ◌≤◌, ◌<◌, min, ◌≡◌, refl, sym, ap, ◌∙◌, true, List, [], ◌∷◌, ◌++◌, length,
  take, drop, take-append-drop, length-take, length-drop, arith,
}
use mathlib.Core.List.{append_assoc, append-nil}
use mathlib.Core.Path.{subst}
use neu_stack.Seq.{u32, add32}
use neu_stack.Stream
use neu_stack.Stream.{StreamBuffer, peek_contiguous}
use neu_stack.Stream.Refine.{consume_refines, peek_contiguous_lem}
use neu_stack.Stream.Contents.{IsValid, contents, length-contents}
use neu_stack.Tcp.{RetransmitEntry, Tcb}
use neu_stack.Tcp.World.{Conn, Env}
use neu_stack.Tcp.Send.{needs_retransmit, send_segment, send_room, send_chunk, advance}
use neu_stack.Tcp.Frame.{send_segment-SameSender}
use neu_stack.Tcp.Flight.{send_segment-queue, send_segment-nxt, new_entry}

-- The bytes that the retransmission queue holds.
pub queued : List RetransmitEntry → List ℕ
queued [] = []
queued (e ∷ rest) = e.bytes ++ queued rest

-- All bytes of the stream that are not acknowledged yet: sent ones, then buffered ones.
unfoldable pub unacked : Tcb → List ℕ
unacked t = queued t.retransmit_queue ++ contents t.send_buffer

queued-append :
    (queue more : List RetransmitEntry) → queued (queue ++ more) ≡ queued queue ++ queued more
unfolding queued
queued-append [] more = refl
queued-append (e ∷ queue) more =
    ap (◌++◌ e.bytes) (queued-append queue more)
    ∙ sym (append_assoc e.bytes (queued queue) (queued more))

has_data : (x : ℕ) (xs : List ℕ) → needs_retransmit 24 (x ∷ xs) ≡ true
has_data x xs = ground arith

-- A FIN holds no byte.
pub fin-queued :
    (env : Env) (c : Conn)
    → queued (send_segment env 17 [] c).tcb.retransmit_queue ≡ queued c.tcb.retransmit_queue
unfolding queued
fin-queued env c =
    ap queued (send_segment-queue env 17 [] c (omega arith))
    ∙ queued-append c.tcb.retransmit_queue (new_entry 17 [] c ∷ [])
    ∙ append-nil (queued c.tcb.retransmit_queue)

data_queue :
    (env : Env) (x : ℕ) (xs : List ℕ) (c : Conn)
    → length (x ∷ xs) ≤ 1460
    → (send_segment env 24 (x ∷ xs) c).tcb.retransmit_queue
      ≡ c.tcb.retransmit_queue ++ (new_entry 24 (x ∷ xs) c ∷ [])
data_queue env x xs c fit = send_segment-queue env 24 (x ∷ xs) c fit ∙ rw (has_data x xs) refl

-- A segment without SYN and FIN that fits puts its bytes behind those of the queue.
send_data-queued :
    (env : Env) (bytes : List ℕ) (c : Conn)
    → length bytes ≤ 1460
    → queued (send_segment env 24 bytes c).tcb.retransmit_queue
      ≡ queued c.tcb.retransmit_queue ++ bytes
unfolding queued
send_data-queued env [] c fit =
    ap queued (send_segment-queue env 24 [] c fit)
    ∙ sym (append-nil (queued c.tcb.retransmit_queue))
send_data-queued env (x ∷ xs) c fit =
    ap queued (data_queue env x xs c fit)
    ∙ queued-append c.tcb.retransmit_queue (new_entry 24 (x ∷ xs) c ∷ [])
    ∙ ap (◌++◌ (queued c.tcb.retransmit_queue)) (append-nil (x ∷ xs))

send_data-nxt :
    (env : Env) (bytes : List ℕ) (c : Conn)
    → length bytes ≤ 1460
    → c.tcb.snd_nxt < u32
    → (send_segment env 24 bytes c).tcb.snd_nxt ≡ add32 c.tcb.snd_nxt (length bytes)
unfolding advance
send_data-nxt env bytes c fit h = send_segment-nxt env 24 bytes c fit

take-take : (m n : ℕ) (xs : List ℕ) → m ≤ n → take m (take n xs) ≡ take m xs
take-take zero n xs h = refl
take-take (suc m) zero xs h = absurd (omega arith)
take-take (suc m) (suc n) [] h = refl
take-take (suc m) (suc n) (x ∷ xs) h = ap (◌∷◌ x) (take-take m n xs (omega arith))

-- What a round of the loop takes out of the buffer.
abbrev pub chunk : Env → Tcb → ℕ
chunk env t = min (length (peek_contiguous t.send_buffer)) (min (send_room env t) t.options.mss)

-- A round of the loop, for a connection whose buffer is well-formed and whose MSS fits a packet.
module _ (env : Env) (c : Conn) (v : IsValid c.tcb.send_buffer) (nxt : c.tcb.snd_nxt < u32)
    (fit : c.tcb.options.mss ≤ 1460) where
  chunk_bytes : List ℕ
  chunk_bytes = take (chunk env c.tcb) (peek_contiguous c.tcb.send_buffer)

  length-chunk_bytes : length chunk_bytes ≡ chunk env c.tcb
  unfolding chunk_bytes
  length-chunk_bytes =
      omega (arith, length-take (chunk env c.tcb) (peek_contiguous c.tcb.send_buffer))

  chunk_fits : length chunk_bytes ≤ 1460
  chunk_fits = omega (arith, length-chunk_bytes, fit)

  -- The chunk is the front of the buffer.
  chunk_bytes-contents : chunk_bytes ≡ take (chunk env c.tcb) (contents c.tcb.send_buffer)
  unfolding chunk_bytes
  chunk_bytes-contents =
      let span = peek_contiguous_lem c.tcb.send_buffer v in
      ap (take (chunk env c.tcb)) span.0
      ∙ take-take (chunk env c.tcb) (length (peek_contiguous c.tcb.send_buffer))
          (contents c.tcb.send_buffer) (omega arith)

  chunk_sent : Conn
  chunk_sent = send_segment env 24 chunk_bytes c

  chunk_sent_buffer : chunk_sent.tcb.send_buffer ≡ c.tcb.send_buffer
  unfolding chunk_sent
  chunk_sent_buffer = (send_segment-SameSender env 24 chunk_bytes c).send_buffer

  pub consumed :
      (contents (send_chunk env c).tcb.send_buffer
        ≡ drop (chunk env c.tcb) (contents c.tcb.send_buffer))
      × IsValid (send_chunk env c).tcb.send_buffer
  unfolding send_chunk chunk_sent chunk_bytes
  consumed =
      subst
        (λ s.
          (contents (Stream.consume s (chunk env c.tcb)).1
            ≡ drop (chunk env c.tcb) (contents c.tcb.send_buffer))
          × IsValid (Stream.consume s (chunk env c.tcb)).1)
        (sym chunk_sent_buffer)
        (let all = consume_refines c.tcb.send_buffer (chunk env c.tcb) v in (all.1, all.2))

  pub send_chunk-unacked : unacked (send_chunk env c).tcb ≡ unacked c.tcb
  unfolding unacked
  send_chunk-unacked =
      ap (λ q. q ++ contents (send_chunk env c).tcb.send_buffer) queue
      ∙ ap (λ b. (queued c.tcb.retransmit_queue ++ chunk_bytes) ++ b) consumed.0
      ∙ append_assoc (queued c.tcb.retransmit_queue) chunk_bytes
          (drop (chunk env c.tcb) (contents c.tcb.send_buffer))
      ∙ ap (λ b. queued c.tcb.retransmit_queue ++ b)
          (ap (λ b. b ++ drop (chunk env c.tcb) (contents c.tcb.send_buffer)) chunk_bytes-contents
            ∙ take-append-drop (chunk env c.tcb) (contents c.tcb.send_buffer))
    where
      queue :
          queued (send_chunk env c).tcb.retransmit_queue
          ≡ queued c.tcb.retransmit_queue ++ chunk_bytes
      queue =
          unfold send_chunk in unfold chunk_bytes in send_data-queued env chunk_bytes c chunk_fits

  pub send_chunk-nxt : (send_chunk env c).tcb.snd_nxt ≡ add32 c.tcb.snd_nxt (chunk env c.tcb)
  unfolding send_chunk chunk_bytes
  send_chunk-nxt =
      send_data-nxt env chunk_bytes c chunk_fits nxt ∙ ap (add32 c.tcb.snd_nxt) length-chunk_bytes

  pub send_chunk-size :
      (send_chunk env c).tcb.send_buffer.size ≡ c.tcb.send_buffer.size - chunk env c.tcb
  send_chunk-size = omega (
    arith,
    ap length consumed.0,
    length-contents (send_chunk env c).tcb.send_buffer,
    length-contents c.tcb.send_buffer,
    length-drop (chunk env c.tcb) (contents c.tcb.send_buffer),
  )
