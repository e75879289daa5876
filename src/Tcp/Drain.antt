-- ===== src/Tcp/Drain.antt =====
-- src/transport/tcp_connection.cpp: the loop of send_buffered_data.
use neu_stack.Common.{
  ℕ, zero, suc, ◌≤◌, ◌<◌, max, ◌≡◌, ◌≢◌, sym, ap, ◌∙◌, ◌⊎◌, inl, inr, false, ◌||◌, [], ◌++◌, arith,
  ◌==◌, Bool-cases,
}
use mathlib.Core.Path.{subst}
use neu_stack.Stream
use neu_stack.Stream.{StreamBuffer, peek_contiguous}
use neu_stack.Stream.Refine.{peek_contiguous_lem}
use neu_stack.Stream.Contents.{IsValid, contents}
use neu_stack.Tcp.{Tcb}
use neu_stack.Tcp.World.{Conn, Env, effective_window}
use neu_stack.Tcp.Send.{
  send_room, send_chunk, drain, finish_close, send_buffered_data, back_pressure,
}
use neu_stack.Tcp.Frame.{send_segment-SameSender}
use neu_stack.Tcp.Queue.{in_flight}
use neu_stack.Tcp.Chunk.{chunk, fin-queued, queued, send_chunk-size, unacked}
use neu_stack.Tcp.Rounds.{
  Drained, Drained-refl, IsReady, SameLimits-trans, send_chunk-Drained, send_chunk-IsReady,
  send_chunk-SameLimits,
}

Drained-trans : {env : Env} {t u v : Tcb} → Drained env t u → Drained env u v → Drained env t v
Drained-trans h k = record {
  same = SameLimits-trans h.same k.same;
  valid = k.valid;
  bytes = k.bytes ∙ h.bytes;
  nxt_in = k.nxt_in;
  within = omega (arith, h.within, k.within, h.same.window);
}

drain-Drained :
    (env : Env) (fuel : ℕ) (c : Conn) → IsReady c.tcb → Drained env c.tcb (drain env fuel c).tcb
unfolding drain
drain-Drained env zero c r = Drained-refl env c r
drain-Drained env (suc fuel) c r = ground (
  arith,
  Drained-refl env c r,
  Drained-trans (send_chunk-Drained env c r)
      (drain-Drained env fuel (send_chunk env c) (send_chunk-IsReady env c r)),
)

-- A round that the loop enters takes a byte at least.
chunk_progress :
    (env : Env) (c : Conn)
    → IsReady c.tcb
    → 0 < c.tcb.options.mss
    → c.tcb.send_buffer.size ≢ 0
    → send_room env c.tcb ≢ 0
    → 0 < chunk env c.tcb
chunk_progress env c r mss size room =
    omega (arith, mss, room, size, (peek_contiguous_lem c.tcb.send_buffer r.valid).2)

going : (size room : ℕ) → ((size == 0) || (room == 0)) ≡ false → (size ≢ 0) × (room ≢ 0)
going size room h = (ground arith, ground arith)

drain_empties :
    (env : Env) (fuel : ℕ) (c : Conn)
    → IsReady c.tcb
    → 0 < c.tcb.options.mss
    → c.tcb.send_buffer.size < fuel
    → ((drain env fuel c).tcb.send_buffer.size ≡ 0) ⊎ (send_room env (drain env fuel c).tcb ≡ 0)
unfolding drain
drain_empties env zero c r mss enough = absurd (omega (arith, enough))
drain_empties env (suc fuel) c r mss enough =
    elim (Bool-cases (Stream.empty c.tcb.send_buffer || (send_room env c.tcb == 0))) [
      | inl stop ↦ rw stop (ground arith)
      | inr go ↦ rw go (
          drain_empties env fuel (send_chunk env c) (send_chunk-IsReady env c r)
            (omega (arith, mss, ap (λ o. o.mss) (send_chunk-SameLimits env c).options))
            (omega (
              arith,
              enough,
              (going c.tcb.send_buffer.size (send_room env c.tcb) go).0,
              send_chunk-size env c r.valid r.nxt_in r.mss_fits,
              (let open_one = going c.tcb.send_buffer.size (send_room env c.tcb) go in
                  chunk_progress env c r mss open_one.0 open_one.1),
            )))
    ]

-- What `finish_close` does to a connection whose loop has ended.
finish_close-cases :
    (env : Env) (c : Conn)
    → ((finish_close env c).tcb.send_buffer ≡ c.tcb.send_buffer)
      × (queued (finish_close env c).tcb.retransmit_queue ≡ queued c.tcb.retransmit_queue)
      × ((c.tcb.send_buffer.size ≡ 0) ⊎ (finish_close env c ≡ c))
      × (c.tcb.close_pending ≡ false → finish_close env c ≡ c)
unfolding finish_close
finish_close-cases env c =
    let t = c.tcb in
    let c' = record c { tcb = record t { close_pending = false } } in
    let same = (send_segment-SameSender env 17 [] c').send_buffer in
    let fin = fin-queued env c' in
    (ground (arith, same), ground (arith, fin), ground arith, ground arith)

-- For a valid buffer, 32-bit numbers and an MSS from 1 to 1460, `send_buffered_data` ends with an
-- empty buffer or a full window: the rounds that its fuel allows are enough.
pub send_buffered_data-ends :
    (env : Env) (c : Conn)
    → IsReady c.tcb
    → 0 < c.tcb.options.mss
    → let t' = (send_buffered_data env c).tcb in (t'.send_buffer.size ≡ 0) ⊎ (send_room env t' ≡ 0)
unfolding send_buffered_data
send_buffered_data-ends env c r mss =
    elim (drain_empties env (suc c.tcb.send_buffer.size) c r mss (omega arith)) [
      | inl none_left ↦ inl (ap (λ b. b.size) ended.0 ∙ none_left)
      | inr no_room ↦ elim (ended.2) [
        | inl none_left ↦ inl (ap (λ b. b.size) ended.0 ∙ none_left)
        | inr same ↦
            inr (ap (λ d. send_room env d.tcb) same ∙ unfold send_room effective_window in no_room)
      ]
    ]
  where
    drained : Conn
    drained = drain env (suc c.tcb.send_buffer.size) c

    t : Tcb
    t = drained.tcb

    announced : Conn
    announced = record drained { tcb = record t { rcv_wnd = back_pressure t } }

    ended :
        ((finish_close env announced).tcb.send_buffer ≡ announced.tcb.send_buffer)
        × (queued (finish_close env announced).tcb.retransmit_queue
            ≡ queued announced.tcb.retransmit_queue)
        × ((announced.tcb.send_buffer.size ≡ 0) ⊎ (finish_close env announced ≡ announced))
        × (announced.tcb.close_pending ≡ false → finish_close env announced ≡ announced)
    ended = finish_close-cases env announced

-- For a valid buffer, 32-bit numbers and an MSS of at most 1460, `send_buffered_data` only moves
-- bytes from the send buffer to the retransmission queue: put together, the two hold the same bytes
-- in the same order as before, and the buffer stays valid.
pub send_buffered_data-unacked :
    (env : Env) (c : Conn)
    → IsReady c.tcb
    → (unacked (send_buffered_data env c).tcb ≡ unacked c.tcb)
      × IsValid (send_buffered_data env c).tcb.send_buffer
unfolding send_buffered_data unacked
send_buffered_data-unacked env c r =
    let drained = drain env (suc c.tcb.send_buffer.size) c in
    let t = drained.tcb in
    let ended =
      finish_close-cases env (record drained { tcb = record t { rcv_wnd = back_pressure t } }) in
    let all = drain-Drained env (suc c.tcb.send_buffer.size) c r in
    (
      ap (λ b. b ++ contents (send_buffered_data env c).tcb.send_buffer) ended.1
          ∙ ap (λ b. queued t.retransmit_queue ++ contents b) ended.0
          ∙ all.bytes,
      subst IsValid (sym ended.0) all.valid,
    )

-- For a valid buffer, 32-bit numbers, an MSS of at most 1460 and no pending close,
-- `send_buffered_data` puts no more in flight than the effective window
-- allows, or than was in flight already.
pub send_buffered_data-window :
    (env : Env) (c : Conn)
    → IsReady c.tcb
    → c.tcb.close_pending ≡ false
    → in_flight (send_buffered_data env c).tcb ≤ max (in_flight c.tcb) (effective_window env c.tcb)
unfolding send_buffered_data
send_buffered_data-window env c r open_one =
    let drained = drain env (suc c.tcb.send_buffer.size) c in
    let t = drained.tcb in
    let announced = record drained { tcb = record t { rcv_wnd = back_pressure t } } in
    let all = drain-Drained env (suc c.tcb.send_buffer.size) c r in
    let same = (finish_close-cases env announced).3 (all.same.close_pending ∙ open_one) in
    subst (λ d. in_flight d.tcb ≤ max (in_flight c.tcb) (effective_window env c.tcb)) (sym same)
      all.within
