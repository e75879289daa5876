-- ===== src/Tcp/Edge.antt =====
-- The left edge of the send window: what moves snd_una, and what does not.
use neu_stack.Common.{ℕ, zero, suc, ◌≡◌, refl, ◌∙◌, false, [], arith, if◌then◌else◌}
use neu_stack.Seq.{seq_gt}
use neu_stack.Tcp.{Tcb, CongestionEvent, loss_event, dup_ack_event}
use neu_stack.Tcp.World.{Conn, Env}
use neu_stack.Tcp.Send.{
  raw_send, send_chunk, drain, finish_close, send_buffered_data, back_pressure,
}
use neu_stack.Tcp.Ack.{
  tell, move_edge, accept_ack, check_dup_ack, fast_retransmit, count_lost, push_sample, process_ack,
}
use neu_stack.Tcp.Frame.{send_segment-SameSender}
use neu_stack.Tcp.Queue.{remove_acked-keeps, move_edge-fields}

send_chunk-una : (env : Env) (c : Conn) → (send_chunk env c).tcb.snd_una ≡ c.tcb.snd_una
unfolding send_chunk
send_chunk-una env c = (send_segment-SameSender env 24 _ c).una

drain-una : (env : Env) (fuel : ℕ) (c : Conn) → (drain env fuel c).tcb.snd_una ≡ c.tcb.snd_una
unfolding drain
drain-una env zero c = refl
drain-una env (suc fuel) c =
    ground (arith, drain-una env fuel (send_chunk env c) ∙ send_chunk-una env c)

finish_close-una : (env : Env) (c : Conn) → (finish_close env c).tcb.snd_una ≡ c.tcb.snd_una
unfolding finish_close
finish_close-una env c =
    let t = c.tcb in
    let c' = record c { tcb = record t { close_pending = false } } in
    ground (arith, (send_segment-SameSender env 17 [] c').una)

send_buffered_data-una :
    (env : Env) (c : Conn) → (send_buffered_data env c).tcb.snd_una ≡ c.tcb.snd_una
unfolding send_buffered_data
send_buffered_data-una env c =
    let drained = drain env (suc c.tcb.send_buffer.size) c in
    let t = drained.tcb in
    finish_close-una env (record drained { tcb = record t { rcv_wnd = back_pressure t } })
    ∙ drain-una env (suc c.tcb.send_buffer.size) c

accept_ack-una : (now ack : ℕ) (t : Tcb) → (accept_ack now ack t).snd_una ≡ ack
unfolding accept_ack
accept_ack-una now ack t =
    (remove_acked-keeps now ack (move_edge ack t).retransmit_queue (move_edge ack t)).0
    ∙ (move_edge-fields ack t).0

tell-una : (event : CongestionEvent) (t : Tcb) → (tell event t).snd_una ≡ t.snd_una
unfolding tell
tell-una event t = ground arith

fast_retransmit-una : (env : Env) (c : Conn) → (fast_retransmit env c).tcb.snd_una ≡ c.tcb.snd_una
unfolding fast_retransmit raw_send
fast_retransmit-una env c = ground arith

check_dup_ack-una :
    (env : Env) (ack : ℕ) (c : Conn) → (check_dup_ack env ack c).tcb.snd_una ≡ c.tcb.snd_una
unfolding check_dup_ack
check_dup_ack-una env ack c =
    let t = c.tcb in
    let lost = record c { tcb = tell (loss_event 0) (count_lost t) } in
    let counted : (count_lost t).snd_una ≡ t.snd_una = unfold count_lost in refl in
    ground (
      arith,
      tell-una dup_ack_event t,
      fast_retransmit-una env lost ∙ tell-una (loss_event 0) (count_lost t) ∙ counted,
    )

push_sample-una : (env : Env) (c : Conn) → (push_sample env c).tcb.snd_una ≡ c.tcb.snd_una
unfolding push_sample
push_sample-una env c = ground arith

-- An acknowledgement moves snd_una to its number if that is after snd_una, and otherwise, a
-- duplicate or an old one, does not move it; the window, the queue and the buffered data make no
-- difference.
pub process_ack-una :
    (env : Env) (ack window : ℕ) (c : Conn)
    → (process_ack env ack window c).tcb.snd_una
      ≡ (if seq_gt ack c.tcb.snd_una then ack else c.tcb.snd_una)
unfolding process_ack
process_ack-una env ack window c =
    let t = c.tcb in
    let checked = check_dup_ack env ack (record c { tcb = record t { snd_wnd = window } }) in
    let same : checked.tcb.snd_una ≡ c.tcb.snd_una =
      check_dup_ack-una env ack (record c { tcb = record t { snd_wnd = window } }) in
    let accepted = record checked { tcb = accept_ack checked.world.now ack checked.tcb } in
    let sent = send_buffered_data env accepted in
    ground (
      arith,
      same,
      send_buffered_data-una env checked,
      push_sample-una env sent
          ∙ send_buffered_data-una env accepted
          ∙ accept_ack-una checked.world.now ack checked.tcb,
    )
