-- ===== src/Tcp/Phases.antt =====
-- The state machine of RFC 793 as the handlers run it: which states may follow which.
use neu_stack.Common.{◌≡◌, refl, ◌∙◌, ap, sym, inl, inr, false, [], arith, Bool-cases}
use mathlib.Core.Path.{subst}
use neu_stack.Seq.{add32}
use neu_stack.Segment.{TcpSegment, is_rst}
use neu_stack.Tcp.{
  TcpState, closed, listen, syn_sent, syn_rcvd, established, fin_wait_1, fin_wait_2, close_wait,
  closing, last_ack, time_wait,
}
use neu_stack.Tcp.World.{Conn, Env, Notice}
use neu_stack.Tcp.Send.{send_segment}
use neu_stack.Tcp.App.{connect_with}
use neu_stack.Tcp.Ack.{process_ack, on_tcb}
use neu_stack.Tcp.States.{process_ack-state, take_in-state}
use neu_stack.Tcp.CallStates.{
  after_close, ClosedOrSame, send_segment-state, connect_with-state, close_with_callback-state,
}
use neu_stack.Tcp.Handlers.{
  set_state, handle_closed, handle_syn_sent, handle_syn_rcvd, take_in, accept_fin,
  handle_established, handle_fin_wait_1, handle_fin_wait_2, handle_close_wait, handle_closing,
  handle_last_ack, handle_time_wait, handle_rst, dispatch, count_established, reset_reply,
  count_reset,
}

-- The states in which one segment may leave a connection, the calls of its callbacks included.
pub data Follows : TcpState → TcpState → Type 0 where
  same : (s : TcpState) → Follows s s
  reset : (s : TcpState) → Follows s closed
  open_both : Follows syn_sent syn_rcvd
  connected : Follows syn_sent established
  connected_closed : Follows syn_sent fin_wait_1
  accepted : Follows syn_rcvd established
  accepted_closed : Follows syn_rcvd fin_wait_1
  accepted_finished : Follows syn_rcvd close_wait
  accepted_both : Follows syn_rcvd last_ack
  finished : Follows established close_wait
  closed_here : Follows established fin_wait_1
  closed_both : Follows established last_ack
  fin_acknowledged : Follows fin_wait_1 fin_wait_2
  both_at_once : Follows fin_wait_1 closing
  both_done : Follows fin_wait_1 time_wait
  peer_done : Follows fin_wait_2 time_wait
  closed_after : Follows close_wait last_ack
  closing_done : Follows closing time_wait

accept_fin-state : (env : Env) (c : Conn) → (accept_fin env c).tcb.state ≡ c.tcb.state
unfolding accept_fin
accept_fin-state env c =
    let t = c.tcb in
    send_segment-state env 16 [] (record c { tcb = record t { rcv_nxt = add32 t.rcv_nxt 1 } })

-- From ESTABLISHED, or from a close in a callback before: the states that follow.
data Up : TcpState → Type 0 where
  up : Up established
  up_closed : Up fin_wait_1
  up_finished : Up close_wait
  up_both : Up last_ack

Up-closed : {s u : TcpState} → Up s → ClosedOrSame s u → Up u
unfolding after_close
Up-closed {u = u} h (inl e) = subst Up (sym e) h
Up-closed up (inr e) = subst Up (sym e) up_closed
Up-closed up_closed (inr e) = subst Up (sym e) up_closed
Up-closed up_finished (inr e) = subst Up (sym e) up_both
Up-closed up_both (inr e) = subst Up (sym e) up_both

handle_established-Up :
    (env : Env) (seg : TcpSegment) (c : Conn)
    → Up c.tcb.state
    → Up (handle_established env seg c).tcb.state
unfolding handle_established
handle_established-Up env seg c h =
    let c' = take_in env seg c in
    let waiting = record (accept_fin env c') {
      tcb = set_state close_wait (accept_fin env c').tcb;
    } in
    ground (
      arith,
      Up-closed h (take_in-state env seg c),
      Up-closed up_finished (close_with_callback-state env waiting waiting.tcb.on_close),
    )

Up-Follows : {s : TcpState} → Up s → Follows established s
Up-Follows up = same established
Up-Follows up_closed = closed_here
Up-Follows up_finished = finished
Up-Follows up_both = closed_both

Up-accepted : {s : TcpState} → Up s → Follows syn_rcvd s
Up-accepted up = accepted
Up-accepted up_closed = accepted_closed
Up-accepted up_finished = accepted_finished
Up-accepted up_both = accepted_both

-- A callback of a connection that was just opened.
Up-connected : (s : TcpState) → ClosedOrSame established s → Follows syn_sent s
unfolding after_close
Up-connected s (inl e) = subst (Follows syn_sent) (sym e) connected
Up-connected s (inr e) = subst (Follows syn_sent) (sym e) connected_closed

-- A state that a close of this side does not leave.
stays : (s u : TcpState) → after_close s ≡ s → ClosedOrSame s u → u ≡ s
stays s u h (inl e) = e
stays s u h (inr e) = e ∙ h

module _ (env : Env) (seg : TcpSegment) (c : Conn) where
  acked_state :
      (s : TcpState)
      → c.tcb.state ≡ s
      → after_close s ≡ s
      → (process_ack env seg.ack_num seg.window c).tcb.state ≡ s
  acked_state s h k = stays s _ k (
      subst (λ x. ClosedOrSame x (process_ack env seg.ack_num seg.window c).tcb.state) h
        (process_ack-state env seg.ack_num seg.window c))

  taken_state :
      (s : TcpState) → c.tcb.state ≡ s → after_close s ≡ s → (take_in env seg c).tcb.state ≡ s
  taken_state s h k =
      stays s _ k
        (subst (λ x. ClosedOrSame x (take_in env seg c).tcb.state) h (take_in-state env seg c))

  Follows-established :
      c.tcb.state ≡ established → Follows established (handle_established env seg c).tcb.state
  Follows-established h = Up-Follows (handle_established-Up env seg c (subst Up (sym h) up))

  Follows-fin_wait_1 :
      c.tcb.state ≡ fin_wait_1 → Follows fin_wait_1 (handle_fin_wait_1 env seg c).1.tcb.state
  unfolding handle_fin_wait_1 after_close
  Follows-fin_wait_1 h =
      let k = taken_state fin_wait_1 h refl in
      ground (
        arith,
        k,
        both_done,
        both_at_once,
        fin_acknowledged,
        subst (Follows fin_wait_1) (sym k) (same fin_wait_1),
      )

  Follows-fin_wait_2 :
      c.tcb.state ≡ fin_wait_2 → Follows fin_wait_2 (handle_fin_wait_2 env seg c).1.tcb.state
  unfolding handle_fin_wait_2 after_close
  Follows-fin_wait_2 h =
      let k = taken_state fin_wait_2 h refl in
      ground (arith, peer_done, subst (Follows fin_wait_2) (sym k) (same fin_wait_2))

  Follows-close_wait :
      c.tcb.state ≡ close_wait → Follows close_wait (handle_close_wait env seg c).tcb.state
  unfolding handle_close_wait after_close
  Follows-close_wait h =
      let acked : Follows close_wait (process_ack env seg.ack_num seg.window c).tcb.state =
        elim (process_ack-state env seg.ack_num seg.window c) [
          | inl e ↦ subst (Follows close_wait) (sym (e ∙ h)) (same close_wait)
          | inr e ↦ subst (Follows close_wait) (sym (e ∙ ap after_close h)) closed_after
        ] in
      ground (arith, subst (Follows close_wait) (sym h) (same close_wait), acked)

  Follows-closing : c.tcb.state ≡ closing → Follows closing (handle_closing env seg c).1.tcb.state
  unfolding handle_closing after_close
  Follows-closing h =
      let k = acked_state closing h refl in
      ground (
        arith,
        closing_done,
        subst (Follows closing) (sym h) (same closing),
        subst (Follows closing) (sym k) (same closing),
      )

  Follows-last_ack :
      c.tcb.state ≡ last_ack → Follows last_ack (handle_last_ack env seg c).1.tcb.state
  unfolding handle_last_ack after_close
  Follows-last_ack h =
      let k = acked_state last_ack h refl in
      ground (
        arith,
        reset last_ack,
        subst (Follows last_ack) (sym h) (same last_ack),
        subst (Follows last_ack) (sym k) (same last_ack),
      )

  Follows-time_wait :
      c.tcb.state ≡ time_wait → Follows time_wait (handle_time_wait env seg c).1.tcb.state
  unfolding handle_time_wait
  Follows-time_wait h =
      let k = send_segment-state env 16 [] c ∙ h in
      ground (
        arith,
        subst (Follows time_wait) (sym h) (same time_wait),
        subst (Follows time_wait) (sym k) (same time_wait),
      )

  Follows-syn_sent : c.tcb.state ≡ syn_sent → Follows syn_sent (handle_syn_sent env seg c).tcb.state
  unfolding handle_syn_sent
  Follows-syn_sent h =
      let t = c.tcb in
      let acked =
        process_ack env seg.ack_num seg.window
          (record c { tcb = record t { irs = seg.seq_num; rcv_nxt = add32 seg.seq_num 1 } }) in
      let sent = on_tcb (set_state established) (send_segment env 16 [] acked) in
      let up_here =
        connect_with-state env (Notice.connected t.t_tuple) (count_established sent)
          sent.tcb.on_connect in
      ground
        (arith, subst (Follows syn_sent) (sym h) (same syn_sent), open_both, Up-connected _ up_here)

  Follows-syn_rcvd :
      c.tcb.state ≡ syn_rcvd → Follows syn_rcvd (handle_syn_rcvd env seg c).1.tcb.state
  unfolding handle_syn_rcvd
  Follows-syn_rcvd h =
      let t = c.tcb in
      let acked = on_tcb (set_state established) (process_ack env seg.ack_num seg.window c) in
      let up_here = Up-closed up (
        connect_with-state env (Notice.connected t.t_tuple) (count_established acked)
          acked.tcb.on_connect) in
      let reached =
        connect_with env (Notice.connected t.t_tuple) (count_established acked)
          acked.tcb.on_connect in
      ground (
        arith,
        subst (Follows syn_rcvd) (sym h) (same syn_rcvd),
        reset syn_rcvd,
        Up-accepted up_here,
        Up-accepted (handle_established-Up env seg reached up_here),
      )

  Follows-rst : Follows c.tcb.state (handle_rst env seg c).1.tcb.state
  unfolding handle_rst after_close
  Follows-rst =
      let shut = on_tcb (set_state closed) (count_reset c) in
      let stopped = stays closed _ refl (close_with_callback-state env shut shut.tcb.on_close) in
      ground
        (arith, same c.tcb.state, subst (Follows c.tcb.state) (sym stopped) (reset c.tcb.state))

  closed_state : (handle_closed env seg c).tcb.state ≡ c.tcb.state
  unfolding handle_closed reset_reply
  closed_state = ground arith

  Follows-other :
      (s : TcpState)
      → c.tcb.state ≡ s
      → is_rst seg ≡ false
      → Follows s (dispatch env seg c).1.tcb.state
  unfolding dispatch
  Follows-other closed h plain =
      ground (arith, h, plain, subst (Follows closed) (sym (closed_state ∙ h)) (same closed))
  Follows-other listen h plain =
      ground (arith, h, plain, subst (Follows listen) (sym h) (same listen))
  Follows-other syn_sent h plain = ground (arith, h, plain, Follows-syn_sent h)
  Follows-other syn_rcvd h plain = ground (arith, h, plain, Follows-syn_rcvd h)
  Follows-other established h plain = ground (arith, h, plain, Follows-established h)
  Follows-other fin_wait_1 h plain = ground (arith, h, plain, Follows-fin_wait_1 h)
  Follows-other fin_wait_2 h plain = ground (arith, h, plain, Follows-fin_wait_2 h)
  Follows-other close_wait h plain = ground (arith, h, plain, Follows-close_wait h)
  Follows-other closing h plain = ground (arith, h, plain, Follows-closing h)
  Follows-other last_ack h plain = ground (arith, h, plain, Follows-last_ack h)
  Follows-other time_wait h plain = ground (arith, h, plain, Follows-time_wait h)

-- Whatever segment comes in, in whatever state, the handlers and the callbacks that they make leave
-- the connection in a state that may follow it: no segment takes a connection back to an earlier
-- phase of its life, and none opens a connection that was closed.
pub dispatch-Follows :
    (env : Env) (seg : TcpSegment) (c : Conn) → Follows c.tcb.state (dispatch env seg c).1.tcb.state
dispatch-Follows env seg c = elim (Bool-cases (is_rst seg)) [
  | inl e ↦ unfold dispatch in ground (arith, e, Follows-rst env seg c)
  | inr e ↦ Follows-other env seg c c.tcb.state refl e
]
