-- ===== src/Tcp/States.antt =====
-- The state machine of a connection: which state the handlers leave, the callbacks' calls included.
use neu_stack.Common.{ℕ, ◌≡◌, refl, ◌∙◌, inl, List, [], ◌∷◌, ◌++◌, arith}
use neu_stack.Segment.{TcpSegment}
use neu_stack.Tcp.{
  Tcb, OutOfOrderSegment, RetransmitEntry, CongestionEvent, loss_event, dup_ack_event,
}
use neu_stack.Tcp.World.{Conn, Env}
use neu_stack.Tcp.Send.{raw_send, send_buffered_data}
use neu_stack.Tcp.Ack.{
  tell, measure, update_rtt, smooth, remove_acked, move_edge, accept_ack, check_dup_ack,
  fast_retransmit, count_lost, push_sample, process_ack,
}
use neu_stack.Tcp.Data.{
  deliver_data, add_to_ooo_queue, deliver_front, deliver_queue, deliver_ooo_data, acknowledge,
  handle_next, handle_data,
}
use neu_stack.Tcp.Handlers.{take_in}
use neu_stack.Tcp.CallStates.{
  ClosedOrSame, ClosedOrSame-trans, receive_with-state, send_buffered_data-state,
  send_segment-state,
}

update_rtt-state : (rtt : ℕ) (t : Tcb) → (update_rtt rtt t).state ≡ t.state
unfolding update_rtt smooth
update_rtt-state rtt t = ground arith

measure-state : (now : ℕ) (e : RetransmitEntry) (t : Tcb) → (measure now e t).state ≡ t.state
unfolding measure
measure-state now e t = grind (arith, update_rtt-state)

remove_acked-state :
    (now ack : ℕ) (queue : List RetransmitEntry) (t : Tcb)
    → (remove_acked now ack queue t).state ≡ t.state
unfolding remove_acked
remove_acked-state now ack [] t = refl
remove_acked-state now ack (e ∷ rest) t =
    ground (arith, remove_acked-state now ack rest (measure now e t) ∙ measure-state now e t)

tell-state : (event : CongestionEvent) (t : Tcb) → (tell event t).state ≡ t.state
unfolding tell
tell-state event t = ground arith

move_edge-state : (ack : ℕ) (t : Tcb) → (move_edge ack t).state ≡ t.state
unfolding move_edge
move_edge-state ack t = ground arith

accept_ack-state : (now ack : ℕ) (t : Tcb) → (accept_ack now ack t).state ≡ t.state
unfolding accept_ack
accept_ack-state now ack t =
    remove_acked-state now ack (move_edge ack t).retransmit_queue (move_edge ack t)
    ∙ move_edge-state ack t

fast_retransmit-state : (env : Env) (c : Conn) → (fast_retransmit env c).tcb.state ≡ c.tcb.state
unfolding fast_retransmit raw_send
fast_retransmit-state env c = ground arith

check_dup_ack-state :
    (env : Env) (ack : ℕ) (c : Conn) → (check_dup_ack env ack c).tcb.state ≡ c.tcb.state
unfolding check_dup_ack
check_dup_ack-state env ack c =
    let t = c.tcb in
    let lost = record c { tcb = tell (loss_event 0) (count_lost t) } in
    let counted : (count_lost t).state ≡ t.state = unfold count_lost in refl in
    ground (
      arith,
      tell-state dup_ack_event t,
      fast_retransmit-state env lost ∙ tell-state (loss_event 0) (count_lost t) ∙ counted,
    )

push_sample-state : (env : Env) (c : Conn) → (push_sample env c).tcb.state ≡ c.tcb.state
unfolding push_sample
push_sample-state env c = ground arith

pub process_ack-state :
    (env : Env) (ack window : ℕ) (c : Conn)
    → ClosedOrSame c.tcb.state (process_ack env ack window c).tcb.state
unfolding process_ack
process_ack-state env ack window c =
    let t = c.tcb in
    let checked = check_dup_ack env ack (record c { tcb = record t { snd_wnd = window } }) in
    let same : checked.tcb.state ≡ c.tcb.state =
      check_dup_ack-state env ack (record c { tcb = record t { snd_wnd = window } }) in
    let accepted = record checked { tcb = accept_ack checked.world.now ack checked.tcb } in
    let sent = send_buffered_data env accepted in
    ground (
      arith,
      same,
      ClosedOrSame-trans (inl same) (send_buffered_data-state env checked),
      ClosedOrSame-trans (inl (accept_ack-state checked.world.now ack checked.tcb ∙ same)) (
          ClosedOrSame-trans (send_buffered_data-state env accepted)
            (inl (push_sample-state env sent))),
    )

deliver_data-state :
    (env : Env) (bytes : List ℕ) (c : Conn)
    → ClosedOrSame c.tcb.state (deliver_data env bytes c).tcb.state
unfolding deliver_data
deliver_data-state env bytes c =
    let t = c.tcb in
    receive_with-state env bytes (record c { tcb = record t { delivered = t.delivered ++ bytes } })
      t.on_receive

deliver_front-state :
    (env : Env) (front : OutOfOrderSegment) (rest : List OutOfOrderSegment) (c : Conn)
    → ClosedOrSame c.tcb.state (deliver_front env front rest c).tcb.state
unfolding deliver_front
deliver_front-state env front rest c = grind (arith, deliver_data-state)

deliver_queue-state :
    (env : Env) (queue : List OutOfOrderSegment) (c : Conn)
    → ClosedOrSame c.tcb.state (deliver_queue env queue c).tcb.state
unfolding deliver_queue
deliver_queue-state env [] c = inl refl
deliver_queue-state env (front ∷ rest) c = ground (
  arith,
  ClosedOrSame-trans (deliver_front-state env front rest c)
      (deliver_queue-state env rest (deliver_front env front rest c)),
)

acknowledge-state : (env : Env) (c : Conn) → (acknowledge env c).tcb.state ≡ c.tcb.state
unfolding acknowledge
acknowledge-state env c = ground (arith, send_segment-state env 16 [] c)

handle_next-state :
    (env : Env) (seg_end : ℕ) (bytes : List ℕ) (c : Conn)
    → ClosedOrSame c.tcb.state (handle_next env seg_end bytes c).tcb.state
unfolding handle_next deliver_ooo_data
handle_next-state env seg_end bytes c =
    let shown = deliver_data env bytes c in
    let t = shown.tcb in
    let c' = record shown { tcb = record t { rcv_nxt = seg_end } } in
    ClosedOrSame-trans (deliver_data-state env bytes c) (
      ClosedOrSame-trans (deliver_queue-state env t.ooo_queue c')
        (inl (acknowledge-state env (deliver_queue env t.ooo_queue c'))))

pub handle_data-state :
    (env : Env) (seg : TcpSegment) (c : Conn)
    → ClosedOrSame c.tcb.state (handle_data env seg c).tcb.state
unfolding handle_data add_to_ooo_queue
handle_data-state env seg c = grind (arith, handle_next-state, send_segment-state)

pub take_in-state :
    (env : Env) (seg : TcpSegment) (c : Conn)
    → ClosedOrSame c.tcb.state (take_in env seg c).tcb.state
unfolding take_in
take_in-state env seg c =
    let acked = process_ack env seg.ack_num seg.window c in
    ground (
      arith,
      process_ack-state env seg.ack_num seg.window c,
      handle_data-state env seg c,
      ClosedOrSame-trans (process_ack-state env seg.ack_num seg.window c)
          (handle_data-state env seg acked),
    )
