-- ===== src/Tcp/CallStates.antt =====
-- src/transport/tcp_connection.cpp: what sending, and the calls of an application, do to the state
-- of a connection.
use neu_stack.Common.{
  ℕ, zero, suc, min, ◌≡◌, refl, ◌∙◌, ap, ◌⊎◌, inl, inr, Option, none, some, List, [], ◌∷◌, length,
  take, drop, arith,
}
use neu_stack.Stream
use neu_stack.Tcp.{TcpState, established, fin_wait_1, close_wait, last_ack}
use neu_stack.Tcp.World.{Conn, Env, Call, call_send, call_close, Notice}
use neu_stack.Tcp.Send.{
  send_segment, raw_send, send_chunk, drain, finish_close, send_buffered_data, back_pressure,
  send_room,
}
use neu_stack.Tcp.App.{
  send, send_now, buffer_bytes, close, close_with, run_calls, note, connect_with, receive_with,
  close_with_callback,
}

-- The state that a close of this side leads to.
unfoldable pub after_close : TcpState → TcpState
after_close established = fin_wait_1
after_close close_wait = last_ack
after_close s = s

-- The state is the same, or this side has been closed.
abbrev pub ClosedOrSame : TcpState → TcpState → Type 0
ClosedOrSame s s' = (s' ≡ s) ⊎ (s' ≡ after_close s)

after_close-after_close : (s : TcpState) → after_close (after_close s) ≡ after_close s
unfolding after_close
after_close-after_close s = ground arith

pub ClosedOrSame-trans : {s u v : TcpState} → ClosedOrSame s u → ClosedOrSame u v → ClosedOrSame s v
ClosedOrSame-trans (inl h) (inl k) = inl (k ∙ h)
ClosedOrSame-trans (inl h) (inr k) = inr (k ∙ ap after_close h)
ClosedOrSame-trans (inr h) (inl k) = inr (k ∙ h)
ClosedOrSame-trans {s = s} (inr h) (inr k) = inr (k ∙ ap after_close h ∙ after_close-after_close s)

pub send_segment-state :
    (env : Env) (flags : ℕ) (bytes : List ℕ) (c : Conn)
    → (send_segment env flags bytes c).tcb.state ≡ c.tcb.state
unfolding send_segment
send_segment-state env flags bytes c = ground arith

raw_send-state :
    (env : Env) (flags seq : ℕ) (bytes : List ℕ) (c : Conn)
    → (raw_send env flags seq bytes c).tcb.state ≡ c.tcb.state
unfolding raw_send
raw_send-state env flags seq bytes c = ground arith

send_chunk-state : (env : Env) (c : Conn) → (send_chunk env c).tcb.state ≡ c.tcb.state
unfolding send_chunk
send_chunk-state env c = send_segment-state env 24 _ c

drain-state : (env : Env) (fuel : ℕ) (c : Conn) → (drain env fuel c).tcb.state ≡ c.tcb.state
unfolding drain
drain-state env zero c = refl
drain-state env (suc fuel) c =
    ground (arith, drain-state env fuel (send_chunk env c), send_chunk-state env c)

finish_close-state :
    (env : Env) (c : Conn) → ClosedOrSame c.tcb.state (finish_close env c).tcb.state
unfolding finish_close after_close
finish_close-state env c = ground arith

pub send_buffered_data-state :
    (env : Env) (c : Conn) → ClosedOrSame c.tcb.state (send_buffered_data env c).tcb.state
unfolding send_buffered_data
send_buffered_data-state env c =
    let drained = drain env (suc c.tcb.send_buffer.size) c in
    let t = drained.tcb in
    ClosedOrSame-trans (inl (drain-state env (suc c.tcb.send_buffer.size) c))
      (finish_close-state env (record drained { tcb = record t { rcv_wnd = back_pressure t } }))

buffer_bytes-state : (bytes : List ℕ) (c : Conn) → (buffer_bytes bytes c).tcb.state ≡ c.tcb.state
unfolding buffer_bytes
buffer_bytes-state bytes c = refl

send_now-state :
    (env : Env) (bytes : List ℕ) (room : ℕ) (c : Conn)
    → ClosedOrSame c.tcb.state (send_now env bytes room c).tcb.state
unfolding send_now
send_now-state env bytes room c =
    let n = min (length bytes) (min room c.tcb.options.mss) in
    let sent = send_segment env 24 (take n bytes) c in
    let buffered = buffer_bytes (drop n bytes) sent in
    let first = send_segment-state env 24 (take n bytes) c in
    ground (
      arith,
      first,
      buffer_bytes-state (drop n bytes) sent,
      ClosedOrSame-trans (inl first) (send_buffered_data-state env sent),
      ClosedOrSame-trans (inl (buffer_bytes-state (drop n bytes) sent ∙ first))
          (send_buffered_data-state env buffered),
    )

send-state :
    (env : Env) (bytes : List ℕ) (c : Conn)
    → ClosedOrSame c.tcb.state (send env bytes c).1.tcb.state
unfolding send
send-state env bytes c =
    let accepted = take (min (length bytes) (Stream.available c.tcb.send_buffer)) bytes in
    ground
      (arith, buffer_bytes-state accepted c, send_now-state env accepted (send_room env c.tcb) c)

close_with-state :
    (env : Env) (c : Conn)
    → ClosedOrSame c.tcb.state (close_with env (after_close c.tcb.state) c).tcb.state
unfolding close_with
close_with-state env c = ground (arith, send_buffered_data-state env c)

close-state : (env : Env) (c : Conn) → ClosedOrSame c.tcb.state (close env c).tcb.state
unfolding close after_close
close-state env c = ground (arith, close_with-state env c)

pub run_calls-state :
    (env : Env) (calls : List Call) (c : Conn)
    → ClosedOrSame c.tcb.state (run_calls env calls c).tcb.state
unfolding run_calls
run_calls-state env [] c = inl refl
run_calls-state env (call_send bytes ∷ rest) c =
    ClosedOrSame-trans (send-state env bytes c) (run_calls-state env rest (send env bytes c).1)
run_calls-state env (call_close ∷ rest) c =
    ClosedOrSame-trans (close-state env c) (run_calls-state env rest (close env c))

pub connect_with-state :
    (env : Env) (n : Notice) (c : Conn) (o : Option ℕ)
    → ClosedOrSame c.tcb.state (connect_with env n c o).tcb.state
unfolding connect_with note
connect_with-state env n c none = inl refl
connect_with-state env n c (some k) = run_calls-state env (env.run_connect k (note n c)) (note n c)

pub receive_with-state :
    (env : Env) (bytes : List ℕ) (c : Conn) (o : Option ℕ)
    → ClosedOrSame c.tcb.state (receive_with env bytes c o).tcb.state
unfolding receive_with
receive_with-state env bytes c none = inl refl
receive_with-state env bytes c (some k) = run_calls-state env (env.run_receive k c bytes) c

pub close_with_callback-state :
    (env : Env) (c : Conn) (o : Option ℕ)
    → ClosedOrSame c.tcb.state (close_with_callback env c o).tcb.state
unfolding close_with_callback note
close_with_callback-state env c none = inl refl
close_with_callback-state env c (some k) =
    let c' = note (Notice.peer_closed c.tcb.t_tuple) c in
    run_calls-state env (env.run_close k c') c'
