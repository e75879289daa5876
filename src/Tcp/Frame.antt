-- ===== src/Tcp/Frame.antt =====
-- What the sending side leaves alone: lemmas for the proofs about the other parts.
use neu_stack.Stream
use neu_stack.Common.{
  ℕ, min, length, take, drop, false, zero, suc, ◌≡◌, refl, ◌∙◌, Option, none, some, List, [], ◌∷◌,
  arith,
}
use neu_stack.Tcp.{TcpState, fin_wait_1, last_ack, Tcb}
use neu_stack.Tcp.World.{Conn, Env, Call, call_send, call_close}
use neu_stack.Tcp.Send.{
  send_segment, send_chunk, drain, finish_close, send_buffered_data, back_pressure, send_room,
}
use neu_stack.Tcp.App.{send, send_now, buffer_bytes, close, close_with, run_calls, receive_with}

-- The receiving side of two control blocks is the same.
pub record SameReceiver (t t' : Tcb) : Type 0 where
  pub rcv_nxt : t'.rcv_nxt ≡ t.rcv_nxt
  pub ooo_queue : t'.ooo_queue ≡ t.ooo_queue
  pub ooo_size : t'.ooo_size ≡ t.ooo_size
  pub ooo_overrun : t'.ooo_overrun ≡ t.ooo_overrun
  pub delivered : t'.delivered ≡ t.delivered
  pub options : t'.options ≡ t.options

SameReceiver-refl : (t : Tcb) → SameReceiver t t
SameReceiver-refl t = record {
  rcv_nxt = refl;
  ooo_queue = refl;
  ooo_size = refl;
  ooo_overrun = refl;
  delivered = refl;
  options = refl;
}

SameReceiver-trans : {t u v : Tcb} → SameReceiver t u → SameReceiver u v → SameReceiver t v
SameReceiver-trans h k = record {
  rcv_nxt = k.rcv_nxt ∙ h.rcv_nxt;
  ooo_queue = k.ooo_queue ∙ h.ooo_queue;
  ooo_size = k.ooo_size ∙ h.ooo_size;
  ooo_overrun = k.ooo_overrun ∙ h.ooo_overrun;
  delivered = k.delivered ∙ h.delivered;
  options = k.options ∙ h.options;
}

-- What `send_segment` changes are the sequence number, the queue, the timing and the counters.
pub record SameSender (t t' : Tcb) : Type 0 where
  pub state : t'.state ≡ t.state
  pub una : t'.snd_una ≡ t.snd_una
  pub snd_wnd : t'.snd_wnd ≡ t.snd_wnd
  pub congestion_control : t'.congestion_control ≡ t.congestion_control
  pub send_buffer : t'.send_buffer ≡ t.send_buffer
  pub close_pending : t'.close_pending ≡ t.close_pending

pub send_segment-SameReceiver :
    (env : Env) (flags : ℕ) (bytes : List ℕ) (c : Conn)
    → SameReceiver c.tcb (send_segment env flags bytes c).tcb
unfolding send_segment
send_segment-SameReceiver env flags bytes c = ground arith

pub send_segment-SameSender :
    (env : Env) (flags : ℕ) (bytes : List ℕ) (c : Conn)
    → SameSender c.tcb (send_segment env flags bytes c).tcb
unfolding send_segment
send_segment-SameSender env flags bytes c = ground arith

send_chunk-SameReceiver : (env : Env) (c : Conn) → SameReceiver c.tcb (send_chunk env c).tcb
unfolding send_chunk
send_chunk-SameReceiver env c =
    let same = send_segment-SameReceiver env _ _ c in
    record {
      rcv_nxt = same.rcv_nxt;
      ooo_queue = same.ooo_queue;
      ooo_size = same.ooo_size;
      ooo_overrun = same.ooo_overrun;
      delivered = same.delivered;
      options = same.options;
    }

drain-SameReceiver : (env : Env) (fuel : ℕ) (c : Conn) → SameReceiver c.tcb (drain env fuel c).tcb
unfolding drain
drain-SameReceiver env zero c = SameReceiver-refl c.tcb
drain-SameReceiver env (suc fuel) c = ground (
  arith,
  SameReceiver-refl c.tcb,
  SameReceiver-trans (send_chunk-SameReceiver env c)
      (drain-SameReceiver env fuel (send_chunk env c)),
)

finish_close-SameReceiver : (env : Env) (c : Conn) → SameReceiver c.tcb (finish_close env c).tcb
unfolding finish_close
finish_close-SameReceiver env c =
    let t = c.tcb in
    let c' = record c { tcb = record t { close_pending = false } } in
    ground (arith, SameReceiver-refl c.tcb, send_segment-SameReceiver env 17 [] c')

pub send_buffered_data-SameReceiver :
    (env : Env) (c : Conn) → SameReceiver c.tcb (send_buffered_data env c).tcb
unfolding send_buffered_data
send_buffered_data-SameReceiver env c =
    let drained = drain env (suc c.tcb.send_buffer.size) c in
    let t = drained.tcb in
    let first = drain-SameReceiver env (suc c.tcb.send_buffer.size) c in
    SameReceiver-trans
      (record {
        rcv_nxt = first.rcv_nxt;
        ooo_queue = first.ooo_queue;
        ooo_size = first.ooo_size;
        ooo_overrun = first.ooo_overrun;
        delivered = first.delivered;
        options = first.options;
      })
      (finish_close-SameReceiver env
        (record drained { tcb = record t { rcv_wnd = back_pressure t } }))

buffer_bytes-SameReceiver :
    (bytes : List ℕ) (c : Conn) → SameReceiver c.tcb (buffer_bytes bytes c).tcb
unfolding buffer_bytes
buffer_bytes-SameReceiver bytes c = record {
  rcv_nxt = refl;
  ooo_queue = refl;
  ooo_size = refl;
  ooo_overrun = refl;
  delivered = refl;
  options = refl;
}

send_now-SameReceiver :
    (env : Env) (bytes : List ℕ) (room : ℕ) (c : Conn)
    → SameReceiver c.tcb (send_now env bytes room c).tcb
unfolding send_now
send_now-SameReceiver env bytes room c =
    let n = min (length bytes) (min room c.tcb.options.mss) in
    let sent = send_segment env 24 (take n bytes) c in
    let buffered = buffer_bytes (drop n bytes) sent in
    let first = send_segment-SameReceiver env 24 (take n bytes) c in
    let second = SameReceiver-trans first (buffer_bytes-SameReceiver (drop n bytes) sent) in
    ground (
      arith,
      first,
      second,
      SameReceiver-trans first (send_buffered_data-SameReceiver env sent),
      SameReceiver-trans second (send_buffered_data-SameReceiver env buffered),
    )

send-SameReceiver :
    (env : Env) (bytes : List ℕ) (c : Conn) → SameReceiver c.tcb (send env bytes c).1.tcb
unfolding send
send-SameReceiver env bytes c =
    let accepted = take (min (length bytes) (Stream.available c.tcb.send_buffer)) bytes in
    ground (
      arith,
      SameReceiver-refl c.tcb,
      buffer_bytes-SameReceiver accepted c,
      send_now-SameReceiver env accepted (send_room env c.tcb) c,
    )

close_with-SameReceiver :
    (env : Env) (s : TcpState) (c : Conn) → SameReceiver c.tcb (close_with env s c).tcb
unfolding close_with
close_with-SameReceiver env s c = ground (
  arith,
  send_buffered_data-SameReceiver env c,
  SameReceiver-trans (send_buffered_data-SameReceiver env c)
      (send_segment-SameReceiver env 17 [] (send_buffered_data env c)),
)

close-SameReceiver : (env : Env) (c : Conn) → SameReceiver c.tcb (close env c).tcb
unfolding close
close-SameReceiver env c = ground (
  arith,
  SameReceiver-refl c.tcb,
  close_with-SameReceiver env fin_wait_1 c,
  close_with-SameReceiver env last_ack c,
)

pub run_calls-SameReceiver :
    (env : Env) (calls : List Call) (c : Conn) → SameReceiver c.tcb (run_calls env calls c).tcb
unfolding run_calls
run_calls-SameReceiver env [] c = SameReceiver-refl c.tcb
run_calls-SameReceiver env (call_send bytes ∷ rest) c =
    SameReceiver-trans (send-SameReceiver env bytes c)
      (run_calls-SameReceiver env rest (send env bytes c).1)
run_calls-SameReceiver env (call_close ∷ rest) c =
    SameReceiver-trans (close-SameReceiver env c) (run_calls-SameReceiver env rest (close env c))

pub receive_with-SameReceiver :
    (env : Env) (bytes : List ℕ) (c : Conn) (o : Option ℕ)
    → SameReceiver c.tcb (receive_with env bytes c o).tcb
unfolding receive_with
receive_with-SameReceiver env bytes c none = SameReceiver-refl c.tcb
receive_with-SameReceiver env bytes c (some k) =
    run_calls-SameReceiver env (env.run_receive k c bytes) c
