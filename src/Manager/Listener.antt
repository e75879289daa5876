-- ===== src/Manager/Listener.antt =====
-- A reset that is sent to a listening port, in on_segment_received and handle_rst.
use neu_stack.Common.{ℕ, ◌<◌, ◌≡◌, true, none, some, arith, ◌==◌}
use neu_stack.Seq.{add32, seq_in_range}
use neu_stack.Segment.{TcpSegment, is_rst}
use neu_stack.Tcp.{Tcb}
use neu_stack.Tcp.World.{Env}
use neu_stack.Tcp.Handlers.{handle_rst}
use neu_stack.Common.Maps.{erase_key}
use neu_stack.Manager.{Manager, find_tcb, find_listening_tcb}
use neu_stack.Manager.Events.{on_segment_received, to_listener, tuple_of}

-- A window that starts at 0 and has 65535 numbers.
listener_window : (seq : ℕ) → seq < 65535 → seq_in_range seq 0 65535 ≡ true
unfolding seq_in_range
listener_window seq h = ground (arith, h)

-- A listener has never received, so its window starts at 0. A reset from anywhere with a sequence
-- number below 65535, for which there is no connection, takes the listener away and leaves the
-- connections as they are.
pub on_segment_received-reset_listener :
    (env : Env) (seg : TcpSegment) (t : Tcb) (m : Manager)
    → find_tcb (tuple_of seg) m ≡ none
    → find_listening_tcb seg.dst_port m ≡ some t
    → t.rcv_nxt ≡ 0
    → t.rcv_wnd ≡ 65535
    → is_rst seg ≡ true
    → seg.seq_num < 65535
    → let m' = on_segment_received env seg m in
      (m'.listeners ≡ erase_key ◌==◌ seg.dst_port m.listeners) × (m'.connections ≡ m.connections)
unfolding on_segment_received to_listener handle_rst
on_segment_received-reset_listener env seg t m absent listening nxt wnd rst low =
    let inside : seq_in_range seg.seq_num t.rcv_nxt (add32 t.rcv_nxt t.rcv_wnd) ≡ true =
      rw (nxt, wnd) (listener_window seg.seq_num low) in
    ground (arith, absent, listening, rst, inside)
