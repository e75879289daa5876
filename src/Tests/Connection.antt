-- ===== src/Tests/Connection.antt =====
-- The theorems on the data of a connection, applied.
use neu_stack.Common.{if◌then◌else◌, ℕ, ◌+◌, ◌≤◌, max, ◌≡◌, false, refl, ◌⊎◌, List, [], ◌∷◌, arith}
use neu_stack.Seq.{seq_gt}
use neu_stack.Tcp.Edge.{process_ack-una}
use neu_stack.Stream
use neu_stack.Stream.Refine.{write_refines}
use neu_stack.Stream.Contents.{IsValid, make-IsValid}
use neu_stack.Tcp.World.{effective_window}
use neu_stack.Tcp.Send.{send_buffered_data, send_room}
use neu_stack.Tcp.Ack.{process_ack, accept_ack}
use neu_stack.Tcp.Data.{handle_data}
use neu_stack.Tcp.Handlers.{dispatch}
use neu_stack.Tcp.Flight.{accept_ack-InFlight}
use neu_stack.Tcp.Queue.{InFlight, in_flight}
use neu_stack.Tcp.Drain.{
  send_buffered_data-ends, send_buffered_data-unacked, send_buffered_data-window,
}
use neu_stack.Tcp.Rounds.{IsReady}
use neu_stack.Tcp.Chunk.{unacked}
use neu_stack.Tcp.Pieces.{OnStream, IsPiece, no_more, Reaches}
use neu_stack.Tcp.Reassembly.{
  no_segment, one_segment, handle_all, handle_all-OnStream, handle_data-delivers,
}
use neu_stack.Tcp.Phases.{Follows, dispatch-Follows}
use neu_stack.Tests.{echo_env, idle, loaded, three_bytes, flying, segment}

abbrev six_bytes : List ℕ
six_bytes = 1 ∷ 2 ∷ 3 ∷ 4 ∷ 5 ∷ 6 ∷ []

idle-OnStream : OnStream 500 six_bytes idle.tcb
idle-OnStream = record {
  prefix = record { next = refl; inside = omega arith; same = refl };
  waiting = no_more;
}

front : IsPiece 500 six_bytes 500 0 (1 ∷ 2 ∷ 3 ∷ [])
front = record { numbered = refl; inside = omega arith; same = refl }

back : IsPiece 500 six_bytes 502 2 (3 ∷ 4 ∷ 5 ∷ 6 ∷ [])
back = record { numbered = refl; inside = omega arith; same = refl }

-- The second part of the stream comes first, and overlaps the first part.
handle_all-OnStream_example :
    let c' =
      handle_all echo_env
        (segment 16 502 (3 ∷ 4 ∷ 5 ∷ 6 ∷ []) ∷ segment 16 500 (1 ∷ 2 ∷ 3 ∷ []) ∷ [])
        idle in
    Reaches 500 six_bytes 0 c'.tcb × (c'.tcb.ooo_overrun ≡ false)
handle_all-OnStream_example =
    handle_all-OnStream 500 six_bytes echo_env
      (segment 16 502 (3 ∷ 4 ∷ 5 ∷ 6 ∷ []) ∷ segment 16 500 (1 ∷ 2 ∷ 3 ∷ []) ∷ []) idle
      (omega arith) (omega arith) idle-OnStream
      (one_segment 2 back (omega arith) (one_segment 0 front (omega arith) no_segment)) refl

handle_data-delivers_example :
    Reaches 500 six_bytes 3 (handle_data echo_env (segment 16 500 (1 ∷ 2 ∷ 3 ∷ [])) idle).tcb
handle_data-delivers_example =
    handle_data-delivers 500 six_bytes echo_env (segment 16 500 (1 ∷ 2 ∷ 3 ∷ [])) 0 idle
      (omega arith) (omega arith) idle-OnStream front (omega arith)

flying-InFlight : InFlight (flying 0).tcb
flying-InFlight = record {
  una = omega arith;
  nxt = omega arith;
  half = omega arith;
  chain = (refl, refl, omega arith, omega arith, (refl, refl, omega arith, omega arith, refl));
}

-- Four of the six numbers in flight are acknowledged.
accept_ack-InFlight_example :
    let t' = accept_ack 200 1004 (flying 0).tcb in
    (t'.snd_una ≡ 1004) × (t'.snd_nxt ≡ 1006) × (in_flight t' + 4 ≡ 6) × InFlight t'
accept_ack-InFlight_example = accept_ack-InFlight 200 4 (flying 0).tcb flying-InFlight (omega arith)

loaded-IsReady : IsReady loaded.tcb
loaded-IsReady = record {
  valid = (write_refines (Stream.make 16) three_bytes (make-IsValid 16 (omega arith))).2;
  una_in = omega arith;
  nxt_in = omega arith;
  wnd_in = omega arith;
  mss_fits = omega arith;
}

send_buffered_data-ends_example :
    let t' = (send_buffered_data echo_env loaded).tcb in
    (t'.send_buffer.size ≡ 0) ⊎ (send_room echo_env t' ≡ 0)
send_buffered_data-ends_example =
    send_buffered_data-ends echo_env loaded loaded-IsReady (omega arith)

send_buffered_data-unacked_example :
    (unacked (send_buffered_data echo_env loaded).tcb ≡ unacked loaded.tcb)
    × IsValid (send_buffered_data echo_env loaded).tcb.send_buffer
send_buffered_data-unacked_example = send_buffered_data-unacked echo_env loaded loaded-IsReady

send_buffered_data-window_example :
    in_flight (send_buffered_data echo_env loaded).tcb
    ≤ max (in_flight loaded.tcb) (effective_window echo_env loaded.tcb)
send_buffered_data-window_example = send_buffered_data-window echo_env loaded loaded-IsReady refl

-- A FIN with data, for an application that closes when its peer does.
dispatch-Follows_example :
    Follows idle.tcb.state (dispatch echo_env (segment 17 500 three_bytes) idle).1.tcb.state
dispatch-Follows_example = dispatch-Follows echo_env (segment 17 500 three_bytes) idle

process_ack-una_example :
    (process_ack echo_env 1004 50 (flying 0)).tcb.snd_una
    ≡ (if seq_gt 1004 1000 then 1004 else 1000)
process_ack-una_example = process_ack-una echo_env 1004 50 (flying 0)
