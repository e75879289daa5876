-- ===== src/Tcp/Overrun.antt =====
-- src/transport/tcp_connection.cpp: what handle_data copies into the arrays of the out-of-order queue.
use neu_stack.Common.{
  ℕ, ◌≤◌, ◌≡◌, refl, ◌∙◌, inl, inr, List, [], ◌∷◌, length, drop, arith, Bool-cases,
}
use neu_stack.Seq.{seq_gt, seq_le, sub32, add32}
use neu_stack.Segment.{TcpSegment, data_length}
use neu_stack.Tcp.{OutOfOrderSegment, Tcb}
use neu_stack.Tcp.World.{Conn, Env}
use neu_stack.Tcp.Data.{
  ooo_capacity, deliver_data, add_to_ooo_queue, deliver_front, deliver_queue, deliver_ooo_data,
  acknowledge, handle_next, handle_data,
}
use neu_stack.Tcp.Frame.{send_segment-SameReceiver}
use neu_stack.Tcp.Pieces.{deliver_data-Delivery}

-- Nothing more has been written behind an array.
abbrev SameOverrun : Conn → Conn → Type 0
SameOverrun c c' = c'.tcb.ooo_overrun ≡ c.tcb.ooo_overrun

deliver_front-overrun :
    (env : Env) (front : OutOfOrderSegment) (rest : List OutOfOrderSegment) (c : Conn)
    → SameOverrun c (deliver_front env front rest c)
unfolding deliver_front
deliver_front-overrun env front rest c = elim (Bool-cases (seq_le front.seq_end c.tcb.rcv_nxt)) [
  | inl old ↦ rw old refl
  | inr new_one ↦ rw new_one ((deliver_data-Delivery env _ c).ooo_overrun)
]

deliver_queue-overrun :
    (env : Env) (queue : List OutOfOrderSegment) (c : Conn)
    → SameOverrun c (deliver_queue env queue c)
unfolding deliver_queue
deliver_queue-overrun env [] c = refl
deliver_queue-overrun env (front ∷ rest) c =
    elim (Bool-cases (seq_gt front.seq_start c.tcb.rcv_nxt)) [
      | inl gap ↦ rw gap refl
      | inr reached ↦ rw reached (
          deliver_queue-overrun env rest (deliver_front env front rest c)
          ∙ deliver_front-overrun env front rest c)
    ]

acknowledge-overrun : (env : Env) (c : Conn) → SameOverrun c (acknowledge env c)
unfolding acknowledge
acknowledge-overrun env c = ground (arith, send_segment-SameReceiver env 16 [] c)

handle_next-overrun :
    (env : Env) (seg_end : ℕ) (bytes : List ℕ) (c : Conn)
    → SameOverrun c (handle_next env seg_end bytes c)
unfolding handle_next deliver_ooo_data
handle_next-overrun env seg_end bytes c =
    let shown = deliver_data env bytes c in
    let t = shown.tcb in
    let c' = record shown { tcb = record t { rcv_nxt = seg_end } } in
    acknowledge-overrun env (deliver_queue env t.ooo_queue c')
    ∙ deliver_queue-overrun env t.ooo_queue c'
    ∙ (deliver_data-Delivery env bytes c).ooo_overrun

add_to_ooo_queue-overrun :
    (seq : ℕ) (bytes : List ℕ) (t : Tcb)
    → length bytes ≤ ooo_capacity
    → (add_to_ooo_queue seq bytes t).ooo_overrun ≡ t.ooo_overrun
unfolding add_to_ooo_queue
add_to_ooo_queue-overrun seq bytes t fits = ground (arith, fits)

-- A segment whose payload fits an array makes handle_data write behind none.
pub handle_data-overrun :
    (env : Env) (seg : TcpSegment) (c : Conn)
    → length seg.payload ≤ ooo_capacity
    → SameOverrun c (handle_data env seg c)
unfolding handle_data
handle_data-overrun env seg c fits =
    let t = c.tcb in
    let c' = record c { tcb = add_to_ooo_queue seg.seq_num seg.payload t } in
    let seg_end = add32 seg.seq_num (data_length seg) in
    ground (
      arith,
      handle_next-overrun env seg_end (drop (sub32 t.rcv_nxt seg.seq_num) seg.payload) c,
      handle_next-overrun env seg_end seg.payload c,
      add_to_ooo_queue-overrun seg.seq_num seg.payload t fits,
      send_segment-SameReceiver env 16 [] c',
    )
