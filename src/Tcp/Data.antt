-- ===== src/Tcp/Data.antt =====
-- src/transport/tcp_connection.cpp: received data, in order and out of order.
use neu_stack.Common.{
  ℕ, ◌+◌, ◌-◌, ◌*◌, true, false, not, ◌||◌, List, [], ◌∷◌, ◌++◌, ltb, leb, ◌==◌, if◌then◌else◌,
  length, drop,
}
use neu_stack.Seq.{add32, sub32, seq_lt, seq_le, seq_gt}
use neu_stack.Segment.{TcpSegment, data_length, ack_flag}
use neu_stack.Tcp.{OutOfOrderSegment, Tcb}
use neu_stack.Tcp.World.{Conn, Env}
use neu_stack.Tcp.Send.{send_segment, back_pressure}
use neu_stack.Tcp.App.{fire_receive}

-- TCPConnectionManager::deliver_data
unfoldable pub deliver_data : Env → List ℕ → Conn → Conn
deliver_data env bytes c =
    let t = c.tcb in
    let c' =
      fire_receive env bytes (record c { tcb = record t { delivered = t.delivered ++ bytes } }) in
    let t' = c'.tcb in record c' { tcb = record t' { rcv_wnd = back_pressure t' } }

-- Behind every entry that starts before it.
unfoldable pub insert_ooo : OutOfOrderSegment → List OutOfOrderSegment → List OutOfOrderSegment
insert_ooo seg [] = seg ∷ []
insert_ooo seg (e ∷ rest) =
    if seq_lt e.seq_start seg.seq_start then e ∷ insert_ooo seg rest else seg ∷ (e ∷ rest)

-- TCP_MSS_MAX, the size of the array in an OutOfOrderSegment.
abbrev pub ooo_capacity : ℕ
ooo_capacity = 1460

-- TCPConnectionManager::add_to_ooo_queue. The copy into the array of the entry is not checked: more
-- bytes than it holds are written behind it, which `ooo_overrun` tells from then on.
unfoldable pub add_to_ooo_queue : ℕ → List ℕ → Tcb → Tcb
add_to_ooo_queue seq bytes t =
    if ltb t.options.recv_buffer_size (t.ooo_size + length bytes) then t else record t {
      ooo_queue =
          insert_ooo (record { seq_start = seq; seq_end = add32 seq (length bytes); bytes = bytes })
            t.ooo_queue;
      ooo_size = t.ooo_size + length bytes;
      ooo_overrun = t.ooo_overrun || ltb ooo_capacity (length bytes);
    }

-- One round of deliver_ooo_data with `front` at the head of the queue and no gap before it.
unfoldable pub deliver_front : Env → OutOfOrderSegment → List OutOfOrderSegment → Conn → Conn
deliver_front env front rest c =
    let t = c.tcb in
    let skip = (if seq_lt front.seq_start t.rcv_nxt then sub32 t.rcv_nxt front.seq_start else 0) in
    let c' =
      (if seq_le front.seq_end t.rcv_nxt
        then c
        else (let shown = deliver_data env (drop skip front.bytes) c in
            let u = shown.tcb in record shown { tcb = record u { rcv_nxt = front.seq_end } })) in
    let t' = c'.tcb in
    record c' { tcb = record t' { ooo_size = t'.ooo_size - length front.bytes; ooo_queue = rest } }

-- The loop of deliver_ooo_data, over the queue.
unfoldable pub deliver_queue : Env → List OutOfOrderSegment → Conn → Conn
deliver_queue env [] c = c
deliver_queue env (front ∷ rest) c =
    if seq_gt front.seq_start c.tcb.rcv_nxt
    then c
    else deliver_queue env rest (deliver_front env front rest c)

-- TCPConnectionManager::deliver_ooo_data
unfoldable pub deliver_ooo_data : Env → Conn → Conn
unfolding deliver_queue
deliver_ooo_data env c = deliver_queue env c.tcb.ooo_queue c

-- An acknowledgement for data that came in order: for every second segment, or after a while.
unfoldable pub acknowledge : Env → Conn → Conn
acknowledge env c =
    let t = c.tcb in
    if not t.options.delayed_ack_enabled
    then send_segment env ack_flag [] c
    else if not t.delayed_ack_pending
    then record c {
      tcb = record t {
        delayed_ack_pending = true;
        delayed_ack_time = c.world.now + t.options.delayed_ack_timeout_ms * 1000;
      };
    }
    else (let sent = send_segment env ack_flag [] c in
        let u = sent.tcb in record sent { tcb = record u { delayed_ack_pending = false } })

-- Data that starts at rcv_nxt.
unfoldable pub handle_next : Env → ℕ → List ℕ → Conn → Conn
unfolding acknowledge
handle_next env seg_end bytes c =
    let shown = deliver_data env bytes c in
    let t = shown.tcb in
    acknowledge env (deliver_ooo_data env (record shown { tcb = record t { rcv_nxt = seg_end } }))

-- TCPConnectionManager::handle_data
unfoldable pub handle_data : Env → TcpSegment → Conn → Conn
unfolding handle_next
handle_data env seg c =
    let t = c.tcb in
    let seg_end = add32 seg.seq_num (data_length seg) in
    let overlap = sub32 t.rcv_nxt seg.seq_num in
    if data_length seg == 0
    then c
    else if seq_le seg_end t.rcv_nxt
    then c
    else if seq_lt seg.seq_num t.rcv_nxt
    then (if leb (data_length seg) overlap
        then c
        else handle_next env seg_end (drop overlap seg.payload) c)
    else if seg.seq_num == t.rcv_nxt
    then handle_next env seg_end seg.payload c
    else send_segment env ack_flag []
        (record c { tcb = add_to_ooo_queue seg.seq_num seg.payload t })
