-- ===== src/Tcp/Send.antt =====
-- src/transport/tcp_connection.cpp: sending segments and the buffered data.
use neu_stack.Common.{
  ℕ, zero, suc, ◌+◌, ◌-◌, ◌%◌, ◌^◌, min, Bool, true, false, ◌&&◌, ◌||◌, List, [], ◌∷◌, ◌++◌, ltb,
  ◌==◌, if◌then◌else◌, length, take,
}
use neu_stack.Seq.{add32, sub32}
use neu_stack.Segment.{
  TcpSegment, has_flag, fin_flag, syn_flag, rst_flag, psh_flag, ack_flag, is_ack, seg_len,
}
use neu_stack.Stream
use neu_stack.Stream.{StreamBuffer}
use neu_stack.Tcp.{established, close_wait, fin_wait_1, last_ack, RetransmitEntry, Tcb}
use neu_stack.Tcp.World.{Packet, Conn, World, Env, effective_window}

-- MTU less the IP and the TCP header.
abbrev pub max_tcp_size : ℕ
max_tcp_size = 1460

-- The header and payload of a segment of this connection.
unfoldable pub segment_of : Tcb → ℕ → ℕ → List ℕ → Packet
segment_of t flags seq bytes = record {
  dst_ip = t.t_tuple.remote_ip;
  src_ip = t.t_tuple.local_ip;
  header = record {
    src_port = t.t_tuple.local_port;
    dst_port = t.t_tuple.remote_port;
    seq = seq;
    ack = t.rcv_nxt;
    flags = flags;
    window = min t.rcv_wnd 65535;
    payload = bytes;
  };
}

-- `_send_cb(...)`, if it is set.
unfoldable pub transmit : Env → Packet → World → World
transmit env p w = if env.send_cb then record w { sent = p ∷ w.sent } else w

-- The sequence number after a segment: its bytes, and one each for SYN and FIN.
unfoldable pub advance : ℕ → ℕ → ℕ → ℕ
advance flags len nxt =
    let after_syn = (if has_flag flags syn_flag then add32 nxt 1 else nxt) in
    let after_data = add32 after_syn len in
    if has_flag flags fin_flag then add32 after_data 1 else after_data

-- The counters of a packet that was handed to the callback.
unfoldable pub count_sent : Env → ℕ → Conn → Conn
count_sent env len c =
    let t = c.tcb in
    let w = c.world in
    let m = w.metrics in
    if env.send_cb
    then record c {
      tcb = record t {
        packets_sent_period = (t.packets_sent_period + 1) % 2 ^ 16;
        bytes_sent_period = add32 t.bytes_sent_period len;
      };
      world = record w {
        metrics = record m { packets_tx = m.packets_tx + 1; bytes_tx = m.bytes_tx + (20 + len) };
      };
    }
    else c

-- The segment joins the retransmission queue, and is timed if no other one is.
unfoldable pub enqueue : ℕ → List ℕ → ℕ → Tcb → Tcb
enqueue seq_used bytes now t =
    let entry : RetransmitEntry = record {
      seq_start = seq_used;
      seq_end = t.snd_nxt;
      bytes = bytes;
      send_time = now;
      timeout = now + t.rto_us;
      retransmit_count = 0;
    } in
    record t {
      retransmit_queue = t.retransmit_queue ++ (entry ∷ []);
      rtt_measuring = true;
      rtt_seq = (if t.rtt_measuring then t.rtt_seq else seq_used);
      rtt_send_time = (if t.rtt_measuring then t.rtt_send_time else now);
    }

-- SYN goes out with the first unacknowledged number, all else with the next one.
abbrev pub seq_used : Tcb → ℕ → ℕ
seq_used t flags = if has_flag flags syn_flag then t.snd_una else t.snd_nxt

abbrev pub needs_retransmit : ℕ → List ℕ → Bool
needs_retransmit flags bytes =
    ltb 0 (length bytes) || (has_flag flags syn_flag || has_flag flags fin_flag)

-- TCPConnectionManager::send_segment
unfoldable pub send_segment : Env → ℕ → List ℕ → Conn → Conn
unfolding advance enqueue count_sent transmit segment_of
send_segment env flags bytes c =
    if ltb max_tcp_size (length bytes)
    then c
    else (let t = c.tcb in
        let seq = seq_used t flags in
        let w = transmit env (segment_of t flags seq bytes) c.world in
        let t' = record t {
          snd_nxt = advance flags (length bytes) t.snd_nxt;
          last_activity = c.world.now;
        } in
        let counted = count_sent env (length bytes) (record c { tcb = t'; world = w }) in
        if needs_retransmit flags bytes
        then record counted { tcb = enqueue seq bytes c.world.now counted.tcb }
        else counted)

-- TCPConnectionManager::raw_send
unfoldable pub raw_send : Env → ℕ → ℕ → List ℕ → Conn → Conn
unfolding transmit segment_of
raw_send env flags seq bytes c =
    if ltb max_tcp_size (length bytes)
    then c
    else record c { world = transmit env (segment_of c.tcb flags seq bytes) c.world }

-- TCPConnectionManager::send_rst, for a segment that `local_ip` has received.
unfoldable pub send_rst : Env → ℕ → TcpSegment → World → World
unfolding transmit
send_rst env local_ip seg w =
    transmit env
      (record {
        dst_ip = seg.src_addr;
        src_ip = local_ip;
        header =
            (if is_ack seg
              then record {
                src_port = seg.dst_port;
                dst_port = seg.src_port;
                seq = seg.ack_num;
                ack = 0;
                flags = rst_flag;
                window = 65535;
                payload = [];
              }
              else record {
                src_port = seg.dst_port;
                dst_port = seg.src_port;
                seq = 0;
                ack = add32 seg.seq_num (seg_len seg);
                flags = rst_flag + ack_flag;
                window = 65535;
                payload = [];
              });
      })
      w

-- The part of the effective window that is not in flight.
unfoldable pub send_room : Env → Tcb → ℕ
send_room env t =
    let window = effective_window env t in
    let in_flight = sub32 t.snd_nxt t.snd_una in
    if ltb in_flight window then window - in_flight else 0

-- The free part of the send buffer, capped: the receive window that is announced.
unfoldable pub back_pressure : Tcb → ℕ
back_pressure t =
    let free =
      (if ltb t.send_buffer.size t.options.send_buffer_size
        then t.options.send_buffer_size - t.send_buffer.size
        else 0) in
    min free t.options.recv_buffer_size

-- One round of the loop of send_buffered_data: at most one segment from the first contiguous block.
unfoldable pub send_chunk : Env → Conn → Conn
send_chunk env c =
    let t = c.tcb in
    let span = Stream.peek_contiguous t.send_buffer in
    let to_send = min (length span) (min (send_room env t) t.options.mss) in
    let c' = send_segment env (ack_flag + psh_flag) (take to_send span) c in
    let t' = c'.tcb in
    record c' { tcb = record t' { send_buffer = (Stream.consume t'.send_buffer to_send).1 } }

-- `while (!tcb->send_buffer.empty())`, on fuel.
unfoldable pub drain : Env → ℕ → Conn → Conn
drain env zero c = c
drain env (suc fuel) c =
    let rest = drain env fuel (send_chunk env c) in
    if Stream.empty c.tcb.send_buffer || (send_room env c.tcb == 0) then c else rest

-- The FIN that a pending close sends once the buffer is empty.
unfoldable pub finish_close : Env → Conn → Conn
finish_close env c =
    let t = c.tcb in
    if Stream.empty t.send_buffer && t.close_pending
    then (let c' = record c { tcb = record t { close_pending = false } } in
        let sent = send_segment env (fin_flag + ack_flag) [] c' in
        let t' = sent.tcb in
        elim t.state [
          | established ↦ record sent { tcb = record t' { state = fin_wait_1 } }
          | close_wait ↦ record sent { tcb = record t' { state = last_ack } }
          | _ ↦ c'
        ])
    else c

-- TCPConnectionManager::send_buffered_data. Each round takes a byte at least, so the fuel is one
-- more than there are bytes.
unfoldable pub send_buffered_data : Env → Conn → Conn
unfolding back_pressure
send_buffered_data env c =
    let drained = drain env (suc c.tcb.send_buffer.size) c in
    let t = drained.tcb in
    finish_close env (record drained { tcb = record t { rcv_wnd = back_pressure t } })

-- TCPConnectionManager::send_zero_window_probe. The window is cut to 16 bits, not capped.
unfoldable pub send_zero_window_probe : Env → Conn → Conn
unfolding transmit segment_of
send_zero_window_probe env c =
    let t = c.tcb in
    if Stream.empty t.send_buffer
    then c
    else (let p = segment_of t ack_flag t.snd_nxt (Stream.peek t.send_buffer 1) in
        let h = p.header in
        record c {
          world =
              transmit env (record p { header = record h { window = t.rcv_wnd % 2 ^ 16 } }) c.world;
        })
