-- ===== src/Tcp/Handlers.antt =====
-- src/transport/tcp_connection.cpp: the handlers of the connection's states. What a handler does
-- last to the manager's tables is an `After`, which `Manager` carries out.
use neu_stack.Common.{◌+◌, Bool, true, false, not, ◌&&◌, ◌||◌, [], ltb, ◌==◌, if◌then◌else◌}
use neu_stack.Seq.{add32, sub32, seq_gt, seq_in_range}
use neu_stack.Segment.{TcpSegment, data_length, is_syn, is_ack, is_fin, is_rst, syn_flag, ack_flag}
use neu_stack.Tcp.{
  TcpState, closed, listen, syn_sent, syn_rcvd, established, fin_wait_1, fin_wait_2, close_wait,
  closing, last_ack, time_wait, Tcb,
}
use neu_stack.Tcp.World.{Conn, Metrics, Env, Notice}
use neu_stack.Tcp.Send.{send_segment, send_rst}
use neu_stack.Tcp.App.{fire_connect, fire_close}
use neu_stack.Tcp.Ack.{on_tcb, process_ack}
use neu_stack.Tcp.Data.{handle_data}

pub data After : Type 0 where
  stay : After
  start_timer : After
  restart_timer : After
  delete : After

abbrev pub set_state : TcpState → Tcb → Tcb
set_state s t = record t { state = s }

unfoldable pub reset_reply : Env → TcpSegment → Conn → Conn
reset_reply env seg c = record c { world = send_rst env c.tcb.t_tuple.local_ip seg c.world }

-- handle_closed
unfoldable pub handle_closed : Env → TcpSegment → Conn → Conn
unfolding reset_reply
handle_closed env seg c = if is_rst seg then c else reset_reply env seg c

-- The two counters of an established connection.
unfoldable pub count_established : Conn → Conn
count_established c =
    let w = c.world in
    let m = w.metrics in
    record c {
      world = record w {
        metrics = record m {
          active_connections = add32 m.active_connections 1;
          conn_established = m.conn_established + 1;
        };
      };
    }

-- handle_syn_sent
unfoldable pub handle_syn_sent : Env → TcpSegment → Conn → Conn
unfolding on_tcb count_established reset_reply
handle_syn_sent env seg c =
    let t = c.tcb in
    if is_syn seg && is_ack seg
    then (if not (seg.ack_num == add32 t.iss 1)
        then reset_reply env seg c
        else (let acked =
              process_ack env seg.ack_num seg.window (record c {
                tcb = record t { irs = seg.seq_num; rcv_nxt = add32 seg.seq_num 1 };
              }) in
            let sent = on_tcb (set_state established) (send_segment env ack_flag [] acked) in
            fire_connect env (Notice.connected t.t_tuple) (count_established sent)))
    else if is_syn seg && not (is_ack seg)
    then on_tcb (set_state syn_rcvd) (
        send_segment env (syn_flag + ack_flag) [] (record c {
          tcb = record t {
            irs = seg.seq_num;
            rcv_nxt = add32 seg.seq_num 1;
            retransmit_queue = [];
            snd_nxt = t.iss;
          };
        }))
    else c

-- A FIN that stands at rcv_nxt is acknowledged.
unfoldable pub fin_in_order : TcpSegment → Tcb → Bool
fin_in_order seg t = is_fin seg && (add32 seg.seq_num (data_length seg) == t.rcv_nxt)

unfoldable pub accept_fin : Env → Conn → Conn
unfolding on_tcb
accept_fin env c =
    send_segment env ack_flag [] (on_tcb (λ u. record u { rcv_nxt = add32 u.rcv_nxt 1 }) c)

-- The acknowledgement and the data of a segment, in the states that take both.
unfoldable pub take_in : Env → TcpSegment → Conn → Conn
take_in env seg c =
    let acked = (if is_ack seg then process_ack env seg.ack_num seg.window c else c) in
    if ltb 0 (data_length seg) then handle_data env seg acked else acked

-- handle_established
unfoldable pub handle_established : Env → TcpSegment → Conn → Conn
unfolding on_tcb
handle_established env seg c =
    let c' = take_in env seg c in
    if fin_in_order seg c'.tcb
    then fire_close env (on_tcb (set_state close_wait) (accept_fin env c'))
    else c'

-- handle_syn_rcvd
unfoldable pub handle_syn_rcvd : Env → TcpSegment → Conn → After × Conn
unfolding on_tcb count_established reset_reply
handle_syn_rcvd env seg c =
    let t = c.tcb in
    if is_rst seg
    then (if t.passive_open
        then (delete, c)
        else (delete, on_tcb (set_state closed) (fire_connect env (Notice.refused t.t_tuple) c)))
    else if not (is_ack seg)
    then (stay, c)
    else if not (seq_gt seg.ack_num t.snd_una) || seq_gt seg.ack_num t.snd_nxt
    then (stay, reset_reply env seg c)
    else (let acked = on_tcb (set_state established) (process_ack env seg.ack_num seg.window c) in
        let up = fire_connect env (Notice.connected t.t_tuple) (count_established acked) in
        (stay, (if ltb 0 (data_length seg) then handle_established env seg up else up)))

-- The test `snd_una == snd_nxt` right after the acknowledgement was processed.
unfoldable pub fin_acked : Env → TcpSegment → Conn → Bool
fin_acked env seg c =
    let t = (process_ack env seg.ack_num seg.window c).tcb in is_ack seg && (t.snd_una == t.snd_nxt)

-- handle_fin_wait_1
unfoldable pub handle_fin_wait_1 : Env → TcpSegment → Conn → After × Conn
unfolding on_tcb
handle_fin_wait_1 env seg c =
    let ours = fin_acked env seg c in
    let c' = take_in env seg c in
    if fin_in_order seg c'.tcb
    then (let replied = accept_fin env c' in
        if ours
        then (start_timer, on_tcb (set_state time_wait) replied)
        else (stay, on_tcb (set_state closing) replied))
    else (stay, (if ours then on_tcb (set_state fin_wait_2) c' else c'))

-- handle_fin_wait_2
unfoldable pub handle_fin_wait_2 : Env → TcpSegment → Conn → After × Conn
unfolding on_tcb
handle_fin_wait_2 env seg c =
    let c' = take_in env seg c in
    if fin_in_order seg c'.tcb
    then (start_timer, on_tcb (set_state time_wait) (accept_fin env c'))
    else (stay, c')

-- handle_close_wait
unfoldable pub handle_close_wait : Env → TcpSegment → Conn → Conn
handle_close_wait env seg c = if is_ack seg then process_ack env seg.ack_num seg.window c else c

-- handle_closing
unfoldable pub handle_closing : Env → TcpSegment → Conn → After × Conn
unfolding on_tcb
handle_closing env seg c =
    if is_ack seg
    then (let acked = process_ack env seg.ack_num seg.window c in
        if acked.tcb.snd_una == acked.tcb.snd_nxt
        then (start_timer, on_tcb (set_state time_wait) acked)
        else (stay, acked))
    else (stay, c)

-- handle_last_ack
unfoldable pub handle_last_ack : Env → TcpSegment → Conn → After × Conn
unfolding on_tcb
handle_last_ack env seg c =
    if is_ack seg
    then (let acked = process_ack env seg.ack_num seg.window c in
        if acked.tcb.snd_una == acked.tcb.snd_nxt
        then (delete, on_tcb (set_state closed) acked)
        else (stay, acked))
    else (stay, c)

-- handle_time_wait
unfoldable pub handle_time_wait : Env → TcpSegment → Conn → After × Conn
handle_time_wait env seg c =
    if is_fin seg then (restart_timer, send_segment env ack_flag [] c) else (stay, c)

-- The states whose connections `active_connections` counts.
abbrev pub is_active : TcpState → Bool
is_active established = true
is_active fin_wait_1 = true
is_active fin_wait_2 = true
is_active close_wait = true
is_active closing = true
is_active last_ack = true
is_active time_wait = true
is_active _ = false

-- `active_connections.fetch_sub(1)` for a connection that is counted.
unfoldable pub uncount : TcpState → Metrics → Metrics
uncount s m =
    if is_active s then record m { active_connections = sub32 m.active_connections 1 } else m

unfoldable pub count_reset : Conn → Conn
unfolding uncount
count_reset c =
    let w = c.world in
    let m = w.metrics in
    record c {
      world = record w {
        metrics = uncount c.tcb.state (record m { conn_reset = m.conn_reset + 1 });
      };
    }

-- handle_rst
unfoldable pub handle_rst : Env → TcpSegment → Conn → After × Conn
unfolding on_tcb count_reset
handle_rst env seg c =
    let t = c.tcb in
    if not (seq_in_range seg.seq_num t.rcv_nxt (add32 t.rcv_nxt t.rcv_wnd))
    then (stay, c)
    else (delete, fire_close env (on_tcb (set_state closed) (count_reset c)))

-- The switch of on_segment_received, for a connection in the table.
unfoldable pub dispatch : Env → TcpSegment → Conn → After × Conn
dispatch env seg c = if is_rst seg then handle_rst env seg c else elim c.tcb.state [
  | closed ↦ (stay, handle_closed env seg c)
  | listen ↦ (stay, c)
  | syn_sent ↦ (stay, handle_syn_sent env seg c)
  | syn_rcvd ↦ handle_syn_rcvd env seg c
  | established ↦ (stay, handle_established env seg c)
  | fin_wait_1 ↦ handle_fin_wait_1 env seg c
  | fin_wait_2 ↦ handle_fin_wait_2 env seg c
  | close_wait ↦ (stay, handle_close_wait env seg c)
  | closing ↦ handle_closing env seg c
  | last_ack ↦ handle_last_ack env seg c
  | time_wait ↦ handle_time_wait env seg c
]
