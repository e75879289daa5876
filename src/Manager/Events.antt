-- ===== src/Manager/Events.antt =====
-- src/transport/tcp_connection.cpp: what comes to the tables of TCPConnectionManager from outside,
-- which are segments, the timer, and the calls of the application.
use neu_stack.Common.{
  ℕ, ◌+◌, Bool, true, false, not, ◌&&◌, ◌||◌, Option, none, some, List, [], ◌∷◌, leb, ◌==◌,
  if◌then◌else◌, length,
}
use neu_stack.Common.Maps.{erase_key}
use neu_stack.Seq.{add32}
use neu_stack.Segment.{TcpSegment, data_length, is_syn, is_ack, is_fin, is_rst, syn_flag, ack_flag}
use neu_stack.Tcp.{closed, syn_rcvd, TcpTuple, Tcb}
use neu_stack.Tcp.World.{Conn, World, Env}
use neu_stack.Tcp.Send.{send_segment, send_rst}
use neu_stack.Tcp.App
use neu_stack.Tcp.Timers.{check_retransmit, check_delayed_ack, check_zero_window_probe}
use neu_stack.Tcp.Handlers.{stay, delete, handle_rst, dispatch}
use neu_stack.Manager.{
  Manager, create_tcb, expire, find_listening_tcb, find_tcb, finish, is_some, max_connections,
  open_conn, store,
}

-- handle_listen, for the listening TCB of a port.
unfoldable pub handle_listen : Env → Tcb → TcpSegment → Manager → Manager
unfolding store
handle_listen env listen_tcb seg m =
    let tuple : TcpTuple = record {
      local_ip = m.local_ip;
      remote_ip = seg.src_addr;
      local_port = listen_tcb.t_tuple.local_port;
      remote_port = seg.src_port;
    } in
    if not (is_syn seg) || is_ack seg
    then m
    else if leb max_connections (length m.connections)
    then m
    else (let t = create_tcb tuple m in
        let isn = env.generate_isn tuple m.world.now in
        let fresh = record t {
          passive_open = true;
          on_connect = listen_tcb.on_connect;
          on_receive = listen_tcb.on_receive;
          on_close = listen_tcb.on_close;
          irs = seg.seq_num;
          rcv_nxt = add32 seg.seq_num 1;
          iss = isn;
          snd_una = isn;
          snd_nxt = isn;
          snd_wnd = seg.window;
        } in
        let c = send_segment env (syn_flag + ack_flag) [] (open_conn fresh m) in
        let t' = c.tcb in store tuple (record c { tcb = record t' { state = syn_rcvd } }) m)

-- A segment for a listening TCB: the RST is looked at before the state. `delete_tcb` of a listener
-- takes its entry out and counts nothing.
unfoldable pub to_listener : Env → ℕ → Tcb → TcpSegment → Manager → Manager
to_listener env port t seg m =
    if is_rst seg
    then (let (after, c) = handle_rst env seg (open_conn t m) in
        elim after [
          | delete ↦ record m { listeners = erase_key ◌==◌ port m.listeners; world = c.world }
          | _ ↦ record m { world = c.world }
        ])
    else handle_listen env t seg m

-- The counters at the top of on_segment_received.
unfoldable pub count_segment : TcpSegment → World → World
count_segment seg w =
    let m = w.metrics in
    record w {
      metrics = record m {
        packets_rx = m.packets_rx + 1;
        bytes_rx = m.bytes_rx + (data_length seg + 20);
        syn_received =
            (if is_syn seg && not (is_ack seg) then m.syn_received + 1 else m.syn_received);
        rst_received = (if is_rst seg then m.rst_received + 1 else m.rst_received);
        fin_received = (if is_fin seg then m.fin_received + 1 else m.fin_received);
      };
    }

abbrev pub tuple_of : TcpSegment → TcpTuple
tuple_of seg = record {
  local_ip = seg.dst_addr;
  remote_ip = seg.src_addr;
  local_port = seg.dst_port;
  remote_port = seg.src_port;
}

-- on_segment_received
unfoldable pub on_segment_received : Env → TcpSegment → Manager → Manager
unfolding count_segment
on_segment_received env seg m0 =
    let m = record m0 { world = count_segment seg m0.world } in
    elim (find_tcb (tuple_of seg) m) [
      | some t ↦ finish (tuple_of seg) (dispatch env seg (open_conn t m)) m
      | none ↦ elim (find_listening_tcb seg.dst_port m) [
        | some t ↦ to_listener env seg.dst_port t seg m
        | none ↦ if is_rst seg then m else record m { world = send_rst env m.local_ip seg m.world }
      ]
    ]

-- The checks of on_timer on one connection, and whether it is to be deleted.
unfoldable pub tick : Env → Conn → Bool × Conn
tick env c =
    let c' = check_retransmit env c in
    elim c'.tcb.state [
      | closed ↦ (true, c')
      | _ ↦ (false, check_zero_window_probe env (check_delayed_ack env c'))
    ]

-- The loop of on_timer over the connections, less those that it collects for deletion. A connection
-- that a callback deletes under the loop is a fault.
unfoldable pub tick_all : Env → List (TcpTuple × Tcb) → Manager → Manager
tick_all env [] m = record m { connections = [] }
tick_all env ((tuple, t) ∷ rest) m =
    let (dead, c) = tick env (open_conn t m) in
    let after = tick_all env rest (record m { world = c.world; fault = m.fault || c.freed }) in
    if dead then after else record after { connections = (tuple, c.tcb) ∷ after.connections }

-- The loop of on_timer over the time-wait list.
unfoldable pub expire_all : List (ℕ × TcpTuple) → Manager → Manager
expire_all [] m = record m { time_wait_list = [] }
expire_all ((at, tuple) ∷ rest) m = elim (leb at m.world.now) [
  | true ↦ expire_all rest (expire tuple m)
  | false ↦
      let after = expire_all rest m in
      record after { time_wait_list = (at, tuple) ∷ after.time_wait_list }
]

-- on_timer
unfoldable pub on_timer : Env → Manager → Manager
unfolding tick_all expire_all
on_timer env m =
    let ticked = tick_all env m.connections m in expire_all ticked.time_wait_list ticked

-- send and close, of a connection in the table.
unfoldable pub send_on : Env → TcpTuple → List ℕ → Manager → Option ℕ × Manager
send_on env tuple bytes m = elim (find_tcb tuple m) [
  | none ↦ (none, m)
  | some t ↦ let (n, c) = App.send env bytes (open_conn t m) in (n, store tuple c m)
]

unfoldable pub close_on : Env → TcpTuple → Manager → Manager
close_on env tuple m = elim (find_tcb tuple m) [
  | none ↦ m
  | some t ↦ finish tuple (stay, App.close env (open_conn t m)) m
]

-- is_port_in_use
unfoldable pub has_port : ℕ → List (TcpTuple × Tcb) → Bool
has_port port [] = false
has_port port ((tuple, t) ∷ rest) = (tuple.local_port == port) || has_port port rest

unfoldable pub is_port_in_use : ℕ → Manager → Bool
unfolding has_port
is_port_in_use port m = is_some (find_listening_tcb port m) || has_port port m.connections
