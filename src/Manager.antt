-- ===== src/Manager.antt =====
-- src/transport/tcp_connection.cpp: the tables of TCPConnectionManager. The unordered maps are
-- association lists, in the order in which an iteration meets their entries.
pub mod Events
pub mod Bounds
pub mod Listener
pub mod Connect
use neu_stack.Common.{
  ℕ, zero, suc, ◌+◌, ◌-◌, ◌*◌, ◌%◌, ◌^◌, Bool, true, false, not, ◌&&◌, ◌||◌, Option, none, some,
  List, [], ◌∷◌, ◌++◌, ltb, leb, ◌==◌, if◌then◌else◌, length,
}
use neu_stack.Common.Maps.{find_key, put_key, erase_key}
use neu_stack.Seq.{add32}
use neu_stack.Segment.{TcpSegment, data_length, is_syn, is_ack, is_fin, is_rst, syn_flag, ack_flag}
use neu_stack.Stream
use neu_stack.Tcp.{
  TcpState, closed, listen, syn_sent, syn_rcvd, time_wait, TcpTuple, tuple_eq, TcpOptions, Tcb,
  new_tcb, apply_options,
}
use neu_stack.Tcp.World.{Conn, World, Metrics, Env}
use neu_stack.Tcp.Send.{send_segment, send_rst}
use neu_stack.Tcp.App
use neu_stack.Tcp.Timers.{check_retransmit, check_delayed_ack, check_zero_window_probe}
use neu_stack.Tcp.Handlers.{
  After, stay, start_timer, restart_timer, delete, set_state, uncount, handle_rst, dispatch,
}

-- `fault` tells that the code has used a TCB after it was deleted.
pub record Manager : Type 0 where
  pub local_ip : ℕ
  pub default_options : TcpOptions
  pub connections : List (TcpTuple × Tcb)
  pub listeners : List (ℕ × Tcb)
  pub time_wait_list : List (ℕ × TcpTuple)
  pub world : World
  pub fault : Bool

abbrev pub max_connections : ℕ
max_connections = 10_000

abbrev pub max_time_wait_entries : ℕ
max_time_wait_entries = 4_000

-- 32 seconds
abbrev pub time_wait_duration : ℕ
time_wait_duration = 32_000_000

-- find_tcb
abbrev pub find_tcb : TcpTuple → Manager → Option Tcb
find_tcb tuple m = find_key tuple_eq tuple m.connections

-- find_listening_tcb
abbrev pub find_listening_tcb : ℕ → Manager → Option Tcb
find_listening_tcb port m = find_key ◌==◌ port m.listeners

abbrev pub is_some {ℓ} : {A : Type ℓ} → Option A → Bool
is_some none = false
is_some (some a) = true

-- The connection as its handlers see it, and what they leave put back.
abbrev pub open_conn : Tcb → Manager → Conn
open_conn t m = record { tcb = t; world = m.world; freed = false }

unfoldable pub store : TcpTuple → Conn → Manager → Manager
store tuple c m = record m {
  connections = put_key tuple_eq tuple c.tcb m.connections;
  world = c.world;
}

-- listen; `false` is the result -1.
unfoldable pub listen_on : ℕ → Option ℕ → Manager → Bool × Manager
listen_on port on_accept m =
    if port == 0
    then (false, m)
    else if is_some (find_listening_tcb port m)
    then (false, m)
    else (let t = new_tcb 65536 in
        let tcb : Tcb = record t {
          state = listen;
          t_tuple = record {
            local_ip = m.local_ip;
            remote_ip = 0;
            local_port = port;
            remote_port = 0;
          };
          on_connect = on_accept;
        } in
        (true, record m { listeners = put_key ◌==◌ port tcb m.listeners }))

-- set_listener_callbacks
unfoldable pub set_listener_callbacks : ℕ → Option ℕ → Option ℕ → Manager → Manager
set_listener_callbacks port on_receive on_close m = elim (find_listening_tcb port m) [
  | none ↦ m
  | some t ↦ record m {
    listeners =
        put_key ◌==◌ port (record t { on_receive = on_receive; on_close = on_close }) m.listeners;
  }
]

-- unlisten
unfoldable pub unlisten : ℕ → Manager → Manager
unlisten port m = record m { listeners = erase_key ◌==◌ port m.listeners }

-- create_tcb: the entry that it makes, with a controller that has had no call yet.
unfoldable pub create_tcb : TcpTuple → Manager → Tcb
create_tcb tuple m =
    let t = apply_options m.default_options (new_tcb 65536) in
    record t { t_tuple = tuple; last_activity = m.world.now; congestion_control = some [] }

-- connect; `false` is the result -1.
unfoldable pub connect : Env → ℕ → ℕ → ℕ → Option ℕ → Manager → Bool × Manager
connect env remote_ip remote_port local_port on_connect m =
    let tuple : TcpTuple = record {
      local_ip = m.local_ip;
      remote_ip = remote_ip;
      local_port = local_port;
      remote_port = remote_port;
    } in
    if leb max_connections (length m.connections)
    then (false, m)
    else if is_some (find_tcb tuple m)
    then (false, m)
    else (let t = create_tcb tuple m in
        let isn = env.generate_isn tuple m.world.now in
        let fresh = record t { on_connect = on_connect; iss = isn; snd_una = isn; snd_nxt = isn } in
        let c = send_segment env syn_flag [] (open_conn fresh m) in
        let t' = c.tcb in (true, store tuple (record c { tcb = record t' { state = syn_sent } }) m))

-- delete_tcb of a connection: its counters, by its state, and its entry.
unfoldable pub delete_tcb : TcpTuple → Manager → Manager
delete_tcb tuple m = elim (find_tcb tuple m) [
  | none ↦ m
  | some t ↦
      let w = m.world in
      let counted = uncount t.state w.metrics in
      record m {
        connections = erase_key tuple_eq tuple m.connections;
        world = record w { metrics = record counted { conn_closed = counted.conn_closed + 1 } };
      }
]

-- A connection of the time-wait list whose time is over, or for which there is no more room.
unfoldable pub expire : TcpTuple → Manager → Manager
unfolding delete_tcb
expire tuple m = elim (find_tcb tuple m) [
  | none ↦ m
  | some t ↦ elim t.state [
    | time_wait ↦
        delete_tcb tuple
          (record m { connections = put_key tuple_eq tuple (set_state closed t) m.connections })
    | _ ↦ m
  ]
]

-- `while (_time_wait_list.size() >= MAX_TIME_WAIT_ENTRIES)`, over the list.
unfoldable pub evict : List (ℕ × TcpTuple) → Manager → Manager
evict [] m = record m { time_wait_list = [] }
evict ((at, tuple) ∷ rest) m =
    if leb max_time_wait_entries (suc (length rest))
    then evict rest (expire tuple m)
    else record m { time_wait_list = (at, tuple) ∷ rest }

-- What start_time_wait_timer leaves of a connection.
unfoldable pub release_buffers : Tcb → Tcb
release_buffers t = record t {
  send_buffer = Stream.make 0;
  recv_buffer = Stream.make 0;
  retransmit_queue = [];
  ooo_queue = [];
  ooo_size = 0;
}

-- start_time_wait_timer. An eviction may have deleted the connection itself.
unfoldable pub start_time_wait_timer : TcpTuple → Manager → Manager
start_time_wait_timer tuple m =
    let room = evict m.time_wait_list m in
    let timed = record room {
      time_wait_list = room.time_wait_list ++ ((room.world.now + time_wait_duration, tuple) ∷ []);
    } in
    elim (find_tcb tuple timed) [
      | none ↦ record timed { fault = true }
      | some t ↦ record timed {
        connections = put_key tuple_eq tuple (release_buffers t) timed.connections;
      }
    ]

-- The first entry for the tuple gets a new time; `none` if there is no entry.
unfoldable pub renew : ℕ → TcpTuple → List (ℕ × TcpTuple) → Option (List (ℕ × TcpTuple))
renew at tuple [] = none
renew at tuple ((old, other) ∷ rest) =
    if tuple_eq other tuple
    then some ((at, other) ∷ rest)
    else elim (renew at tuple rest) [ none ↦ none | some rest' ↦ some ((old, other) ∷ rest') ]

-- restart_time_wait_timer
unfoldable pub restart_time_wait_timer : TcpTuple → Manager → Manager
restart_time_wait_timer tuple m =
    elim (renew (m.world.now + time_wait_duration) tuple m.time_wait_list) [
      | none ↦ start_time_wait_timer tuple m
      | some entries ↦ record m { time_wait_list = entries }
    ]

-- What a handler leaves to the tables.
unfoldable pub finish : TcpTuple → After × Conn → Manager → Manager
unfolding store
finish tuple (after, c) m =
    let stored = store tuple c m in
    if c.freed then delete_tcb tuple stored else elim after [
      | stay ↦ stored
      | start_timer ↦ start_time_wait_timer tuple stored
      | restart_timer ↦ restart_time_wait_timer tuple stored
      | delete ↦ delete_tcb tuple stored
    ]
