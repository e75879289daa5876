-- ===== src/Manager/Bounds.antt =====
-- The limits of the manager's tables, at the top of src/transport/tcp_connection.cpp.
use neu_stack.Common.{
  Bool-cases, inl, inr, leb, ℕ, suc, ◌+◌, ◌≤◌, ◌<◌, ◌≡◌, refl, ap, Bool, ◌||◌, Option, some, List,
  [], ◌∷◌, length, length-append, arith, ◌==◌, Option-cases,
}
use neu_stack.Segment.{TcpSegment}
use neu_stack.Tcp.{closed, TcpTuple, tuple_eq, Tcb}
use neu_stack.Tcp.World.{Conn, Env}
use neu_stack.Tcp.Handlers.{After, set_state, dispatch}
use neu_stack.Common.Maps.{find_key, put_key, erase_key}
use neu_stack.Manager.{
  is_some, find_tcb, Manager, store, connect, delete_tcb, expire, evict, release_buffers,
  start_time_wait_timer, renew, restart_time_wait_timer, finish, max_connections,
  max_time_wait_entries, open_conn,
}
use neu_stack.Manager.Events.{
  handle_listen, to_listener, on_segment_received, tick, tick_all, expire_all, on_timer,
  count_segment, tuple_of,
}

module _ {K V : Type 0} (same : K → K → Bool) where
  -- An entry that is there is replaced.
  pub length-put_key :
      (k : K) (v w : V) (map : List (K × V))
      → find_key same k map ≡ some v
      → length (put_key same k w map) ≡ length map
  unfolding find_key put_key
  length-put_key k v w [] found = ground arith
  length-put_key k v w ((j, u) ∷ rest) found = ground (arith, length-put_key k v w rest)

  pub length-put_key-le :
      (k : K) (w : V) (map : List (K × V)) → length (put_key same k w map) ≤ suc (length map)
  unfolding put_key
  length-put_key-le k w [] = omega arith
  length-put_key-le k w ((j, u) ∷ rest) = ground (arith, length-put_key-le k w rest)

  pub length-erase_key : (k : K) (map : List (K × V)) → length (erase_key same k map) ≤ length map
  unfolding erase_key
  length-erase_key k [] = omega arith
  length-erase_key k ((j, u) ∷ rest) = ground (arith, length-erase_key k rest)

abbrev pub conns : Manager → ℕ
conns m = length m.connections

abbrev pub waits : Manager → ℕ
waits m = length m.time_wait_list

-- The tables do not outgrow their limits.
pub record IsBounded (m : Manager) : Type 0 where
  pub connections : conns m ≤ max_connections
  pub waiting : waits m ≤ max_time_wait_entries

delete_tcb-conns : (tuple : TcpTuple) (m : Manager) → conns (delete_tcb tuple m) ≤ conns m
unfolding delete_tcb
delete_tcb-conns tuple m = ground (arith, length-erase_key tuple_eq tuple m.connections)

delete_tcb-waits :
    (tuple : TcpTuple) (m : Manager) → (delete_tcb tuple m).time_wait_list ≡ m.time_wait_list
unfolding delete_tcb
delete_tcb-waits tuple m = ground arith

expire-conns : (tuple : TcpTuple) (m : Manager) → conns (expire tuple m) ≤ conns m
unfolding expire
expire-conns tuple m = elim (Option-cases (find_tcb tuple m)) [
  | inl absent ↦ ground (arith, absent)
  | inr (t, found) ↦
      let closed_one = put_key tuple_eq tuple (set_state closed t) m.connections in
      let same = length-put_key tuple_eq tuple t (set_state closed t) m.connections found in
      let less = delete_tcb-conns tuple (record m { connections = closed_one }) in
      ground (arith, found, same, less)
]

expire-waits : (tuple : TcpTuple) (m : Manager) → (expire tuple m).time_wait_list ≡ m.time_wait_list
unfolding expire
expire-waits tuple m = grind (arith, delete_tcb-waits)

evict-conns : (queue : List (ℕ × TcpTuple)) (m : Manager) → conns (evict queue m) ≤ conns m
unfolding evict
evict-conns [] m = omega arith
evict-conns ((at, tuple) ∷ rest) m =
    ground (arith, evict-conns rest (expire tuple m), expire-conns tuple m)

evict-waits :
    (queue : List (ℕ × TcpTuple)) (m : Manager) → waits (evict queue m) < max_time_wait_entries
unfolding evict
evict-waits [] m = omega arith
evict-waits ((at, tuple) ∷ rest) m = ground (arith, evict-waits rest (expire tuple m))

start_time_wait_timer-IsBounded :
    (tuple : TcpTuple) (m : Manager) → IsBounded m → IsBounded (start_time_wait_timer tuple m)
unfolding start_time_wait_timer
start_time_wait_timer-IsBounded tuple m v =
    let room = evict m.time_wait_list m in
    let last = (room.world.now + 32_000_000, tuple) ∷ [] in
    let fewer = evict-conns m.time_wait_list m in
    let less = evict-waits m.time_wait_list m in
    let more = length-append room.time_wait_list last in
    elim (Option-cases (find_tcb tuple room)) [
      | inl absent ↦ record {
        connections = ground (arith, absent, fewer, v);
        waiting = ground (arith, absent, less, more);
      }
      | inr (t, found) ↦
          let same = length-put_key tuple_eq tuple t (release_buffers t) room.connections found in
          record {
            connections = ground (arith, found, fewer, same, v);
            waiting = ground (arith, found, less, more);
          }
    ]

length-renew :
    (at : ℕ) (tuple : TcpTuple) (waiting renewed : List (ℕ × TcpTuple))
    → renew at tuple waiting ≡ some renewed
    → length renewed ≡ length waiting
unfolding renew
length-renew at tuple [] renewed h = ground arith
length-renew at tuple ((old, other) ∷ rest) renewed h = elim (Option-cases (renew at tuple rest)) [
  | inl absent ↦ ground (arith, absent, h)
  | inr (rest', found) ↦ ground (arith, found, h, length-renew at tuple rest rest' found)
]

restart_time_wait_timer-IsBounded :
    (tuple : TcpTuple) (m : Manager) → IsBounded m → IsBounded (restart_time_wait_timer tuple m)
unfolding restart_time_wait_timer
restart_time_wait_timer-IsBounded tuple m v =
    elim (Option-cases (renew (m.world.now + 32_000_000) tuple m.time_wait_list)) [
      | inl absent ↦ ground (arith, absent, start_time_wait_timer-IsBounded tuple m v)
      | inr (entries, found) ↦
          let same = length-renew (m.world.now + 32_000_000) tuple m.time_wait_list entries found in
          ground (arith, found, same, v)
    ]

delete_tcb-IsBounded :
    (tuple : TcpTuple) (m : Manager) → IsBounded m → IsBounded (delete_tcb tuple m)
delete_tcb-IsBounded tuple m v = record {
  connections = omega (arith, delete_tcb-conns tuple m, v.connections);
  waiting = omega (arith, ap length (delete_tcb-waits tuple m), v.waiting);
}

store-IsBounded :
    (tuple : TcpTuple) (c : Conn) (t : Tcb) (m : Manager)
    → find_tcb tuple m ≡ some t
    → IsBounded m
    → IsBounded (store tuple c m)
unfolding store
store-IsBounded tuple c t m found v = record {
  connections =
      omega (arith, length-put_key tuple_eq tuple t c.tcb m.connections found, v.connections);
  waiting = v.waiting;
}

finish-IsBounded :
    (tuple : TcpTuple) (after : After) (c : Conn) (t : Tcb) (m : Manager)
    → find_tcb tuple m ≡ some t
    → IsBounded m
    → IsBounded (finish tuple (after, c) m)
unfolding finish
finish-IsBounded tuple after c t m found v =
    let stored = store-IsBounded tuple c t m found v in
    ground (
      arith,
      stored,
      delete_tcb-IsBounded tuple (store tuple c m) stored,
      start_time_wait_timer-IsBounded tuple (store tuple c m) stored,
      restart_time_wait_timer-IsBounded tuple (store tuple c m) stored,
    )

new_entry-IsBounded :
    (tuple : TcpTuple) (c : Conn) (m : Manager)
    → conns m < max_connections
    → IsBounded m
    → IsBounded (store tuple c m)
unfolding store
new_entry-IsBounded tuple c m room v = record {
  connections = omega (arith, length-put_key-le tuple_eq tuple c.tcb m.connections, room);
  waiting = v.waiting;
}

-- `connect` leaves tables that are within their limits within them.
pub connect-IsBounded :
    (env : Env) (remote_ip remote_port local_port : ℕ) (on_connect : Option ℕ) (m : Manager)
    → IsBounded m
    → IsBounded (connect env remote_ip remote_port local_port on_connect m).1
unfolding connect
connect-IsBounded env remote_ip remote_port local_port on_connect m v =
    let tuple : TcpTuple = record {
      local_ip = m.local_ip;
      remote_ip = remote_ip;
      local_port = local_port;
      remote_port = remote_port;
    } in
    elim (Bool-cases (leb max_connections (length m.connections))) [
      | inl full_one ↦ rw full_one v
      | inr room ↦ elim (Bool-cases (is_some (find_tcb tuple m))) [
        | inl taken ↦ rw (room, taken) v
        | inr free ↦ rw (room, free) (new_entry-IsBounded tuple _ m (ground (arith, room)) v)
      ]
    ]

handle_listen-IsBounded :
    (env : Env) (t : Tcb) (seg : TcpSegment) (m : Manager)
    → IsBounded m
    → IsBounded (handle_listen env t seg m)
unfolding handle_listen
handle_listen-IsBounded env t seg m v = grind (arith, v, length-put_key-le)

to_listener-IsBounded :
    (env : Env) (port : ℕ) (t : Tcb) (seg : TcpSegment) (m : Manager)
    → IsBounded m
    → IsBounded (to_listener env port t seg m)
unfolding to_listener
to_listener-IsBounded env port t seg m v = ground (arith, v, handle_listen-IsBounded env t seg m v)

-- A segment of any kind, for any connection, listener or neither, leaves tables that are within
-- their limits within them.
pub on_segment_received-IsBounded :
    (env : Env) (seg : TcpSegment) (m : Manager)
    → IsBounded m
    → IsBounded (on_segment_received env seg m)
unfolding on_segment_received
on_segment_received-IsBounded env seg m v = elim (Option-cases (find_tcb (tuple_of seg) m)) [
  | inl absent ↦ elim (Option-cases (find_key ◌==◌ seg.dst_port m.listeners)) [
    | inl nobody ↦ ground (arith, absent, nobody, v)
    | inr (t, listening) ↦
        ground (arith, absent, listening, to_listener-IsBounded env seg.dst_port t seg counted same)
  ]
  | inr (t, found) ↦
      let done = dispatch env seg (open_conn t counted) in
      ground (arith, found, finish-IsBounded (tuple_of seg) done.0 done.1 t counted found same)
]
  where
    counted : Manager
    counted = record m { world = count_segment seg m.world }

    same : IsBounded counted
    same = record { connections = v.connections; waiting = v.waiting }

tick_all-conns :
    (env : Env) (queue : List (TcpTuple × Tcb)) (m : Manager)
    → (conns (tick_all env queue m) ≤ length queue) × (waits (tick_all env queue m) ≡ waits m)
unfolding tick_all
tick_all-conns env [] m = (omega arith, refl)
tick_all-conns env ((tuple, t) ∷ rest) m =
    let done = tick env (open_conn t m) in
    let next = record m { world = done.1.world; fault = m.fault || done.1.freed } in
    ground (arith, tick_all-conns env rest next)

expire_all-conns :
    (queue : List (ℕ × TcpTuple)) (m : Manager)
    → (conns (expire_all queue m) ≤ conns m) × (waits (expire_all queue m) ≤ length queue)
unfolding expire_all
expire_all-conns [] m = (omega arith, omega arith)
expire_all-conns ((at, tuple) ∷ rest) m =
    ground
      (arith, expire_all-conns rest (expire tuple m), expire_all-conns rest m, expire-conns tuple m)

-- The timer leaves tables that are within their limits within them.
pub on_timer-IsBounded : (env : Env) (m : Manager) → IsBounded m → IsBounded (on_timer env m)
unfolding on_timer
on_timer-IsBounded env m v =
    let ticked = tick_all env m.connections m in
    ground
      (arith, v, tick_all-conns env m.connections m, expire_all-conns ticked.time_wait_list ticked)
