-- ===== src/Manager/Connect.antt =====
-- The connection table as a map, and what `connect` enters in it.
use neu_stack.Common.{
  ℕ, ◌+◌, ◌%◌, ◌<◌, ◌≡◌, refl, sym, ◌⊎◌, inl, inr, Bool, true, false, Option, none, some, [],
  length, arith, leb, Bool-cases, Option-cases,
}
use mathlib.Core.Path.{subst}
use neu_stack.Seq.{u32}
use neu_stack.Segment.{syn_flag}
use neu_stack.Tcp.{apply_options, syn_sent, TcpTuple, tuple_eq}
use neu_stack.Tcp.World.{Conn, Env}
use neu_stack.Tcp.Send.{send_segment}
use neu_stack.Tcp.Flight.{send_segment-InFlight}
use neu_stack.Tcp.Queue.{InFlight}
use neu_stack.Common.Maps.{find_key-put_key, find_key-put_key-other}
use neu_stack.Manager.{Manager, find_tcb, store, connect, create_tcb, open_conn, max_connections}

tuple_eq_refl : (a : TcpTuple) → tuple_eq a a ≡ true
unfolding tuple_eq
tuple_eq_refl a = ground arith

-- What is equal to `k` is apart from what `k` is apart from.
tuple_eq-apart :
    (k other : TcpTuple)
    → tuple_eq k other ≡ false
    → (j : TcpTuple) → tuple_eq j k ≡ true
    → tuple_eq j other ≡ false
unfolding tuple_eq
tuple_eq-apart k other apart j alike = ground arith

abbrev pub tuple_to : ℕ → ℕ → ℕ → Manager → TcpTuple
tuple_to remote_ip remote_port local_port m = record {
  local_ip = m.local_ip;
  remote_ip = remote_ip;
  local_port = local_port;
  remote_port = remote_port;
}

-- The entry that `connect` starts from.
module _ (env : Env) (remote_ip remote_port local_port : ℕ) (on_connect : Option ℕ)
    (m : Manager) where
  abbrev here : TcpTuple
  here = tuple_to remote_ip remote_port local_port m

  abbrev isn : ℕ
  isn = env.generate_isn here m.world.now

  abbrev fresh : Conn
  fresh =
      let t = create_tcb here m in
      open_conn (record t { on_connect = on_connect; iss = isn; snd_una = isn; snd_nxt = isn }) m

  abbrev opened : Conn
  opened =
      let c = send_segment env syn_flag [] fresh in
      let t = c.tcb in record c { tcb = record t { state = syn_sent } }

  fresh-InFlight : isn < u32 → InFlight fresh.tcb
  unfolding create_tcb apply_options
  fresh-InFlight h = record { una = h; nxt = h; half = omega (arith, h); chain = omega (arith, h) }

  opened-InFlight :
      isn < u32
      → InFlight opened.tcb × (opened.tcb.snd_una ≡ isn) × (opened.tcb.snd_nxt ≡ (isn + 1) % u32)
  unfolding create_tcb apply_options
  opened-InFlight h =
      let all =
        send_segment-InFlight env 2 [] fresh (fresh-InFlight h)
          (inr (inl (refl, refl, refl, omega arith))) (omega arith) (omega arith) in
      (
        record { una = all.2.una; nxt = all.2.nxt; half = all.2.half; chain = all.2.chain },
        all.0,
        all.1,
      )

  -- What `connect` promises of its result and of the manager after it.
  abbrev pub Connected : Bool × Manager → Type 0
  Connected (ok, m') =
      ((ok ≡ false) × (m' ≡ m))
      ⊎ ((ok ≡ true)
          × (find_tcb here m' ≡ some opened.tcb)
          × (opened.tcb.state ≡ syn_sent)
          × InFlight opened.tcb
          × (opened.tcb.snd_una ≡ isn)
          × (opened.tcb.snd_nxt ≡ (isn + 1) % u32))

  connect-opened :
      leb max_connections (length m.connections) ≡ false
      → find_tcb here m ≡ none
      → connect env remote_ip remote_port local_port on_connect m ≡ (true, store here opened m)
  unfolding connect
  connect-opened room absent = ground (arith, room, absent)

  -- `connect` fails and changes nothing, or it enters a connection in SYN_SENT whose SYN alone is
  -- in flight, under its tuple. The initial sequence number is of 32 bits.
  pub connect-Connected :
      isn < u32 → Connected (connect env remote_ip remote_port local_port on_connect m)
  unfolding store
  connect-Connected h = elim (Bool-cases (leb max_connections (length m.connections))) [
    | inl no_room ↦ unfold connect in inl (ground (arith, no_room), ground (arith, no_room))
    | inr room ↦ elim (Option-cases (find_tcb here m)) [
      | inr (t, found) ↦
          unfold connect in inl (ground (arith, room, found), ground (arith, room, found))
      | inl absent ↦
          let flying = opened-InFlight h in
          subst Connected (sym (connect-opened room absent)) (
            inr (
              refl,
              find_key-put_key tuple_eq here opened.tcb m.connections (tuple_eq_refl here),
              refl,
              flying.0,
              flying.1,
              flying.2,
            ))
    ]
  ]

  -- `connect` leaves every other connection as it is.
  pub connect-others :
      (other : TcpTuple)
      → tuple_eq here other ≡ false
      → find_tcb other (connect env remote_ip remote_port local_port on_connect m).1
        ≡ find_tcb other m
  unfolding connect store
  connect-others other apart = ground (
    arith,
    find_key-put_key-other tuple_eq here other opened.tcb m.connections apart
        (tuple_eq-apart here other apart),
  )
