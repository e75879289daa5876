-- ===== src/Tcp/Unanswered.antt =====
-- src/transport/tcp_connection.cpp: check_retransmit, call by call, on a head of the queue that is
-- never acknowledged.
use neu_stack.Common.{
  ℕ, zero, suc, ◌+◌, ◌*◌, ◌≤◌, ◌<◌, min, ◌≡◌, refl, ◌∙◌, ap, true, List, [], ◌∷◌, length, arith,
}
use neu_stack.Tcp.{closed, RetransmitEntry}
use neu_stack.Tcp.World.{Conn, Env, Packet}
use neu_stack.Tcp.Send.{max_tcp_size}
use neu_stack.Tcp.Timers.{check_retransmit}
use neu_stack.Tcp.Timeout.{
  head_packet, SameSegments, SameSegments-trans, head_packet-SameSegments,
  check_retransmit-IsResent, check_retransmit-closed,
}

-- The timer at a time, and at some times one after the other, with nothing in between.
abbrev pub check_at : Env → ℕ → Conn → Conn
check_at env time c =
    let w = c.world in check_retransmit env (record c { world = record w { now = time } })

abbrev pub check_all : Env → List ℕ → Conn → Conn
check_all env [] c = c
check_all env (time ∷ later) c = check_all env later (check_at env time c)

-- The first time is not before `from`, and each one comes 60 seconds or more after the one before.
abbrev pub AreLate : ℕ → List ℕ → Type 0
AreLate from [] = Unit {0}
AreLate from (time ∷ later) = (from ≤ time) × AreLate (time + 60_000_000) later

abbrev pub copies : ℕ → Packet → List Packet → List Packet
copies zero p sent = sent
copies (suc n) p sent = copies n p (p ∷ sent)

abbrev pub doubled : ℕ → ℕ → ℕ
doubled zero rto = rto
doubled (suc n) rto = 2 * doubled n rto

-- The head of the queue has been sent again `n` times.
pub record IsRetried (n : ℕ) (e : RetransmitEntry) (c c' : Conn) : Type 0 where
  pub sent : c'.world.sent ≡ copies n (head_packet c.tcb e) c.world.sent
  pub rto : c'.tcb.rto_us ≡ min (doubled n c.tcb.rto_us) 60_000_000
  pub same : SameSegments c.tcb c'.tcb

-- The head as it is then, whose timeout is not after `from`.
record IsHead (n from : ℕ) (e : RetransmitEntry) (rest : List RetransmitEntry) (c : Conn)
    : Type 0 where
  head : RetransmitEntry
  queue : c.tcb.retransmit_queue ≡ head ∷ rest
  count : head.retransmit_count ≡ e.retransmit_count + n
  due : head.timeout ≤ from

doubled-min :
    (n rto : ℕ)
    → min (doubled n (min (2 * rto) 60_000_000)) 60_000_000 ≡ min (doubled (suc n) rto) 60_000_000
doubled-min zero rto = omega arith
doubled-min (suc n) rto = omega (arith, doubled-min n rto)

-- From when on a further call is late, after some.
abbrev pub due_from : ℕ → List ℕ → ℕ
due_from from [] = from
due_from from (time ∷ later) = due_from (time + 60_000_000) later

module _ (env : Env) (on : env.send_cb ≡ true) (rest : List RetransmitEntry) where
  check_all-IsHead :
      (from : ℕ) (times : List ℕ) (e : RetransmitEntry) (c : Conn)
      → 0 < length e.bytes
      → length e.bytes ≤ max_tcp_size
      → c.tcb.retransmit_queue ≡ e ∷ rest
      → e.timeout ≤ from
      → AreLate from times
      → c.tcb.rto_us ≤ 60_000_000
      → e.retransmit_count + length times ≤ c.tcb.options.max_retransmit
      → IsRetried (length times) e c (check_all env times c)
        × IsHead (length times) (due_from from times) e rest (check_all env times c)
  check_all-IsHead from [] e c some_bytes fits head due late rto_in left = (
    record {
      sent = refl;
      rto = omega (arith, rto_in);
      same = record {
        options = refl;
        tuple = refl;
        rcv_nxt = refl;
        rcv_wnd = refl;
        state = refl;
        una = refl;
        nxt = refl;
      };
    },
    record { head = e; queue = head; count = omega arith; due = due },
  )
  check_all-IsHead from (time ∷ later) e c some_bytes fits head due late rto_in left =
      let w = c.world in
      let rto = min (2 * c.tcb.rto_us) 60_000_000 in
      let e' : RetransmitEntry = record e {
        retransmit_count = e.retransmit_count + 1;
        timeout = time + rto;
      } in
      let c' = check_at env time c in
      let law =
        check_retransmit-IsResent env e rest (record c { world = record w { now = time } }) on
          some_bytes fits head (omega (arith, due, late.0)) rto_in (omega (arith, left)) in
      let limit = ap (λ o. o.max_retransmit) law.same.options in
      let (run, last) =
        check_all-IsHead (time + 60_000_000) later e' c' some_bytes fits law.queue (omega arith)
          late.1 (omega (arith, law.rto)) (omega (arith, limit, left)) in
      (
        record {
          sent =
              run.sent
              ∙ ap (λ p. copies (length later) p c'.world.sent)
                  (head_packet-SameSegments c.tcb c'.tcb e law.same)
              ∙ ap (copies (length later) (head_packet c.tcb e)) law.sent;
          rto =
              run.rto
              ∙ ap (λ r. min (doubled (length later) r) 60_000_000) law.rto
              ∙ doubled-min (length later) c.tcb.rto_us;
          same = SameSegments-trans law.same run.same;
        },
        record {
          head = last.head;
          queue = last.queue;
          count = omega (arith, last.count);
          due = last.due;
        },
      )

-- The head of the queue, an entry of 1 to 1460 bytes, is never acknowledged, the send callback is set,
-- and check_retransmit is called from its timeout on, each time 60 seconds or more after the time
-- before: with every call, as often as options.max_retransmit allows, the head is sent again, with
-- its own sequence number, the acknowledgement and window of the connection and as many of its bytes
-- as fit an MSS, and nothing else is sent; the timeout, of at most 60 seconds before, doubles each
-- time, up to 60 seconds; the state and the numbers in flight stay. The call after that closes the
-- connection.
pub check_all-IsRetried :
    (env : Env) (from last : ℕ) (times : List ℕ) (e : RetransmitEntry) (rest : List RetransmitEntry)
    (c : Conn)
    → env.send_cb ≡ true
    → 0 < length e.bytes
    → length e.bytes ≤ max_tcp_size
    → c.tcb.retransmit_queue ≡ e ∷ rest
    → e.timeout ≤ from
    → AreLate from times
    → due_from from times ≤ last
    → c.tcb.rto_us ≤ 60_000_000
    → e.retransmit_count + length times ≡ c.tcb.options.max_retransmit
    → IsRetried (length times) e c (check_all env times c)
      × ((check_at env last (check_all env times c)).tcb.state ≡ closed)
check_all-IsRetried env from last times e rest c on some_bytes fits head due late behind rto_in
      left =
    let (run, end) =
      check_all-IsHead env on rest from times e c some_bytes fits head due late rto_in
        (omega (arith, left)) in
    let c' = check_all env times c in
    let w = c'.world in
    let limit = ap (λ o. o.max_retransmit) run.same.options in
    (
      run,
      check_retransmit-closed env end.head rest (record c' { world = record w { now = last } })
          end.queue (omega (arith, end.due, behind)) (omega (arith, limit, end.count, left)),
    )
