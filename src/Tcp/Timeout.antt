-- ===== src/Tcp/Timeout.antt =====
-- src/transport/tcp_connection.cpp: check_retransmit on a timeout of the head of the queue.
use neu_stack.Common.{
  ◌+◌, ◌*◌, ◌≤◌, ◌<◌, min, ◌≡◌, refl, ◌∙◌, ap, true, false, List, ◌∷◌, length, length-take, arith,
  ltb,
}
use neu_stack.Segment.{ack_flag, psh_flag}
use neu_stack.Tcp.{closed, Tcb, RetransmitEntry}
use neu_stack.Tcp.World.{Conn, Env, Packet}
use neu_stack.Tcp.Send.{raw_send, segment_of, transmit, max_tcp_size}
use neu_stack.Tcp.Ack.{tell, count_lost, first_mss}
use neu_stack.Tcp.Timers.{check_retransmit, on_timeout, resend, tell_timeout, backed_off}

-- The segment that carries the bytes of an entry, as many as fit an MSS, with its own numbers.
abbrev pub head_packet : Tcb → RetransmitEntry → Packet
head_packet t e = segment_of t (ack_flag + psh_flag) e.seq_start (first_mss t e.bytes)

-- What the retransmissions read of the connection, and do not change.
pub record SameSegments (t t' : Tcb) : Type 0 where
  pub options : t'.options ≡ t.options
  pub tuple : t'.t_tuple ≡ t.t_tuple
  pub rcv_nxt : t'.rcv_nxt ≡ t.rcv_nxt
  pub rcv_wnd : t'.rcv_wnd ≡ t.rcv_wnd
  pub state : t'.state ≡ t.state
  pub una : t'.snd_una ≡ t.snd_una
  pub nxt : t'.snd_nxt ≡ t.snd_nxt

pub SameSegments-trans : {t u v : Tcb} → SameSegments t u → SameSegments u v → SameSegments t v
SameSegments-trans h k = record {
  options = k.options ∙ h.options;
  tuple = k.tuple ∙ h.tuple;
  rcv_nxt = k.rcv_nxt ∙ h.rcv_nxt;
  rcv_wnd = k.rcv_wnd ∙ h.rcv_wnd;
  state = k.state ∙ h.state;
  una = k.una ∙ h.una;
  nxt = k.nxt ∙ h.nxt;
}

pub head_packet-SameSegments :
    (t t' : Tcb) (e : RetransmitEntry) → SameSegments t t' → head_packet t' e ≡ head_packet t e
unfolding segment_of first_mss
head_packet-SameSegments t t' e same =
    rw (same.tuple, same.rcv_nxt, same.rcv_wnd, same.options) refl

-- An entry with bytes, which fit its array, is sent again in one packet.
resend-sent :
    (env : Env) (e : RetransmitEntry) (c : Conn)
    → env.send_cb ≡ true
    → 0 < length e.bytes
    → length e.bytes ≤ max_tcp_size
    → let w = c.world in
      resend env e c ≡ record c { world = record w { sent = head_packet c.tcb e ∷ w.sent } }
unfolding resend raw_send transmit first_mss
resend-sent env e c on some_bytes fits =
    let size = length-take (min (length e.bytes) c.tcb.options.mss) e.bytes in
    ground (arith, on, some_bytes, fits, size)

tell_timeout-fields :
    (env : Env) (t : Tcb)
    → SameSegments t (tell_timeout env t) × ((tell_timeout env t).rto_us ≡ t.rto_us)
unfolding tell_timeout tell
tell_timeout-fields env t = ground arith

-- A timeout of the head with attempts left.
pub record IsResent (e : RetransmitEntry) (rest : List RetransmitEntry) (c c' : Conn) : Type 0 where
  pub same : SameSegments c.tcb c'.tcb
  pub rto : c'.tcb.rto_us ≡ min (2 * c.tcb.rto_us) 60_000_000
  pub queue :
      c'.tcb.retransmit_queue
      ≡ record e {
        retransmit_count = e.retransmit_count + 1;
        timeout = c.world.now + min (2 * c.tcb.rto_us) 60_000_000;
      }
        ∷ rest
  pub sent : c'.world.sent ≡ head_packet c.tcb e ∷ c.world.sent

module _ (env : Env) (e : RetransmitEntry) (rest : List RetransmitEntry) (c : Conn) where
  -- The head's entry as it is counted, and the connection once the controller has been told.
  abbrev counted : RetransmitEntry
  counted = record e { retransmit_count = e.retransmit_count + 1 }

  abbrev told : Tcb
  told = let t = c.tcb in tell_timeout env (record t { retransmit_queue = counted ∷ rest })

  told-fields : SameSegments c.tcb told × (told.rto_us ≡ c.tcb.rto_us)
  told-fields =
      let t = c.tcb in
      let law = tell_timeout-fields env (record t { retransmit_queue = counted ∷ rest }) in
      let same = law.0 in
      (
        record {
          options = same.options;
          tuple = same.tuple;
          rcv_nxt = same.rcv_nxt;
          rcv_wnd = same.rcv_wnd;
          state = same.state;
          una = same.una;
          nxt = same.nxt;
        },
        law.1,
      )

  abbrev later : RetransmitEntry
  later = record counted { timeout = c.world.now + backed_off told.rto_us }

  abbrev lost : Tcb
  lost =
      let t = told in
      count_lost (record t { rto_us = backed_off told.rto_us; retransmit_queue = later ∷ rest })

  lost-SameSegments : SameSegments c.tcb lost
  unfolding count_lost
  lost-SameSegments =
      let same = told-fields.0 in
      record {
        options = same.options;
        tuple = same.tuple;
        rcv_nxt = same.rcv_nxt;
        rcv_wnd = same.rcv_wnd;
        state = same.state;
        una = same.una;
        nxt = same.nxt;
      }

  on_timeout-resent :
      env.send_cb ≡ true
      → 0 < length e.bytes
      → length e.bytes ≤ max_tcp_size
      → ltb told.options.max_retransmit counted.retransmit_count ≡ false
      → let w = c.world in
        let t = lost in
        on_timeout env e rest c ≡ record c {
          tcb = record t { rtt_measuring = false };
          world = record w { sent = head_packet c.tcb e ∷ w.sent };
        }
  unfolding on_timeout
  on_timeout-resent on some_bytes fits h =
      let w = c.world in
      let t = lost in
      let out = resend-sent env later (record c { tcb = lost }) on some_bytes fits in
      let same = head_packet-SameSegments c.tcb lost e lost-SameSegments in
      rw h (
        ap (λ d. let u = d.tcb in record d { tcb = record u { rtt_measuring = false } }) out
        ∙ ap
            (λ p. record c {
              tcb = record t { rtt_measuring = false };
              world = record w { sent = p ∷ w.sent };
            })
            same)

  on_timeout-closed :
      ltb told.options.max_retransmit counted.retransmit_count ≡ true
      → (on_timeout env e rest c).tcb.state ≡ closed
  unfolding on_timeout
  on_timeout-closed h = rw h refl

  check_retransmit-due :
      c.tcb.retransmit_queue ≡ e ∷ rest
      → e.timeout ≤ c.world.now
      → check_retransmit env c ≡ on_timeout env e rest c
  unfolding check_retransmit
  check_retransmit-due head due = ground (arith, head, due)

  pub check_retransmit-IsResent :
      env.send_cb ≡ true
      → 0 < length e.bytes
      → length e.bytes ≤ max_tcp_size
      → c.tcb.retransmit_queue ≡ e ∷ rest
      → e.timeout ≤ c.world.now
      → c.tcb.rto_us ≤ 60_000_000
      → e.retransmit_count < c.tcb.options.max_retransmit
      → IsResent e rest c (check_retransmit env c)
  unfolding count_lost
  check_retransmit-IsResent on some_bytes fits head due rto_in left =
      let kept = told-fields in
      let same = lost-SameSegments in
      let limit = ap (λ o. o.max_retransmit) kept.0.options in
      let doubled : backed_off told.rto_us ≡ min (2 * c.tcb.rto_us) 60_000_000 =
        ap backed_off kept.1 ∙ omega (arith, rto_in) in
      let all =
        check_retransmit-due head due
        ∙ on_timeout-resent on some_bytes fits (ground (arith, limit, left)) in
      record {
        same = record {
          options = ap (λ d. d.tcb.options) all ∙ same.options;
          tuple = ap (λ d. d.tcb.t_tuple) all ∙ same.tuple;
          rcv_nxt = ap (λ d. d.tcb.rcv_nxt) all ∙ same.rcv_nxt;
          rcv_wnd = ap (λ d. d.tcb.rcv_wnd) all ∙ same.rcv_wnd;
          state = ap (λ d. d.tcb.state) all ∙ same.state;
          una = ap (λ d. d.tcb.snd_una) all ∙ same.una;
          nxt = ap (λ d. d.tcb.snd_nxt) all ∙ same.nxt;
        };
        rto = ap (λ d. d.tcb.rto_us) all ∙ doubled;
        queue =
            ap (λ d. d.tcb.retransmit_queue) all
            ∙ ap (λ r. record counted { timeout = c.world.now + r } ∷ rest) doubled;
        sent = ap (λ d. d.world.sent) all;
      }

-- Once the head of the queue has timed out and no attempt is left, the connection is closed,
-- whatever the callback does.
pub check_retransmit-closed :
    (env : Env) (e : RetransmitEntry) (rest : List RetransmitEntry) (c : Conn)
    → c.tcb.retransmit_queue ≡ e ∷ rest
    → e.timeout ≤ c.world.now
    → c.tcb.options.max_retransmit ≤ e.retransmit_count
    → (check_retransmit env c).tcb.state ≡ closed
check_retransmit-closed env e rest c head due none_left =
    let limit = ap (λ o. o.max_retransmit) ((told-fields env e rest c).0.options) in
    ap (λ d. d.tcb.state) (check_retransmit-due env e rest c head due)
    ∙ on_timeout-closed env e rest c (ground (arith, limit, none_left))
