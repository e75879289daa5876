-- ===== src/Tcp/Timers.antt =====
-- src/transport/tcp_connection.cpp: the checks of on_timer on one connection, which are
-- check_retransmit, check_zero_window_probe and check_delayed_ack.
use neu_stack.Common.{
  ℕ, ◌+◌, ◌*◌, ◌%◌, min, true, false, not, ◌&&◌, List, [], ◌∷◌, ltb, leb, ◌==◌, if◌then◌else◌,
  length,
}
use neu_stack.Seq.{u32}
use neu_stack.Segment.{fin_flag, syn_flag, psh_flag, ack_flag}
use neu_stack.Stream
use neu_stack.Tcp.{
  TcpState, closed, syn_sent, syn_rcvd, fin_wait_1, last_ack, RetransmitEntry, Tcb, timeout_event,
}
use neu_stack.Tcp.World.{Conn, Env}
use neu_stack.Tcp.Send.{send_segment, raw_send, send_zero_window_probe}
use neu_stack.Tcp.App.{fire_close}
use neu_stack.Tcp.Ack.{count_lost, first_mss, on_tcb, tell}

-- What a timeout of an entry without bytes sends again.
abbrev pub control_flags : TcpState → ℕ
control_flags syn_sent = syn_flag
control_flags syn_rcvd = syn_flag + ack_flag
control_flags fin_wait_1 = fin_flag + ack_flag
control_flags last_ack = fin_flag + ack_flag
control_flags _ = 0

unfoldable pub resend : Env → RetransmitEntry → Conn → Conn
unfolding first_mss
resend env e c =
    if ltb 0 (length e.bytes)
    then raw_send env (ack_flag + psh_flag) e.seq_start (first_mss c.tcb e.bytes) c
    else if control_flags c.tcb.state == 0
    then c
    else raw_send env (control_flags c.tcb.state) e.seq_start [] c

-- `tcb->rto_us * 2`, at most 60 seconds.
abbrev pub backed_off : ℕ → ℕ
backed_off rto = min (rto * 2 % u32) 60_000_000

-- `reno->on_timeout()`: the source calls it for a TCPReno only.
unfoldable pub tell_timeout : Env → Tcb → Tcb
unfolding tell
tell_timeout env t = if env.is_reno then tell timeout_event t else t

-- The head of the queue has timed out.
unfoldable pub on_timeout : Env → RetransmitEntry → List RetransmitEntry → Conn → Conn
unfolding on_tcb tell_timeout count_lost
on_timeout env e rest c =
    let counted = record e { retransmit_count = e.retransmit_count + 1 } in
    let told = on_tcb (λ u. tell_timeout env (record u { retransmit_queue = counted ∷ rest })) c in
    if ltb told.tcb.options.max_retransmit counted.retransmit_count
    then on_tcb (λ u. record u { state = closed }) (fire_close env told)
    else (let t = told.tcb in
        let rto = backed_off t.rto_us in
        let later = record counted { timeout = c.world.now + rto } in
        let lost = count_lost (record t { rto_us = rto; retransmit_queue = later ∷ rest }) in
        on_tcb (λ u. record u { rtt_measuring = false })
          (resend env later (record told { tcb = lost })))

-- TCPConnectionManager::check_retransmit
unfoldable pub check_retransmit : Env → Conn → Conn
check_retransmit env c = elim c.tcb.retransmit_queue [
  | [] ↦ c
  | e ∷ rest ↦ if ltb c.world.now e.timeout then c else on_timeout env e rest c
]

-- TCPConnectionManager::check_zero_window_probe
unfoldable pub check_zero_window_probe : Env → Conn → Conn
unfolding on_tcb
check_zero_window_probe env c =
    let t = c.tcb in
    let now = c.world.now in
    if (t.snd_wnd == 0) && not (Stream.empty t.send_buffer)
    then (if not t.zero_window_probe_needed
        then record c {
          tcb = record t { zero_window_probe_needed = true; zwp_time = now + t.rto_us };
        }
        else if leb t.zwp_time now
        then on_tcb (λ u. record u { zwp_time = now + backed_off u.rto_us })
            (send_zero_window_probe env c)
        else c)
    else record c { tcb = record t { zero_window_probe_needed = false } }

-- TCPConnectionManager::check_delayed_ack
unfoldable pub check_delayed_ack : Env → Conn → Conn
unfolding on_tcb
check_delayed_ack env c =
    if c.tcb.delayed_ack_pending && leb c.tcb.delayed_ack_time c.world.now
    then on_tcb (λ u. record u { delayed_ack_pending = false }) (send_segment env ack_flag [] c)
    else c
