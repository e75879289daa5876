-- ===== src/Reno.antt =====
-- include/neustack/transport/tcp_reno.hpp: the congestion window of TCPReno, in uint32_t
-- arithmetic.
pub mod Bounds
use neu_stack.Common.{
  ℕ, ◌+◌, ◌*◌, ◌/◌, ◌%◌, min, max, Bool, true, false, List, [], ◌∷◌, ltb, if◌then◌else◌,
}
use neu_stack.Seq.{u32, add32}
use neu_stack.Tcp.{CongestionEvent, ack_event, loss_event, timeout_event, dup_ack_event}

pub record TcpReno : Type 0 where
  pub mss : ℕ
  pub cwnd : ℕ
  pub ssthresh : ℕ
  pub in_fast_recovery : Bool

abbrev pub new_reno : ℕ → TcpReno
new_reno mss =
    let m = (if ltb mss 536 then 536 else mss) in
    record { mss = m; cwnd = m; ssthresh = 65535; in_fast_recovery = false }

-- `65535u * 16`
abbrev pub cwnd_limit : ℕ
cwnd_limit = 1_048_560

unfoldable pub on_ack : TcpReno → TcpReno
on_ack r =
    if r.in_fast_recovery
    then record r { cwnd = r.ssthresh; in_fast_recovery = false }
    else if ltb r.cwnd r.ssthresh
    then record r { cwnd = min (add32 r.cwnd r.mss) cwnd_limit }
    else record r { cwnd = min (add32 r.cwnd (r.mss * r.mss % u32 / r.cwnd)) cwnd_limit }

abbrev pub halved : TcpReno → ℕ
halved r = max (r.cwnd / 2) (2 * r.mss % u32)

unfoldable pub on_loss : TcpReno → TcpReno
on_loss r = record r {
  ssthresh = halved r;
  cwnd = add32 (halved r) (3 * r.mss % u32);
  in_fast_recovery = true;
}

unfoldable pub on_timeout : TcpReno → TcpReno
on_timeout r = record r { ssthresh = halved r; cwnd = r.mss; in_fast_recovery = false }

unfoldable pub on_dup_ack : TcpReno → TcpReno
on_dup_ack r = if r.in_fast_recovery then record r { cwnd = add32 r.cwnd r.mss } else r

unfoldable pub on_event : CongestionEvent → TcpReno → TcpReno
on_event (ack_event bytes rtt) r = on_ack r
on_event (loss_event bytes) r = on_loss r
on_event timeout_event r = on_timeout r
on_event dup_ack_event r = on_dup_ack r

-- The controller of a connection after the calls made of it, newest first.
unfoldable pub after_calls : ℕ → List CongestionEvent → TcpReno
after_calls mss [] = new_reno mss
after_calls mss (event ∷ before) = on_event event (after_calls mss before)
