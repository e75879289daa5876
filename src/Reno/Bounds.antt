-- ===== src/Reno/Bounds.antt =====
-- include/neustack/transport/tcp_reno.hpp: bounds on the congestion window of TCPReno.
use neu_stack.Common.{ℕ, suc, ◌+◌, ◌*◌, ◌/◌, ◌%◌, ◌^◌, ◌≤◌, min, ◌≡◌, false, List, [], ◌∷◌, arith}
use native.Mathlib.Nat.{mod-le, mul-le-mul_right, div-le_of_le-mul}
use neu_stack.Seq.{u32}
use neu_stack.Tcp.{CongestionEvent, ack_event, loss_event, timeout_event, dup_ack_event}
use neu_stack.Reno.{
  TcpReno, on_ack, on_loss, on_timeout, on_dup_ack, on_event, after_calls, cwnd_limit, new_reno,
}

-- How many of the calls are duplicate acknowledgements.
abbrev pub dup_acks : List CongestionEvent → ℕ
dup_acks [] = 0
dup_acks (ack_event bytes rtt ∷ before) = dup_acks before
dup_acks (loss_event bytes ∷ before) = dup_acks before
dup_acks (timeout_event ∷ before) = dup_acks before
dup_acks (dup_ack_event ∷ before) = suc (dup_acks before)

-- The bounds after calls with `n` duplicate acknowledgements.
pub record IsWithin (n : ℕ) (r : TcpReno) : Type 0 where
  pub mss_low : 536 ≤ r.mss
  pub mss_high : r.mss ≤ 65535
  pub cwnd_low : r.mss ≤ r.cwnd
  pub cwnd_high : r.cwnd ≤ cwnd_limit + 65535 * n
  pub ssthresh_low : r.mss ≤ r.ssthresh
  pub ssthresh_high : r.ssthresh ≤ cwnd_limit + 65535 * n

on_loss-IsWithin : (n : ℕ) (r : TcpReno) → n ≤ 2 ^ 15 → IsWithin n r → IsWithin n (on_loss r)
unfolding on_loss
on_loss-IsWithin n r few v = ground (arith, v)

on_timeout-IsWithin : (n : ℕ) (r : TcpReno) → n ≤ 2 ^ 15 → IsWithin n r → IsWithin n (on_timeout r)
unfolding on_timeout
on_timeout-IsWithin n r few v = ground (arith, v)

on_dup_ack-IsWithin :
    (n : ℕ) (r : TcpReno) → suc n ≤ 2 ^ 15 → IsWithin n r → IsWithin (suc n) (on_dup_ack r)
unfolding on_dup_ack
on_dup_ack-IsWithin n r few v = ground (arith, v)

-- The step of congestion avoidance is at most one MSS.
step_le : (mss cwnd : ℕ) → mss ≤ cwnd → mss * mss % u32 / cwnd ≤ mss
step_le mss cwnd low =
    div-le_of_le-mul cwnd
      (omega (arith, mod-le (mss * mss) u32, mul-le-mul_right {m = mss} {n = cwnd} mss low))

on_ack-IsWithin : (n : ℕ) (r : TcpReno) → n ≤ 2 ^ 15 → IsWithin n r → IsWithin n (on_ack r)
unfolding on_ack
on_ack-IsWithin n r few v = ground (arith, v, step_le r.mss r.cwnd v.cwnd_low)

new_reno-IsWithin : (mss : ℕ) → mss ≤ 65535 → IsWithin 0 (new_reno mss)
new_reno-IsWithin mss high = ground (arith, high)

-- For an MSS of at most 65535 and any calls of which at most 2^15 are duplicate acknowledgements, the
-- congestion window and the threshold are never below one MSS, which is never below 536, and never
-- above the limit of on_ack and 65535 more for each of the duplicate acknowledgements: no number of
-- acknowledgements, losses and timeouts takes them over the limit.
pub after_calls-IsWithin :
    (mss : ℕ) (calls : List CongestionEvent)
    → mss ≤ 65535
    → dup_acks calls ≤ 2 ^ 15
    → IsWithin (dup_acks calls) (after_calls mss calls)
unfolding after_calls on_event
after_calls-IsWithin mss [] high few = new_reno-IsWithin mss high
after_calls-IsWithin mss (ack_event bytes rtt ∷ before) high few =
    on_ack-IsWithin (dup_acks before) (after_calls mss before) few
      (after_calls-IsWithin mss before high few)
after_calls-IsWithin mss (loss_event bytes ∷ before) high few =
    on_loss-IsWithin (dup_acks before) (after_calls mss before) few
      (after_calls-IsWithin mss before high few)
after_calls-IsWithin mss (timeout_event ∷ before) high few =
    on_timeout-IsWithin (dup_acks before) (after_calls mss before) few
      (after_calls-IsWithin mss before high few)
after_calls-IsWithin mss (dup_ack_event ∷ before) high few =
    on_dup_ack-IsWithin (dup_acks before) (after_calls mss before) few
      (after_calls-IsWithin mss before high (omega (arith, few)))

-- For a controller within its bounds after at most 2^15 duplicate acknowledgements, an
-- acknowledgement outside fast recovery does not make the window smaller, unless it is over the
-- limit, and makes it at most one MSS larger.
pub on_ack-grows :
    (n : ℕ) (r : TcpReno)
    → n ≤ 2 ^ 15
    → IsWithin n r
    → r.in_fast_recovery ≡ false
    → (min r.cwnd cwnd_limit ≤ (on_ack r).cwnd)
      × ((on_ack r).cwnd ≤ min (r.cwnd + r.mss) cwnd_limit)
unfolding on_ack
on_ack-grows n r few v normal =
    let step = step_le r.mss r.cwnd v.cwnd_low in
    (ground (arith, v, step, few, normal), ground (arith, v, step, few, normal))
