-- ===== src/Tests/Control.antt =====
-- The theorems on the congestion window, applied.
use neu_stack.Common.{false, List, [], ◌∷◌, arith}
use neu_stack.Tcp.{CongestionEvent, ack_event, loss_event, timeout_event, dup_ack_event}
use neu_stack.Reno.{TcpReno, after_calls}
use neu_stack.Reno.Bounds.{IsWithin, after_calls-IsWithin}

-- A loss, two duplicate acknowledgements in fast recovery, its end, and a timeout.
abbrev some_calls : List CongestionEvent
some_calls =
    ack_event 1460 50_000
    ∷ timeout_event
    ∷ ack_event 1460 50_000
    ∷ dup_ack_event
    ∷ dup_ack_event
    ∷ loss_event 0
    ∷ ack_event 1460 50_000
    ∷ []

after_calls-IsWithin_example : IsWithin 2 (after_calls 1460 some_calls)
after_calls-IsWithin_example = after_calls-IsWithin 1460 some_calls (omega arith) (omega arith)

-- A controller in congestion avoidance.
abbrev avoiding : TcpReno
avoiding = record { mss = 1460; cwnd = 14600; ssthresh = 2920; in_fast_recovery = false }

avoiding-IsWithin : IsWithin 2 avoiding
avoiding-IsWithin = record {
  mss_low = omega arith;
  mss_high = omega arith;
  cwnd_low = omega arith;
  cwnd_high = omega arith;
  ssthresh_low = omega arith;
  ssthresh_high = omega arith;
}
