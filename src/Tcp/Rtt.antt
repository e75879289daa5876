-- ===== src/Tcp/Rtt.antt =====
-- The retransmission timer: the smoothed round-trip time and the timeout that follows from it.
use neu_stack.Common.{
  ℕ, ◌+◌, ◌^◌, ◌≤◌, ◌<◌, min, max, ◌≢◌, arith, ltb, ◌==◌, ◌&&◌, ◌||◌, Bool-cases, inl, inr,
}
use neu_stack.Tcp.{Tcb}
use neu_stack.Tcp.Ack.{is_established, update_rtt, smooth}

-- After a sample the timeout lies between 200 ms and 60 s, whatever the sample and the state were.
pub update_rtt-rto :
    (rtt : ℕ) (t : Tcb)
    → (200_000 ≤ (update_rtt rtt t).rto_us) × ((update_rtt rtt t).rto_us ≤ 60_000_000)
unfolding update_rtt
update_rtt-rto rtt t = (ground arith, ground arith)

-- For an estimate that has been taken and numbers of less than 2^29, the new estimate lies between
-- the old one and the sample, and the timeout is at least 100 ms above it unless it is 60 s.
pub update_rtt-between :
    (rtt : ℕ) (t : Tcb)
    → t.srtt_us ≢ 0
    → t.srtt_us < 2 ^ 29
    → t.rttvar_us < 2 ^ 29
    → rtt < 2 ^ 29
    → let t' = update_rtt rtt t in
      (min t.srtt_us rtt ≤ t'.srtt_us)
      × (t'.srtt_us ≤ max t.srtt_us rtt)
      × (min 60_000_000 (t'.srtt_us + 100_000) ≤ t'.rto_us)
unfolding update_rtt smooth
update_rtt-between rtt t some_one small var sample = (
  ground arith,
  ground arith,
  elim (Bool-cases (is_established t.state && (t.min_rtt_us == 0 || ltb rtt t.min_rtt_us))) [
    | inl e ↦ rw e (ground arith)
    | inr e ↦ rw e (ground arith)
  ],
)
