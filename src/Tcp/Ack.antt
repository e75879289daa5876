-- ===== src/Tcp/Ack.antt =====
-- src/transport/tcp_connection.cpp: acknowledgements and round-trip times.
use neu_stack.Common.{
  ℕ, ◌+◌, ◌-◌, ◌*◌, ◌/◌, ◌%◌, ◌^◌, min, max, Bool, true, false, not, ◌&&◌, ◌||◌, none, some, List,
  [], ◌∷◌, ltb, leb, ◌==◌, if◌then◌else◌, length, take, drop,
}
use neu_stack.Seq.{u32, add32, sub32, seq_lt, seq_le, seq_gt}
use neu_stack.Segment.{ack_flag}
use neu_stack.Stream
use neu_stack.Tcp.{
  TcpState, established, RetransmitEntry, Tcb, CongestionEvent, ack_event, loss_event,
  dup_ack_event,
}
use neu_stack.Tcp.World.{TcpSample, Conn, Env}
use neu_stack.Tcp.Send.{raw_send, send_buffered_data, max_tcp_size}

unfoldable pub on_tcb : (Tcb → Tcb) → Conn → Conn
on_tcb f c = record c { tcb = f c.tcb }

-- A call of the congestion controller, if there is one.
unfoldable pub tell : CongestionEvent → Tcb → Tcb
tell event t = elim t.congestion_control [
  | none ↦ t
  | some calls ↦ record t { congestion_control = some (event ∷ calls) }
]

abbrev pub clamp : ℕ → ℕ → ℕ → ℕ
clamp x lo hi = if ltb x lo then lo else if ltb hi x then hi else x

abbrev pub distance : ℕ → ℕ → ℕ
distance a b = if ltb b a then a - b else b - a

-- The smoothed estimate (RFC 6298) after a sample, in uint32_t arithmetic.
unfoldable pub smooth : ℕ → Tcb → Tcb
smooth rtt t =
    if t.srtt_us == 0 then record t { srtt_us = rtt; rttvar_us = rtt / 2 } else record t {
      rttvar_us = (3 * t.rttvar_us + distance t.srtt_us rtt) % u32 / 4;
      srtt_us = (7 * t.srtt_us + rtt) % u32 / 8;
    }

abbrev pub is_established : TcpState → Bool
is_established established = true
is_established _ = false

-- TCPConnectionManager::update_rtt, less the telemetry histogram.
unfoldable pub update_rtt : ℕ → Tcb → Tcb
unfolding smooth
update_rtt rtt t =
    let t1 = record t { last_rtt_us = rtt } in
    let t2 =
      (if is_established t.state && (t.min_rtt_us == 0 || ltb rtt t.min_rtt_us)
        then record t1 { min_rtt_us = rtt }
        else t1) in
    let t3 = smooth rtt t2 in
    record t3 {
      rto_us = clamp (add32 t3.srtt_us (max 100_000 (4 * t3.rttvar_us % u32))) 200_000 60_000_000;
    }

-- Karn's rule: only a segment that was sent once gives a sample.
unfoldable pub measure : ℕ → RetransmitEntry → Tcb → Tcb
measure now e t =
    if t.rtt_measuring && (seq_le t.rtt_seq e.seq_end && (e.retransmit_count == 0))
    then (let t' = update_rtt ((now - t.rtt_send_time) % u32) t in
        record t' { rtt_measuring = false })
    else t

-- A partly acknowledged entry loses its first bytes. Where the entry has fewer bytes than that, the
-- source's size would wrap; no entry of a queue as in `Tcp.Flight` has fewer.
unfoldable pub truncate : ℕ → RetransmitEntry → RetransmitEntry
truncate ack_num e =
    let confirmed = sub32 ack_num e.seq_start in
    record e {
      bytes = (if ltb max_tcp_size confirmed then [] else drop confirmed e.bytes);
      seq_start = ack_num;
    }

-- The loop of process_ack over the retransmission queue.
unfoldable pub remove_acked : ℕ → ℕ → List RetransmitEntry → Tcb → Tcb
remove_acked now ack_num [] t = record t { retransmit_queue = [] }
remove_acked now ack_num (e ∷ rest) t =
    if seq_le e.seq_end ack_num
    then remove_acked now ack_num rest (measure now e t)
    else if seq_lt e.seq_start ack_num
    then record t { retransmit_queue = truncate ack_num e ∷ rest }
    else record t { retransmit_queue = e ∷ rest }

-- The bytes that a retransmission of an entry carries: at most one MSS.
unfoldable pub first_mss : Tcb → List ℕ → List ℕ
first_mss t bytes = take (min (length bytes) t.options.mss) bytes

-- `tcb->packets_lost_period++`
unfoldable pub count_lost : Tcb → Tcb
count_lost t = record t { packets_lost_period = (t.packets_lost_period + 1) % 2 ^ 16 }

unfoldable pub fast_retransmit : Env → Conn → Conn
unfolding on_tcb first_mss
fast_retransmit env c = elim c.tcb.retransmit_queue [
  | [] ↦ c
  | e ∷ rest ↦
      if length e.bytes == 0
      then c
      else raw_send env ack_flag e.seq_start (first_mss c.tcb e.bytes) c
]

abbrev pub recovering : Env → Tcb → Bool
recovering env t = elim t.congestion_control [
  | none ↦ false
  | some calls ↦ env.is_reno && env.in_fast_recovery calls
]

abbrev pub is_nil {ℓ} : {A : Type ℓ} → List A → Bool
is_nil [] = true
is_nil (x ∷ xs) = false

-- TCPConnectionManager::check_dup_ack
unfoldable pub check_dup_ack : Env → ℕ → Conn → Conn
unfolding on_tcb tell fast_retransmit count_lost
check_dup_ack env ack_num c =
    let t = c.tcb in
    if (ack_num == t.snd_una) && not (is_nil t.retransmit_queue)
    then (if recovering env t
        then on_tcb (tell dup_ack_event) c
        else if add32 t.dup_ack_count 1 == 3
        then (let lost = on_tcb (λ u. tell (loss_event 0) (count_lost u)) c in
            let sent = fast_retransmit env lost in
            let t' = sent.tcb in record sent { tcb = record t' { dup_ack_count = 0 } })
        else record c { tcb = record t { dup_ack_count = add32 t.dup_ack_count 1 } })
    else c

abbrev pub sample_interval_us : ℕ
sample_interval_us = 10_000

abbrev pub controller : {A : Type 0} → (List CongestionEvent → A) → A → Tcb → A
controller f absent t = elim t.congestion_control [ none ↦ absent | some calls ↦ f calls ]

unfoldable pub sample_of : Env → ℕ → ℕ → Tcb → TcpSample
sample_of env now interval t = record {
  timestamp_us = now;
  rtt_us = (if ltb 0 t.last_rtt_us then t.last_rtt_us else t.srtt_us);
  min_rtt_us = t.min_rtt_us;
  srtt_us = t.srtt_us;
  cwnd = controller (λ calls. env.cwnd calls / t.options.mss) 1 t;
  ssthresh = controller env.ssthresh (2 ^ 32 - 1) t;
  bytes_in_flight = (if ltb t.snd_una t.snd_nxt then t.snd_nxt - t.snd_una else 0);
  delivery_rate = env.rate t.bytes_acked_period interval;
  send_rate = env.rate t.bytes_sent_period interval;
  loss_detected = ltb 0 t.packets_lost_period;
  ecn_ce_count = t.ecn_ce_period;
  is_app_limited = Stream.empty t.send_buffer;
  packets_sent = t.packets_sent_period;
  packets_lost = t.packets_lost_period;
}

-- The sample at the end of process_ack, and the reset of the period's counters.
unfoldable pub push_sample : Env → Conn → Conn
unfolding sample_of
push_sample env c =
    let t = c.tcb in
    let w = c.world in
    if env.metrics_buf
      && (ltb 0 t.bytes_sent_period && leb sample_interval_us (w.now - t.last_sample_time_us))
    then (let interval =
          (if ltb 0 t.last_sample_time_us
            then w.now - t.last_sample_time_us
            else sample_interval_us) in
        record c {
          world = record w { samples = sample_of env w.now interval t ∷ w.samples };
          tcb = record t {
            last_sample_time_us = w.now;
            packets_sent_period = 0;
            packets_lost_period = 0;
            ecn_ce_period = 0;
            bytes_sent_period = 0;
            bytes_acked_period = 0;
          };
        })
    else c

-- The window's left edge and the controller, for an acknowledgement of new bytes.
unfoldable pub move_edge : ℕ → Tcb → Tcb
unfolding tell
move_edge ack_num t =
    let acked = sub32 ack_num t.snd_una in
    let told = tell (ack_event acked t.srtt_us) (record t { snd_una = ack_num }) in
    record told { bytes_acked_period = add32 told.bytes_acked_period acked }

-- The part of process_ack that takes new bytes off: the left edge and the queue.
unfoldable pub accept_ack : ℕ → ℕ → Tcb → Tcb
accept_ack now ack_num t =
    let moved = move_edge ack_num t in
    let removed = remove_acked now ack_num moved.retransmit_queue moved in
    record removed { dup_ack_count = 0; last_ack_num = ack_num }

-- TCPConnectionManager::process_ack
unfoldable pub process_ack : Env → ℕ → ℕ → Conn → Conn
unfolding on_tcb
process_ack env ack_num window c =
    let t = c.tcb in
    let checked = check_dup_ack env ack_num (record c { tcb = record t { snd_wnd = window } }) in
    if not (seq_gt ack_num checked.tcb.snd_una)
    then (if (t.snd_wnd == 0) && ltb 0 window then send_buffered_data env checked else checked)
    else push_sample env
        (send_buffered_data env (on_tcb (accept_ack checked.world.now ack_num) checked))
