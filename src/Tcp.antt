-- ===== src/Tcp.antt =====
-- include/neustack/transport/tcp_state.hpp and tcp_tcb.hpp: the data of a TCP connection.
--
-- Times are microseconds of the steady clock, which stands still during one handler. Sequence
-- numbers and the other uint32_t fields are numbers below 2^32.
pub mod World
pub mod Send
pub mod App
pub mod Ack
pub mod Timers
pub mod Data
pub mod Handlers
pub mod Queue
pub mod Flight
pub mod Frame
pub mod Rtt
pub mod Edge
pub mod Timeout
pub mod Unanswered
pub mod Phases
pub mod CallStates
pub mod States
pub mod Pieces
pub mod Overrun
pub mod Reassembly
pub mod Chunk
pub mod Rounds
pub mod Drain
use neu_stack.Common.{
  ℕ, suc, ◌+◌, ◌-◌, ◌*◌, ◌%◌, ◌^◌, min, Bool, true, false, not, ◌&&◌, ◌||◌, Option, none, some,
  List, [], ◌∷◌, ltb, leb, ◌==◌, if◌then◌else◌, length,
}
use neu_stack.Seq.{u32}
use neu_stack.Segment.{TcpBuilder}
use neu_stack.Stream.{StreamBuffer}
use neu_stack.Stream

pub data TcpState : Type 0 where
  closed listen syn_sent syn_rcvd established fin_wait_1 fin_wait_2 : TcpState
  close_wait closing last_ack time_wait : TcpState

pub record TcpTuple : Type 0 where
  pub local_ip : ℕ
  pub remote_ip : ℕ
  pub local_port : ℕ
  pub remote_port : ℕ

-- operator==
unfoldable pub tuple_eq : TcpTuple → TcpTuple → Bool
tuple_eq a b =
    a.local_ip == b.local_ip
    && (a.remote_ip == b.remote_ip
        && (a.local_port == b.local_port && a.remote_port == b.remote_port))

-- struct TCPOptions, without the two options that nothing reads.
pub record TcpOptions : Type 0 where
  pub nagle_enabled : Bool
  pub delayed_ack_enabled : Bool
  pub delayed_ack_timeout_ms : ℕ
  pub mss : ℕ
  pub recv_buffer_size : ℕ
  pub send_buffer_size : ℕ
  pub max_retransmit : ℕ
  pub initial_rto_us : ℕ

abbrev pub default_options : TcpOptions
default_options = record {
  nagle_enabled = true;
  delayed_ack_enabled = true;
  delayed_ack_timeout_ms = 200;
  mss = 1460;
  recv_buffer_size = 65535;
  send_buffer_size = 65535;
  max_retransmit = 5;
  initial_rto_us = 1_000_000;
}

-- `data` with `data_len` is the list `bytes`.
pub record RetransmitEntry : Type 0 where
  pub seq_start : ℕ
  pub seq_end : ℕ
  pub bytes : List ℕ
  pub send_time : ℕ
  pub timeout : ℕ
  pub retransmit_count : ℕ

pub record OutOfOrderSegment : Type 0 where
  pub seq_start : ℕ
  pub seq_end : ℕ
  pub bytes : List ℕ

-- A call of ICongestionControl, or of the two methods that only TCPReno has.
pub data CongestionEvent : Type 0 where
  ack_event : ℕ → ℕ → CongestionEvent
  loss_event : ℕ → CongestionEvent
  timeout_event : CongestionEvent
  dup_ack_event : CongestionEvent

-- struct TCB. A congestion controller is the list of the calls made of it, newest first; a callback
-- is a number, or none where it is not set. Two fields are not the program's: `delivered` is what
-- `deliver_data` has been given so far, and `ooo_overrun` tells that `add_to_ooo_queue` has written
-- behind the array of an entry.
pub record Tcb : Type 0 where
  pub options : TcpOptions
  pub t_tuple : TcpTuple
  pub state : TcpState
  pub passive_open : Bool
  pub snd_una : ℕ
  pub snd_nxt : ℕ
  pub snd_wnd : ℕ
  pub iss : ℕ
  pub rcv_nxt : ℕ
  pub rcv_wnd : ℕ
  pub irs : ℕ
  pub congestion_control : Option (List CongestionEvent)
  pub retransmit_queue : List RetransmitEntry
  pub srtt_us : ℕ
  pub rttvar_us : ℕ
  pub rto_us : ℕ
  pub last_rtt_us : ℕ
  pub rtt_measuring : Bool
  pub rtt_seq : ℕ
  pub rtt_send_time : ℕ
  pub ooo_queue : List OutOfOrderSegment
  pub ooo_size : ℕ
  pub ooo_overrun : Bool
  pub dup_ack_count : ℕ
  pub last_ack_num : ℕ
  pub send_buffer : StreamBuffer
  pub recv_buffer : StreamBuffer
  pub on_connect : Option ℕ
  pub on_receive : Option ℕ
  pub on_close : Option ℕ
  pub last_activity : ℕ
  pub zero_window_probe_needed : Bool
  pub zwp_time : ℕ
  pub delayed_ack_pending : Bool
  pub delayed_ack_time : ℕ
  pub close_pending : Bool
  pub min_rtt_us : ℕ
  pub last_sample_time_us : ℕ
  pub packets_sent_period : ℕ
  pub packets_lost_period : ℕ
  pub ecn_ce_period : ℕ
  pub bytes_sent_period : ℕ
  pub bytes_acked_period : ℕ
  pub delivered : List ℕ

-- A TCB as its constructor leaves it, with both buffers of a given size in place of 64 KB.
abbrev pub new_tcb : ℕ → Tcb
new_tcb buffer_size = record {
  options = default_options;
  t_tuple = record { local_ip = 0; remote_ip = 0; local_port = 0; remote_port = 0 };
  state = closed;
  passive_open = false;
  snd_una = 0;
  snd_nxt = 0;
  snd_wnd = 0;
  iss = 0;
  rcv_nxt = 0;
  rcv_wnd = 65535;
  irs = 0;
  congestion_control = none;
  retransmit_queue = [];
  srtt_us = 0;
  rttvar_us = 0;
  rto_us = 1_000_000;
  last_rtt_us = 0;
  rtt_measuring = false;
  rtt_seq = 0;
  rtt_send_time = 0;
  ooo_queue = [];
  ooo_size = 0;
  ooo_overrun = false;
  dup_ack_count = 0;
  last_ack_num = 0;
  send_buffer = Stream.make buffer_size;
  recv_buffer = Stream.make buffer_size;
  on_connect = none;
  on_receive = none;
  on_close = none;
  last_activity = 0;
  zero_window_probe_needed = false;
  zwp_time = 0;
  delayed_ack_pending = false;
  delayed_ack_time = 0;
  close_pending = false;
  min_rtt_us = 0;
  last_sample_time_us = 0;
  packets_sent_period = 0;
  packets_lost_period = 0;
  ecn_ce_period = 0;
  bytes_sent_period = 0;
  bytes_acked_period = 0;
  delivered = [];
}

-- TCB::apply_options
unfoldable pub apply_options : TcpOptions → Tcb → Tcb
apply_options opts t = record t {
  send_buffer = Stream.make opts.send_buffer_size;
  recv_buffer = Stream.make opts.recv_buffer_size;
  options = opts;
  rto_us = opts.initial_rto_us;
  rcv_wnd = opts.recv_buffer_size;
}
