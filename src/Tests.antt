-- ===== src/Tests.antt =====
-- Connections and managers at concrete values, on which the theorems are applied.
mod Wire
mod Buffers
mod Connection
mod Timer
mod Table
mod Control
mod Limits
mod Network
mod Filter
mod Sorting
mod Threads
mod Samples
mod Web
mod Resolver
mod Serving
mod Layers
use neu_stack.Common.{ℕ, ◌+◌, Bool, true, false, Option, none, some, List, [], ◌∷◌}
use neu_stack.Segment.{TcpSegment, TcpBuilder}
use neu_stack.Stream
use neu_stack.Stream.{StreamBuffer}
use neu_stack.Tcp.{
  TcpState, established, listen, TcpTuple, TcpOptions, default_options, RetransmitEntry, Tcb,
  new_tcb,
}
use neu_stack.Tcp.World.{Metrics, World, Conn, Env, call_send, call_close}
use neu_stack.Manager.{Manager}

-- An application that echoes what it receives and closes when its peer does.
abbrev pub echo_env : Env
echo_env = record {
  send_cb = true;
  metrics_buf = true;
  generate_isn = λ tuple now. 1000;
  cwnd = λ calls. 14600;
  ssthresh = λ calls. 65535;
  is_reno = false;
  in_fast_recovery = λ calls. false;
  rate = λ bytes interval. bytes;
  run_connect = λ k c. [];
  run_receive = λ k c bytes. call_send bytes ∷ [];
  run_close = λ k c. call_close ∷ [];
}

abbrev pub no_metrics : Metrics
no_metrics = record {
  packets_rx = 0;
  packets_tx = 0;
  bytes_rx = 0;
  bytes_tx = 0;
  syn_received = 0;
  rst_received = 0;
  fin_received = 0;
  active_connections = 1;
  conn_established = 1;
  conn_closed = 0;
  conn_reset = 0;
}

abbrev pub quiet_world : World
quiet_world = record { now = 200; sent = []; samples = []; notices = []; metrics = no_metrics }

abbrev pub small_options : TcpOptions
small_options =
    let o = default_options in record o { mss = 4; send_buffer_size = 16; recv_buffer_size = 16 }

abbrev pub peer : TcpTuple
peer = record { local_ip = 1; remote_ip = 2; local_port = 80; remote_port = 5000 }

-- An established connection with nothing in flight; the peer's next byte has the number 500.
abbrev pub idle_tcb : Tcb
idle_tcb =
    let t = new_tcb 16 in
    record t {
      options = small_options;
      t_tuple = peer;
      state = established;
      snd_una = 1000;
      snd_nxt = 1000;
      snd_wnd = 100;
      rcv_nxt = 500;
      rcv_wnd = 16;
      congestion_control = some [];
      on_receive = some 1;
      on_close = some 2;
    }

abbrev pub idle : Conn
idle = record { tcb = idle_tcb; world = quiet_world; freed = false }

-- The connection with bytes in its send buffer.
abbrev pub three_bytes : List ℕ
three_bytes = 7 ∷ 8 ∷ 9 ∷ []

abbrev pub loaded : Conn
loaded =
    let t = idle_tcb in
    record {
      tcb = record t { send_buffer = (Stream.write (Stream.make 16) three_bytes).1 };
      world = quiet_world;
      freed = false;
    }

abbrev pub entry : ℕ → List ℕ → ℕ → RetransmitEntry
entry start bytes count = record {
  seq_start = start;
  seq_end = start + 3;
  bytes = bytes;
  send_time = 0;
  timeout = 100;
  retransmit_count = count;
}

-- The connection with two segments of three bytes in flight, the first sent again `count` times.
abbrev pub flying : ℕ → Conn
flying count =
    let t = idle_tcb in
    record {
      tcb = record t {
        snd_nxt = 1006;
        retransmit_queue = entry 1000 three_bytes count ∷ entry 1003 three_bytes 0 ∷ [];
      };
      world = quiet_world;
      freed = false;
    }

abbrev pub segment : ℕ → ℕ → List ℕ → TcpSegment
segment flags seq bytes = record {
  src_addr = 2;
  dst_addr = 1;
  src_port = 5000;
  dst_port = 80;
  seq_num = seq;
  ack_num = 1000;
  data_offset = 20;
  flags = flags;
  window = 100;
  checksum = 0;
  urgent_ptr = 0;
  payload = bytes;
}

abbrev pub listener : Tcb
listener =
    let t = new_tcb 16 in
    record t {
      state = listen;
      t_tuple = record { local_ip = 1; remote_ip = 0; local_port = 80; remote_port = 0 };
    }

-- A manager with a listener and the connections given.
abbrev pub manager : List (TcpTuple × Tcb) → Manager
manager connections = record {
  local_ip = 1;
  default_options = small_options;
  connections = connections;
  listeners = (80, listener) ∷ [];
  time_wait_list = [];
  world = quiet_world;
  fault = false;
}
