-- ===== src/Tcp/World.antt =====
-- include/neustack/transport/tcp_connection.hpp and include/neustack/metrics: what a handler of
-- src/transport/tcp_connection.cpp sees of the world around a connection.
use neu_stack.Common.{ℕ, ◌-◌, min, Bool, none, some, List, ltb, if◌then◌else◌}
use neu_stack.Segment.{TcpBuilder}
use neu_stack.Tcp.{CongestionEvent, Tcb, TcpTuple}

-- What `_send_cb` is given: the destination, and the segment with the source address that its
-- checksum is computed with. The bytes are those of `Segment.build` and `Segment.fill_checksum`.
pub record Packet : Type 0 where
  pub dst_ip : ℕ
  pub src_ip : ℕ
  pub header : TcpBuilder

-- The fields of TCPSample.
pub record TcpSample : Type 0 where
  pub timestamp_us : ℕ
  pub rtt_us : ℕ
  pub min_rtt_us : ℕ
  pub srtt_us : ℕ
  pub cwnd : ℕ
  pub ssthresh : ℕ
  pub bytes_in_flight : ℕ
  pub delivery_rate : ℕ
  pub send_rate : ℕ
  pub loss_detected : Bool
  pub ecn_ce_count : ℕ
  pub is_app_limited : Bool
  pub packets_sent : ℕ
  pub packets_lost : ℕ

-- The counters of GlobalMetrics that the TCP code moves.
pub record Metrics : Type 0 where
  pub packets_rx : ℕ
  pub packets_tx : ℕ
  pub bytes_rx : ℕ
  pub bytes_tx : ℕ
  pub syn_received : ℕ
  pub rst_received : ℕ
  pub fin_received : ℕ
  pub active_connections : ℕ
  pub conn_established : ℕ
  pub conn_closed : ℕ
  pub conn_reset : ℕ

-- A callback that was made: with the error code of on_connect, or on_close.
pub data Notice : Type 0 where
  connected : TcpTuple → Notice
  refused : TcpTuple → Notice
  peer_closed : TcpTuple → Notice

-- What is outside one connection: the clock, and all that has left the stack, newest first.
pub record World : Type 0 where
  pub now : ℕ
  pub sent : List Packet
  pub samples : List TcpSample
  pub notices : List Notice
  pub metrics : Metrics

-- A connection at work. `freed` tells that `delete_tcb` was called on it from a callback.
pub record Conn : Type 0 where
  pub tcb : Tcb
  pub world : World
  pub freed : Bool

-- What an application does with its connection in a callback.
pub data Call : Type 0 where
  call_send : List ℕ → Call
  call_close : Call

-- The parts that are not of the transport code: whether the send callback and the sample buffer are
-- set, the generator of initial sequence numbers, the controller behind ICongestionControl as a
-- function of the calls made of it, the division of floats, and the application's callbacks.
pub record Env : Type 0 where
  pub send_cb : Bool
  pub metrics_buf : Bool
  pub generate_isn : TcpTuple → ℕ → ℕ
  pub cwnd : List CongestionEvent → ℕ
  pub ssthresh : List CongestionEvent → ℕ
  pub is_reno : Bool
  pub in_fast_recovery : List CongestionEvent → Bool
  pub rate : ℕ → ℕ → ℕ
  pub run_connect : ℕ → Conn → List Call
  pub run_receive : ℕ → Conn → List ℕ → List Call
  pub run_close : ℕ → Conn → List Call

-- TCB::effective_window
unfoldable pub effective_window : Env → Tcb → ℕ
effective_window env t =
    min (elim t.congestion_control [ none ↦ 65535 | some calls ↦ env.cwnd calls ]) t.snd_wnd

-- TCB::available_recv_window
unfoldable pub available_recv_window : Tcb → ℕ
available_recv_window t =
    if ltb t.recv_buffer.size t.options.recv_buffer_size
    then t.options.recv_buffer_size - t.recv_buffer.size
    else 0
