-- ===== src/TcpLayer/Segments.antt =====
-- src/transport/tcp_layer.cpp: from a segment built at one host to the connection manager of
-- another.
use neu_stack.Common.{ℕ, ◌≡◌, some, List, arith}
use neu_stack.Segment
use neu_stack.Segment.{TcpBuilder, fill_checksum}
use neu_stack.Segment.RoundTrip
use neu_stack.Segment.RoundTrip.{Fits, parse-fill_checksum-build}
use neu_stack.Tcp.World.{Env}
use neu_stack.Manager.Events.{on_segment_received}
use neu_stack.Net.Ipv4.{Ipv4Packet}
use neu_stack.Net.Ipv4
use neu_stack.Net.Ipv4.RoundTrip.{received}
use neu_stack.Net.Host.{Host, outgoing, send}
use neu_stack.Net.Host.Sending.{IsHost, Sendable, after_send, parse-send}
use neu_stack.TcpLayer.{TcpLayer, handle_tcp}

abbrev pub proto_tcp : ℕ
proto_tcp = 6

-- A segment that TCPBuilder builds and completes, sent by IPv4 in one frame that fits the MTU, is
-- given to the connection manager of the host that parses the frame with the builder's fields: what
-- the TCP layer does with the packet is what the manager does with that segment.
pub handle_tcp-send :
    (b : TcpBuilder) (a : Host) (dst buffer_len : ℕ) (bytes : List ℕ) (env : Env) (layer : TcpLayer)
    → Fits b
    → IsHost a
    → Segment.build b buffer_len ≡ some bytes
    → Sendable dst proto_tcp (fill_checksum bytes a.local_ip dst) a
    → (frame : List ℕ) × (pkt : Ipv4Packet) × (send dst proto_tcp
          (fill_checksum bytes a.local_ip dst)
          a
        ≡ (some frame, after_send frame a))
      × (Ipv4.parse frame ≡ some pkt)
      × (handle_tcp env pkt layer ≡ record layer {
        manager = on_segment_received env (RoundTrip.received b a.local_ip dst) layer.manager;
      })
handle_tcp-send b a dst buffer_len bytes env layer fits ok built able =
    let segment = fill_checksum bytes a.local_ip dst in
    let answer = parse-send dst proto_tcp segment a ok able in
    let back =
      parse-fill_checksum-build b a.local_ip dst buffer_len bytes fits ok.local_ip
        (omega (arith, able)) built in
    (
      answer.0,
      received (outgoing dst proto_tcp segment a),
      answer.1,
      answer.2,
      unfold handle_tcp in ground (arith, back),
    )
