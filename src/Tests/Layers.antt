-- ===== src/Tests/Layers.antt =====
-- The theorems on the TCP layer, applied.
use neu_stack.Common.{ℕ, ◌≡◌, refl, some, List, [], ◌∷◌, arith}
use neu_stack.Segment
use neu_stack.Segment.{header_then, fill_checksum}
use neu_stack.Segment.RoundTrip
use neu_stack.Manager.Events.{on_segment_received}
use neu_stack.Net.Ipv4
use neu_stack.Net.Ipv4.{Ipv4Packet}
use neu_stack.Net.Host.{send}
use neu_stack.Net.Host.Sending.{after_send}
use neu_stack.TcpLayer.{TcpLayer, handle_tcp}
use neu_stack.TcpLayer.Segments.{handle_tcp-send}
use neu_stack.Tests.{echo_env, manager}
use neu_stack.Tests.Wire.{greeting, greeting-Fits}
use neu_stack.Tests.Network.{host, host-IsHost}

-- A layer that listens on port 80 and has an accept callback for it.
abbrev layer : TcpLayer
layer = record { manager = manager []; accept_callbacks = (80, 3) ∷ [] }

handle_tcp-send_example :
    (frame : List ℕ) × (pkt : Ipv4Packet) × (send 33_554_559 6
        (fill_checksum (header_then greeting 0 greeting.payload) 167_772_161 33_554_559)
        host
      ≡ (some frame, after_send frame host))
    × (Ipv4.parse frame ≡ some pkt)
    × (handle_tcp echo_env pkt layer ≡ record layer {
      manager =
          on_segment_received echo_env
            (RoundTrip.received greeting 167_772_161 33_554_559)
            (manager []);
    })
unfolding Segment.build fill_checksum
handle_tcp-send_example =
    handle_tcp-send greeting host 33_554_559 100 (header_then greeting 0 greeting.payload) echo_env
      layer greeting-Fits host-IsHost refl (omega arith)
