-- ===== src/TcpLayer.antt =====
-- include/neustack/transport/tcp_layer.hpp and src/transport/tcp_layer.cpp: TCPLayer, which hands
-- the packets of IPv4 to the connection manager and keeps an accept callback for each listening
-- port.
pub mod Listening
pub mod Segments
use neu_stack.Common.{ℕ, Bool, true, false, Option, none, some, List, ◌==◌, if◌then◌else◌}
use neu_stack.Common.Maps.{put_key, erase_key}
use neu_stack.Segment
use neu_stack.Tcp.World.{Env}
use neu_stack.Net.Ipv4.{Ipv4Packet}
use neu_stack.Manager.{Manager, listen_on, unlisten}
use neu_stack.Manager.Events.{on_segment_received}

-- The connection manager and `_accept_callbacks`.
pub record TcpLayer : Type 0 where
  pub manager : Manager
  pub accept_callbacks : List (ℕ × ℕ)

-- TCPLayer::handle
unfoldable pub handle_tcp : Env → Ipv4Packet → TcpLayer → TcpLayer
handle_tcp env pkt layer = elim (Segment.parse pkt.src_addr pkt.dst_addr pkt.payload) [
  | none ↦ layer
  | some seg ↦ record layer { manager = on_segment_received env seg layer.manager }
]

-- `if (result < 0) { _accept_callbacks.erase(port); }`
abbrev pub forget_accept : Bool → ℕ → List (ℕ × ℕ) → List (ℕ × ℕ)
forget_accept ok port callbacks = if ok then callbacks else erase_key ◌==◌ port callbacks

-- TCPLayer::listen; `false` is the result -1. The function that the manager calls for a new
-- connection on the port is known by the port.
unfoldable pub layer_listen : ℕ → ℕ → TcpLayer → Bool × TcpLayer
layer_listen port on_accept layer =
    let callbacks = put_key ◌==◌ port on_accept layer.accept_callbacks in
    let (ok, manager) = listen_on port (some port) layer.manager in
    (ok, record { manager = manager; accept_callbacks = forget_accept ok port callbacks })

-- TCPLayer::unlisten
pub layer_unlisten : ℕ → TcpLayer → TcpLayer
layer_unlisten port layer = record {
  manager = unlisten port layer.manager;
  accept_callbacks = erase_key ◌==◌ port layer.accept_callbacks;
}
