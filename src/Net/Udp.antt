-- ===== src/Net/Udp.antt =====
-- include/neustack/transport/udp.hpp and src/transport/udp.cpp: UDP datagrams and the bound ports.
pub mod Search
pub mod Ports
pub mod RoundTrip
use neu_stack.Common.{
  ℕ, zero, suc, ◌+◌, ◌-◌, ◌%◌, ◌/◌, ◌^◌, Bool, true, false, not, ◌&&◌, ◌||◌, Option, none, some,
  List, [], ◌∷◌, ◌++◌, length, take, drop, ltb, ◌==◌, if◌then◌else◌,
}
use neu_stack.Common.Maps.{find_key, put_key, erase_key}
use neu_stack.Checksum.{checksum_accumulate, checksum_finalize}
use neu_stack.Segment.{be16, be32, read16}
use neu_stack.Net.Ipv4.{Ipv4Packet}
use neu_stack.Net.Host.{Host, UdpDelivery, proto_udp, has_icmp_handler, send}
use neu_stack.Net.Icmp.{port_unreachable, send_dest_unreachable}

-- struct UDPDatagram
pub record UdpDatagram : Type 0 where
  pub src_addr : ℕ
  pub dst_addr : ℕ
  pub src_port : ℕ
  pub dst_port : ℕ
  pub length : ℕ
  pub checksum : ℕ
  pub data' : List ℕ

-- UDPPseudoHeader
abbrev pub udp_pseudo_header : ℕ → ℕ → ℕ → List ℕ
udp_pseudo_header src_ip dst_ip udp_len =
    be32 src_ip ++ (be32 dst_ip ++ (0 ∷ 17 ∷ be16 (udp_len % 2 ^ 16)))

unfoldable pub compute_udp_checksum : ℕ → ℕ → List ℕ → ℕ
compute_udp_checksum src_ip dst_ip packet = checksum_finalize (
    checksum_accumulate (checksum_accumulate 0 (udp_pseudo_header src_ip dst_ip (length packet)))
      packet)

-- UDPLayer::verify_checksum: over the whole payload of the IP packet.
unfoldable pub verify_udp_checksum : Ipv4Packet → Bool
verify_udp_checksum pkt = compute_udp_checksum pkt.src_addr pkt.dst_addr pkt.payload == 0

-- UDPLayer::parse
unfoldable pub parse_udp : Ipv4Packet → Option UdpDatagram
parse_udp pkt =
    let udp_len = read16 pkt.payload 4 in
    let sum = read16 pkt.payload 6 in
    if ltb (length pkt.payload) 8
    then none
    else if ltb udp_len 8 || ltb (length pkt.payload) udp_len
    then none
    else if not (sum == 0) && not (verify_udp_checksum pkt)
    then none
    else some record {
      src_addr = pkt.src_addr;
      dst_addr = pkt.dst_addr;
      src_port = read16 pkt.payload 0;
      dst_port = read16 pkt.payload 2;
      length = udp_len;
      checksum = sum;
      data' = take (udp_len - 8) (drop 8 pkt.payload);
    }

-- UDPLayer::handle
unfoldable pub handle_udp : Ipv4Packet → Host → Host
handle_udp pkt h = elim (parse_udp pkt) [
  | none ↦ h
  | some d ↦ elim (find_key ◌==◌ d.dst_port h.sockets) [
    | some cb ↦ record h {
      deliveries =
          record { callback = cb; src_ip = d.src_addr; src_port = d.src_port; data' = d.data' }
          ∷ h.deliveries;
    }
    | none ↦ if has_icmp_handler h then send_dest_unreachable port_unreachable pkt h else h
  ]
]

-- The header in front of the data, with a given checksum.
abbrev pub udp_packet : ℕ → ℕ → ℕ → List ℕ → List ℕ
udp_packet src_port dst_port sum data' =
    be16 src_port ++ (be16 dst_port ++ (be16 ((8 + length data') % 2 ^ 16) ++ (be16 sum ++ data')))

-- The checksum of `sendto`: 0 would say that there is none.
unfoldable pub sendto_checksum : ℕ → ℕ → List ℕ → ℕ
sendto_checksum src_ip dst_ip packet =
    let sum = compute_udp_checksum src_ip dst_ip packet in if sum == 0 then 0xFFFF else sum

-- UDPLayer::sendto
unfoldable pub sendto : ℕ → ℕ → ℕ → List ℕ → Host → Option (List ℕ) × Host
sendto dst_ip dst_port src_port data' h = elim (find_key ◌==◌ src_port h.sockets) [
  | none ↦ (none, h)
  | some cb ↦
      let sum = sendto_checksum h.local_ip dst_ip (udp_packet src_port dst_port 0 data') in
      send dst_ip proto_udp (udp_packet src_port dst_port sum data') h
]

-- `_next_ephemeral_port++`; a uint16_t is never above EPHEMERAL_PORT_MAX, so it is never set back
-- to EPHEMERAL_PORT_MIN.
abbrev pub advance_port : ℕ → ℕ
advance_port port = (port + 1) % 2 ^ 16

-- The loop of allocate_ephemeral_port: the port, or 0, and the counter it leaves.
unfoldable pub search_port : ℕ → ℕ → ℕ → List (ℕ × ℕ) → ℕ × ℕ
search_port zero start next sockets = (0, next)
search_port (suc fuel) start next sockets =
    let after = advance_port next in
    let rest = search_port fuel start after sockets in
    elim (find_key ◌==◌ next sockets) [
      | none ↦ (next, after)
      | some cb ↦ if after == start then (0, after) else rest
    ]

-- allocate_ephemeral_port: the counter comes back to where it started after 2^16 rounds.
unfoldable pub allocate_ephemeral_port : Host → ℕ × Host
allocate_ephemeral_port h =
    let (port, next) = search_port (2 ^ 16) h.next_ephemeral_port h.next_ephemeral_port h.sockets in
    (port, record h { next_ephemeral_port = next })

-- The check that the port is free, and the entry.
unfoldable pub bind_to : ℕ → ℕ → Host → ℕ × Host
bind_to port cb h = elim (find_key ◌==◌ port h.sockets) [
  | some other ↦ (0, h)
  | none ↦ (port, record h { sockets = put_key ◌==◌ port cb h.sockets })
]

-- UDPLayer::bind; `none` is an empty callback.
unfoldable pub bind : ℕ → Option ℕ → Host → ℕ × Host
bind port none h = (0, h)
bind port (some cb) h =
    if port == 0
    then (let (chosen, h') = allocate_ephemeral_port h in
        if chosen == 0 then (0, h') else bind_to chosen cb h')
    else bind_to port cb h

-- UDPLayer::unbind
unfoldable pub unbind : ℕ → Host → Host
unbind port h = record h { sockets = erase_key ◌==◌ port h.sockets }
