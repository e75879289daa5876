-- ===== src/Net/Host.antt =====
-- include/neustack/net/ipv4.hpp and src/net/ipv4.cpp: the state of IPv4Layer and of the handlers
-- that are registered with it, and what it sends. The device is where `sent` goes: the frames
-- handed to it.
pub mod Sending
use neu_stack.Common.{
  ℕ, ◌+◌, ◌%◌, ◌/◌, ◌^◌, Bool, true, false, not, ◌&&◌, ◌||◌, Option, none, some, List, [], ◌∷◌,
  ◌++◌, length, ltb, leb, ◌==◌, if◌then◌else◌,
}
use neu_stack.Common.Maps.{find_key, put_key}
use neu_stack.Net.Ipv4.{Ipv4Packet, Ipv4Builder, build}

-- An IProtocolHandler: ICMPHandler, UDPLayer, or another one by its number.
pub data Handler : Type 0 where
  icmp_handler udp_handler : Handler
  other_handler : ℕ → Handler

-- A call of an EchoReplyCallback, without its last argument, which is always 0.
pub record EchoReply : Type 0 where
  pub callback : ℕ
  pub src_ip : ℕ
  pub identifier : ℕ
  pub sequence : ℕ

-- A call of a UDPReceiveCallback.
pub record UdpDelivery : Type 0 where
  pub callback : ℕ
  pub src_ip : ℕ
  pub src_port : ℕ
  pub data' : List ℕ

-- The members of IPv4Layer, ICMPHandler and UDPLayer, and the calls they have made: the frames sent
-- and the callbacks called, the last one first.
pub record Host : Type 0 where
  pub local_ip : ℕ
  pub mtu : ℕ
  pub next_id : ℕ
  pub handlers : List (ℕ × Handler)
  pub reply_callback : Option ℕ
  pub sockets : List (ℕ × ℕ)
  pub next_ephemeral_port : ℕ
  pub sent : List (List ℕ)
  pub echo_replies : List EchoReply
  pub deliveries : List UdpDelivery
  pub passed : List (ℕ × Ipv4Packet)

-- IPProtocol
abbrev pub proto_icmp : ℕ
proto_icmp = 1

abbrev pub proto_udp : ℕ
proto_udp = 17

-- IPv4Layer::register_handler; `none` is the null pointer.
unfoldable pub register_handler : ℕ → Option Handler → Host → Host
register_handler protocol none h = h
register_handler protocol (some handler) h = record h {
  handlers = put_key ◌==◌ protocol handler h.handlers;
}

-- IPv4Layer::get_handler
abbrev pub get_handler : ℕ → Host → Option Handler
get_handler protocol h = find_key ◌==◌ protocol h.handlers

-- The dynamic cast of a handler to an ICMPHandler.
abbrev pub is_icmp_handler : Option Handler → Bool
is_icmp_handler (some icmp_handler) = true
is_icmp_handler h = false

-- get_icmp_handler: is there one?
abbrev pub has_icmp_handler : Host → Bool
has_icmp_handler h = is_icmp_handler (get_handler proto_icmp h)

-- The multicast addresses, 224.0.0.0 to 239.255.255.255.
abbrev pub is_multicast : ℕ → Bool
is_multicast addr =
    let first_octet = addr / 2 ^ 24 % 256 in leb 224 first_octet && leb first_octet 239

abbrev pub broadcast : ℕ
broadcast = 0xFFFFFFFF

unfoldable pub should_send_icmp_error : Ipv4Packet → Bool
should_send_icmp_error pkt =
    if pkt.src_addr == 0
    then false
    else if pkt.src_addr == broadcast
    then false
    else if is_multicast pkt.src_addr
    then false
    else if pkt.dst_addr == broadcast
    then false
    else if is_multicast pkt.dst_addr
    then false
    else not (ltb 0 pkt.fragment_offset)

-- What `send` sets in its builder.
abbrev pub outgoing : ℕ → ℕ → List ℕ → Host → Ipv4Builder
outgoing dst protocol payload h = record {
  dscp = 0;
  ecn = 0;
  identification = h.next_id;
  dont_fragment = true;
  ttl = 64;
  protocol = protocol;
  src_addr = h.local_ip;
  dst_addr = dst;
  payload = payload;
}

-- IPv4Layer::send: the frame handed to the device; `none` is the result -1.
unfoldable pub send : ℕ → ℕ → List ℕ → Host → Option (List ℕ) × Host
send dst protocol payload h =
    if ltb h.mtu (20 + length payload)
    then (none, h)
    else (let counted = record h { next_id = (h.next_id + 1) % 2 ^ 16 } in
        elim (build (outgoing dst protocol payload h) 1500) [
          | none ↦ (none, counted)
          | some frame ↦ (some frame, record counted { sent = frame ∷ h.sent })
        ])

-- A send whose result is not used.
abbrev pub send_only : ℕ → ℕ → List ℕ → Host → Host
send_only dst protocol payload h = let (frame, h') = send dst protocol payload h in h'

-- set_local_ip and set_mtu
pub set_local_ip : ℕ → Host → Host
set_local_ip ip h = record h { local_ip = ip }

pub set_mtu : ℕ → Host → Host
set_mtu mtu h = record h { mtu = mtu }
