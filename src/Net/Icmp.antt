-- ===== src/Net/Icmp.antt =====
-- include/neustack/net/icmp.hpp and src/net/icmp.cpp: ICMP messages and the replies to them.
pub mod Quiet
pub mod Echo
use neu_stack.Common.{
  ℕ, ◌+◌, ◌-◌, ◌*◌, ◌/◌, ◌%◌, ◌^◌, min, Bool, true, false, not, ◌&&◌, Option, none, some, List, [],
  ◌∷◌, ◌++◌, length, take, drop, get_or, ltb, ◌==◌, if◌then◌else◌,
}
use neu_stack.Checksum.{compute_checksum, verify_checksum}
use neu_stack.Segment.{be16, read16}
use neu_stack.Net.Ipv4.{Ipv4Packet}
use neu_stack.Net.Host.{Host, EchoReply, proto_icmp, send_only}

-- ICMPType
abbrev pub echo_reply : ℕ
echo_reply = 0

abbrev pub dest_unreachable : ℕ
dest_unreachable = 3

abbrev pub echo_request : ℕ
echo_request = 8

abbrev pub time_exceeded : ℕ
time_exceeded = 11

-- The codes of ICMPUnreachCode and ICMPTimeExCode that are sent.
abbrev pub protocol_unreachable : ℕ
protocol_unreachable = 2

abbrev pub port_unreachable : ℕ
port_unreachable = 3

abbrev pub ttl_exceeded : ℕ
ttl_exceeded = 0

-- ICMPHeader in front of a rest: the type, the code and the checksum.
abbrev pub icmp_header : ℕ → ℕ → ℕ → List ℕ → List ℕ
icmp_header type code sum rest = type ∷ code ∷ (be16 sum ++ rest)

-- A message with its checksum.
unfoldable pub icmp_message : ℕ → ℕ → List ℕ → List ℕ
icmp_message type code rest =
    icmp_header type code (compute_checksum (icmp_header type code 0 rest)) rest

-- handle_echo_request: what stands behind the header goes back.
unfoldable pub handle_echo_request : Ipv4Packet → Host → Host
handle_echo_request pkt h =
    if ltb (length pkt.payload) 8
    then h
    else if ltb 1500 (length pkt.payload)
    then h
    else send_only pkt.src_addr proto_icmp (icmp_message echo_reply 0 (drop 4 pkt.payload)) h

-- handle_echo_reply
unfoldable pub handle_echo_reply : Ipv4Packet → Host → Host
handle_echo_reply pkt h = if ltb (length pkt.payload) 8 then h else elim h.reply_callback [
  | none ↦ h
  | some cb ↦ record h {
    echo_replies =
        record {
          callback = cb;
          src_ip = pkt.src_addr;
          identifier = read16 pkt.payload 4;
          sequence = read16 pkt.payload 6;
        }
        ∷ h.echo_replies;
  }
]

-- ICMPHandler::handle
unfoldable pub handle_icmp : Ipv4Packet → Host → Host
handle_icmp pkt h =
    let type = get_or pkt.payload 0 0 in
    if ltb (length pkt.payload) 4
    then h
    else if not (verify_checksum pkt.payload)
    then h
    else if type == echo_request
    then handle_echo_request pkt h
    else if type == echo_reply
    then handle_echo_reply pkt h
    else h

-- send_error; the field `extra` is 0 in both calls.
unfoldable pub send_error : ℕ → ℕ → ℕ → Ipv4Packet → Host → Host
send_error type code extra pkt h =
    let header_len = pkt.ihl * 4 in
    let data_len = min (length pkt.payload) 8 in
    let copied = take header_len pkt.raw_data ++ take data_len pkt.payload in
    let icmp_len = 4 + 4 + (header_len + data_len) in
    if ltb 256 icmp_len
    then h
    else send_only pkt.src_addr proto_icmp (icmp_message type code (0 ∷ 0 ∷ 0 ∷ 0 ∷ copied)) h

-- No error is sent for an ICMP message that is too short or neither an echo request nor a reply.
unfoldable pub may_answer : Ipv4Packet → Bool
may_answer pkt =
    let type = get_or pkt.payload 0 0 in
    if pkt.protocol == proto_icmp
    then (if ltb (length pkt.payload) 4
        then false
        else not (not (type == echo_request) && not (type == echo_reply)))
    else true

unfoldable pub send_dest_unreachable : ℕ → Ipv4Packet → Host → Host
send_dest_unreachable code pkt h =
    if may_answer pkt then send_error dest_unreachable code 0 pkt h else h

unfoldable pub send_time_exceeded : ℕ → Ipv4Packet → Host → Host
send_time_exceeded code pkt h = if may_answer pkt then send_error time_exceeded code 0 pkt h else h

-- ICMPHandler::send_echo_request
unfoldable pub send_echo_request : ℕ → ℕ → ℕ → List ℕ → Host → Host
send_echo_request dst_ip identifier sequence data' h =
    if ltb 1500 (4 + 4 + length data')
    then h
    else send_only dst_ip proto_icmp
        (icmp_message echo_request 0 (be16 identifier ++ (be16 sequence ++ data'))) h
