-- ===== src/Firewall/Packet.antt =====
-- src/firewall/firewall_engine.cpp: parse_packet and fill_event_from_ipv4, which fill a PacketEvent
-- from the bytes of a packet and from a packet that IPv4Parser has read. An address in network
-- order is the word that a little-endian host loads.
pub mod Reads
pub mod Same
use neu_stack.Common.{
  ℕ, ◌+◌, ◌-◌, ◌*◌, ◌/◌, ◌%◌, ◌^◌, Bool, true, false, not, ◌&&◌, ◌||◌, List, length, get_or, ltb,
  leb, ◌==◌, if◌then◌else◌,
}
use neu_stack.Segment.{read16, read32}
use neu_stack.Net.Ipv4.{Ipv4Packet, ip_version, ip_header_length, total_length_of}
use neu_stack.Firewall.{PacketEvent}

-- What parse_packet does: it returns false, it reads behind the end of the data, or it returns
-- true.
pub data Parsed : Type 0 where
  rejected read_outside : Parsed
  event : PacketEvent → Parsed

-- htonl and ntohl on a little-endian host.
abbrev pub swap32 : ℕ → ℕ
swap32 x = x % 256 * 2 ^ 24 + x / 256 % 256 * 2 ^ 16 + x / 2 ^ 16 % 256 * 256 + x / 2 ^ 24 % 256

-- `total_len - ip_header_len`, of size_t.
abbrev pub transport_len : List ℕ → ℕ
transport_len data' = (total_length_of data' + 2 ^ 64 - ip_header_length data') % 2 ^ 64

-- The event with the default values.
abbrev pub bare_event : List ℕ → ℕ → PacketEvent
bare_event data' now_us = record {
  src_ip = swap32 (read32 data' 12);
  dst_ip = swap32 (read32 data' 16);
  src_port = 0;
  dst_port = 0;
  protocol = get_or data' 9 0;
  tcp_flags = 0;
  total_len = total_length_of data';
  payload_len = 0;
  timestamp_us = now_us;
}

-- The transport layer's part.
unfoldable pub fill_transport : List ℕ → PacketEvent → Parsed
fill_transport data' evt =
    let offset = ip_header_length data' in
    let size = transport_len data' in
    let data_offset = get_or data' (offset + 12) 0 / 16 * 4 in
    if (evt.protocol == 6) && leb 20 size
    then (if leb (length data') (offset + 13)
        then read_outside
        else event (record evt {
          src_port = read16 data' offset;
          dst_port = read16 data' (offset + 2);
          tcp_flags = get_or data' (offset + 13) 0;
          payload_len = (if leb data_offset size then (size - data_offset) % 2 ^ 16 else 0);
        }))
    else if (evt.protocol == 17) && leb 8 size
    then (if leb (length data') (offset + 3)
        then read_outside
        else event (record evt {
          src_port = read16 data' offset;
          dst_port = read16 data' (offset + 2);
          payload_len = (size - 8) % 2 ^ 16;
        }))
    else if evt.protocol == 1
    then event (record evt { payload_len = size % 2 ^ 16 })
    else event evt

-- parse_packet
unfoldable pub parse_packet : List ℕ → ℕ → Parsed
parse_packet data' now_us =
    if ltb (length data') 20
    then rejected
    else if not (ip_version data' == 4)
    then rejected
    else if ltb (ip_header_length data') 20 || ltb (length data') (ip_header_length data')
    then rejected
    else if ltb (length data') (total_length_of data')
    then rejected
    else fill_transport data' (bare_event data' now_us)

-- fill_event_from_ipv4
unfoldable pub fill_event_from_ipv4 : Ipv4Packet → ℕ → PacketEvent
fill_event_from_ipv4 pkt now_us =
    let size = length pkt.payload in
    let has_ports = leb 8 size && ((pkt.protocol == 6) || (pkt.protocol == 17)) in
    let has_flags = leb 8 size && ((pkt.protocol == 6) && leb 14 size) in
    record {
      src_ip = swap32 pkt.src_addr;
      dst_ip = swap32 pkt.dst_addr;
      src_port = (if has_ports then read16 pkt.payload 0 else 0);
      dst_port = (if has_ports then read16 pkt.payload 2 else 0);
      protocol = pkt.protocol;
      tcp_flags = (if has_flags then get_or pkt.payload 13 0 else 0);
      total_len = pkt.total_length;
      payload_len = size % 2 ^ 16;
      timestamp_us = now_us;
    }
