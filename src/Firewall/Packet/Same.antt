-- ===== src/Firewall/Packet/Same.antt =====
-- src/firewall/firewall_engine.cpp: the two ways to fill an event, one against the other.
use neu_stack.Common.{
  ℕ, ◌+◌, ◌-◌, ◌*◌, ◌/◌, ◌%◌, ◌^◌, ◌≤◌, ◌<◌, ◌≡◌, ◌≢◌, ◌⊎◌, inl, inr, sym, true, false, ◌&&◌, some,
  List, length, drop, get_or, leb, ◌==◌, if◌then◌else◌, arith, length-take, length-drop, Bool-cases,
  get_or-take, get_or-drop, ◌∙◌,
}
use mathlib.Core.Path.{subst}
use neu_stack.Checksum.Fold.{AreBytes, get_or-byte}
use neu_stack.Net.Ipv4.{
  Ipv4Packet, parse, read_packet, ip_version, ip_header_length, total_length_of,
}
use neu_stack.Net.Ipv4.Reading.{read_packet-parsed, lengths-parsed}
use neu_stack.Firewall.{PacketEvent}
use neu_stack.Firewall.Packet.{
  event, transport_len, bare_event, fill_transport, parse_packet, fill_event_from_ipv4,
}

-- A byte of the payload stands behind the header.
payload_byte :
    (data' : List ℕ) (i : ℕ)
    → ip_header_length data' + i < total_length_of data'
    → get_or (read_packet data').payload i 0 ≡ get_or data' (ip_header_length data' + i) 0
unfolding read_packet
payload_byte data' i h =
    let offset = ip_header_length data' in
    get_or-take (total_length_of data' - offset) i 0 (drop offset data') (omega (arith, h))
    ∙ get_or-drop offset i 0 data'

-- The length of the payload behind the transport header.
pub own_payload_len : List ℕ → ℕ
own_payload_len data' =
    let size = total_length_of data' - ip_header_length data' in
    let data_offset = get_or data' (ip_header_length data' + 12) 0 / 16 * 4 in
    if get_or data' 9 0 == 6
    then (if leb 20 size && leb data_offset size then (size - data_offset) % 2 ^ 16 else 0)
    else if get_or data' 9 0 == 17
    then (if leb 8 size then (size - 8) % 2 ^ 16 else 0)
    else if get_or data' 9 0 == 1
    then size % 2 ^ 16
    else 0

-- The event of parse_packet, from the event of fill_event_from_ipv4.
abbrev pub same_event : List ℕ → ℕ → PacketEvent
same_event data' now_us = record (fill_event_from_ipv4 (read_packet data') now_us) {
  payload_len = own_payload_len data';
}

module _ (data' : List ℕ) (now_us : ℕ) (header : 20 ≤ ip_header_length data')
    (total : ip_header_length data' ≤ total_length_of data')
    (inside : total_length_of data' ≤ length data') (version : ip_version data' ≡ 4)
    (small : total_length_of data' < 2 ^ 64) where
  length-payload :
      length (read_packet data').payload ≡ total_length_of data' - ip_header_length data'
  unfolding read_packet
  length-payload =
      let offset = ip_header_length data' in
      omega (
        arith,
        total,
        inside,
        length-take (total_length_of data' - offset) (drop offset data'),
        length-drop offset data',
      )

  no_wrap : transport_len data' ≡ total_length_of data' - ip_header_length data'
  no_wrap = omega (arith, total, small)

  accepted : parse_packet data' now_us ≡ fill_transport data' (bare_event data' now_us)
  unfolding parse_packet
  accepted = ground (arith, header, total, inside, version)

  same-tcp :
      (get_or data' 9 0 == 6) ≡ true
      → 20 ≤ length (read_packet data').payload
      → fill_transport data' (bare_event data' now_us) ≡ event (same_event data' now_us)
  unfolding fill_transport fill_event_from_ipv4 own_payload_len read_packet
  same-tcp tcp whole =
      let room : ip_header_length data' + 20 ≤ total_length_of data' =
        omega (arith, length-payload, whole, total) in
      ground (
        arith,
        tcp,
        whole,
        header,
        total,
        inside,
        version,
        length-payload,
        no_wrap,
        payload_byte data' 0 (omega (arith, room)),
        payload_byte data' 1 (omega (arith, room)),
        payload_byte data' 2 (omega (arith, room)),
        payload_byte data' 3 (omega (arith, room)),
        payload_byte data' 13 (omega (arith, room)),
      )

  same-udp :
      (get_or data' 9 0 == 17) ≡ true
      → 8 ≤ length (read_packet data').payload
      → fill_transport data' (bare_event data' now_us) ≡ event (same_event data' now_us)
  unfolding fill_transport fill_event_from_ipv4 own_payload_len read_packet
  same-udp udp whole =
      let room : ip_header_length data' + 8 ≤ total_length_of data' =
        omega (arith, length-payload, whole, total) in
      ground (
        arith,
        udp,
        whole,
        header,
        total,
        inside,
        version,
        length-payload,
        no_wrap,
        payload_byte data' 0 (omega (arith, room)),
        payload_byte data' 1 (omega (arith, room)),
        payload_byte data' 2 (omega (arith, room)),
        payload_byte data' 3 (omega (arith, room)),
      )

  same-bare :
      (get_or data' 9 0 == 6) ≡ false
      → ((get_or data' 9 0 == 17) ≡ false) ⊎ (length (read_packet data').payload < 8)
      → fill_transport data' (bare_event data' now_us) ≡ event (same_event data' now_us)
  unfolding fill_transport fill_event_from_ipv4 own_payload_len read_packet
  same-bare no_tcp no_udp =
      ground (arith, no_tcp, no_udp, header, total, inside, version, length-payload, no_wrap)

  same-whole :
      ((read_packet data').protocol ≢ 6) ⊎ (20 ≤ length (read_packet data').payload)
      → fill_transport data' (bare_event data' now_us) ≡ event (same_event data' now_us)
  same-whole whole =
      let size = length (read_packet data').payload in
      elim (Bool-cases (get_or data' 9 0 == 6)) [
        | inl tcp ↦ same-tcp tcp (unfold read_packet in ground (arith, tcp, whole))
        | inr no_tcp ↦ elim (Bool-cases ((get_or data' 9 0 == 17) && leb 8 size)) [
          | inl udp ↦ same-udp (ground (arith, udp)) (ground (arith, udp))
          | inr no_udp ↦ same-bare no_tcp (ground (arith, no_udp))
        ]
      ]

-- A packet that IPv4Parser accepts, whose TCP header is whole if it is TCP, gives the same event by
-- parse_packet from its bytes as by fill_event_from_ipv4 from the parsed packet, but for the length
-- of the payload, which the latter counts with the transport header.
pub parse_packet-fill_event_from_ipv4 :
    (data' : List ℕ) (pkt : Ipv4Packet) (now_us : ℕ)
    → AreBytes data'
    → parse data' ≡ some pkt
    → (pkt.protocol ≢ 6) ⊎ (20 ≤ length pkt.payload)
    → parse_packet data' now_us
      ≡ event (record (fill_event_from_ipv4 pkt now_us) { payload_len = own_payload_len data' })
parse_packet-fill_event_from_ipv4 data' pkt now_us bytes parsed whole =
    let (header, total, inside, version) = lengths-parsed data' pkt parsed in
    let e = read_packet-parsed data' pkt parsed in
    let small : total_length_of data' < 2 ^ 64 =
      omega (arith, get_or-byte data' 2 bytes, get_or-byte data' 3 bytes) in
    let whole' : ((read_packet data').protocol ≢ 6) ⊎ (20 ≤ length (read_packet data').payload) =
      subst (λ p. (p.protocol ≢ 6) ⊎ (20 ≤ length p.payload)) (sym e) whole in
    rw (← e) (
      accepted data' now_us header total inside version small
      ∙ same-whole data' now_us header total inside version small whole')
