-- ===== src/Net/Ipv4/Reading.antt =====
-- What a packet is that IPv4Parser has accepted.
use neu_stack.Common.{
  ℕ, ◌-◌, ◌≤◌, ◌<◌, ◌≡◌, inl, inr, none, some, List, drop, length, arith, Option-cases,
}
use neu_stack.Seq.{u32}
use neu_stack.Checksum.Fold.{AreBytes, AreBytes-take, AreBytes-drop, get_or-byte}
use neu_stack.Net.Ipv4.{
  Ipv4Packet, validate, read_packet, parse, ip_version, ip_header_length, total_length_of,
}

module _ (data' : List ℕ) (pkt : Ipv4Packet) (parsed : parse data' ≡ some pkt) where
  pub validate-parsed : validate data' ≡ none
  unfolding parse
  validate-parsed = elim (Option-cases (validate data')) [
    | inl e ↦ e
    | inr (e, h) ↦ absurd (ground (arith, parsed, h))
  ]

  pub read_packet-parsed : read_packet data' ≡ pkt
  unfolding parse
  read_packet-parsed = ground (arith, parsed, validate-parsed)

  pub src_addr-parsed : AreBytes data' → pkt.src_addr < u32
  unfolding read_packet
  src_addr-parsed bytes = rw (← read_packet-parsed) (
      omega (
        arith,
        get_or-byte data' 12 bytes,
        get_or-byte data' 13 bytes,
        get_or-byte data' 14 bytes,
        get_or-byte data' 15 bytes,
      ))

  pub payload-AreBytes : AreBytes data' → AreBytes pkt.payload
  unfolding read_packet
  payload-AreBytes bytes = rw (← read_packet-parsed) (
      AreBytes-take (total_length_of data' - ip_header_length data')
        (drop (ip_header_length data') data') (AreBytes-drop (ip_header_length data') data' bytes))

  -- The lengths in the header are those of the data.
  pub lengths-parsed :
      (20 ≤ ip_header_length data')
      × (ip_header_length data' ≤ total_length_of data')
      × (total_length_of data' ≤ length data')
      × (ip_version data' ≡ 4)
  unfolding validate
  lengths-parsed = ground (arith, validate-parsed)
