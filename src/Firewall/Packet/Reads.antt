-- ===== src/Firewall/Packet/Reads.antt =====
-- Where parse_packet reads behind the end of its data.
use neu_stack.Common.{
  ℕ, ◌+◌, ◌≤◌, ◌<◌, ◌≡◌, ◌≢◌, ◌↔◌, ◌⊎◌, inl, inr, List, length, get_or, ◌==◌, arith, Bool-cases,
}
use neu_stack.Net.Ipv4.{ip_version, ip_header_length, total_length_of}
use neu_stack.Firewall.Packet.{read_outside, fill_transport, parse_packet}

-- The packets that parse_packet reads behind: a header of version 4 inside the data, a total length
-- below that of the header, TCP or UDP, and data that end before the flags of TCP or the ports of UDP.
pub record IsTruncated (data' : List ℕ) : Type 0 where
  pub version : ip_version data' ≡ 4
  pub header : 20 ≤ ip_header_length data'
  pub inside : ip_header_length data' ≤ length data'
  pub short : total_length_of data' < ip_header_length data'
  pub ends :
      ((get_or data' 9 0 ≡ 6) × (length data' ≤ ip_header_length data' + 13))
      ⊎ ((get_or data' 9 0 ≡ 17) × (length data' ≤ ip_header_length data' + 3))

-- A packet whose length field does not fall short of its header makes parse_packet read inside the
-- data only.
parse_packet-inside :
    (data' : List ℕ) (now_us : ℕ)
    → ip_header_length data' ≤ total_length_of data'
    → parse_packet data' now_us ≢ read_outside
unfolding parse_packet fill_transport
parse_packet-inside data' now_us h = ground (arith, h)

parse_packet-outside :
    (data' : List ℕ) (now_us : ℕ) → IsTruncated data' → parse_packet data' now_us ≡ read_outside
unfolding parse_packet fill_transport
parse_packet-outside data' now_us t = ground (arith, t)

parse_packet-IsTruncated :
    (data' : List ℕ) (now_us : ℕ) → parse_packet data' now_us ≡ read_outside → IsTruncated data'
unfolding parse_packet fill_transport
parse_packet-IsTruncated data' now_us h = elim (Bool-cases (get_or data' 9 0 == 6)) [
  | inl tcp ↦ record {
    version = ground (arith, h);
    header = ground (arith, h);
    inside = ground (arith, h);
    short = ground (arith, h);
    ends = inl (ground (arith, h, tcp), ground (arith, h, tcp));
  }
  | inr other ↦ record {
    version = ground (arith, h);
    header = ground (arith, h);
    inside = ground (arith, h);
    short = ground (arith, h);
    ends = inr (ground (arith, h, other), ground (arith, h, other));
  }
]

-- parse_packet reads behind the end of the data exactly for the IPv4 packets of TCP or UDP that pass
-- its checks of version and header, claim a total length below that of their header, and whose data
-- end before the ports or, for TCP, before the flags.
pub parse_packet-outside_iff :
    (data' : List ℕ) (now_us : ℕ) → (parse_packet data' now_us ≡ read_outside) ↔ IsTruncated data'
parse_packet-outside_iff data' now_us =
    (parse_packet-IsTruncated data' now_us, parse_packet-outside data' now_us)
