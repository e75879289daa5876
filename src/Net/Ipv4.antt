-- ===== src/Net/Ipv4.antt =====
-- include/neustack/net/ipv4.hpp and src/net/ipv4.cpp: IPv4 packets and their bytes. The fields of a
-- header in network order are its bytes, highest first.
pub mod Reading
pub mod RoundTrip
use neu_stack.Common.{
  ℕ, suc, ◌+◌, ◌-◌, ◌*◌, ◌/◌, ◌%◌, ◌^◌, bit_and, Bool, true, false, not, ◌&&◌, ◌||◌, Option, none,
  some, List, [], ◌∷◌, ◌++◌, length, get_or, take, drop, ltb, leb, ◌==◌, if◌then◌else◌,
}
use neu_stack.Checksum.{compute_checksum, verify_checksum}
use neu_stack.Segment.{be16, be32, read16, read32}

-- struct IPv4Packet
pub record Ipv4Packet : Type 0 where
  pub version : ℕ
  pub ihl : ℕ
  pub dscp : ℕ
  pub ecn : ℕ
  pub total_length : ℕ
  pub identification : ℕ
  pub dont_fragment : Bool
  pub more_fragments : Bool
  pub fragment_offset : ℕ
  pub ttl : ℕ
  pub protocol : ℕ
  pub checksum : ℕ
  pub src_addr : ℕ
  pub dst_addr : ℕ
  pub payload : List ℕ
  pub raw_data : List ℕ

-- The messages of `validate`.
pub data Ipv4Error : Type 0 where
  packet_too_short not_ipv4 invalid_ihl header_too_long total_too_short total_too_long : Ipv4Error
  checksum_error : Ipv4Error

-- version(), ihl() and header_length() of IPv4Header.
abbrev pub ip_version : List ℕ → ℕ
ip_version data' = get_or data' 0 0 / 16

abbrev pub ip_ihl : List ℕ → ℕ
ip_ihl data' = get_or data' 0 0 % 16

abbrev pub ip_header_length : List ℕ → ℕ
ip_header_length data' = ip_ihl data' * 4

abbrev pub total_length_of : List ℕ → ℕ
total_length_of data' = read16 data' 2

-- IPv4Parser::validate; `none` is the null pointer.
unfoldable pub validate : List ℕ → Option Ipv4Error
validate data' =
    if ltb (length data') 20
    then some packet_too_short
    else if not (ip_version data' == 4)
    then some not_ipv4
    else if ltb (ip_ihl data') 5
    then some invalid_ihl
    else if ltb (length data') (ip_header_length data')
    then some header_too_long
    else if ltb (total_length_of data') (ip_header_length data')
    then some total_too_short
    else if ltb (length data') (total_length_of data')
    then some total_too_long
    else if not (verify_checksum (take (ip_header_length data') data'))
    then some checksum_error
    else none

-- The fields of a header and the payload behind it.
unfoldable pub read_packet : List ℕ → Ipv4Packet
read_packet data' = record {
  version = ip_version data';
  ihl = ip_ihl data';
  dscp = get_or data' 1 0 / 4;
  ecn = get_or data' 1 0 % 4;
  total_length = total_length_of data';
  identification = read16 data' 4;
  dont_fragment = not (read16 data' 6 / 2 ^ 13 / 2 % 2 == 0);
  more_fragments = not (read16 data' 6 / 2 ^ 13 % 2 == 0);
  fragment_offset = read16 data' 6 % 2 ^ 13 * 8 % 2 ^ 16;
  ttl = get_or data' 8 0;
  protocol = get_or data' 9 0;
  checksum = read16 data' 10;
  src_addr = read32 data' 12;
  dst_addr = read32 data' 16;
  payload =
      take (total_length_of data' - ip_header_length data') (drop (ip_header_length data') data');
  raw_data = data';
}

-- IPv4Parser::parse
unfoldable pub parse : List ℕ → Option Ipv4Packet
unfolding read_packet
parse data' = elim (validate data') [ none ↦ some (read_packet data') | some e ↦ none ]

-- class IPv4Builder: the values that its setters leave.
pub record Ipv4Builder : Type 0 where
  pub dscp : ℕ
  pub ecn : ℕ
  pub identification : ℕ
  pub dont_fragment : Bool
  pub ttl : ℕ
  pub protocol : ℕ
  pub src_addr : ℕ
  pub dst_addr : ℕ
  pub payload : List ℕ

-- The header for a total length, with a given checksum.
unfoldable pub ip_header : Ipv4Builder → ℕ → ℕ → List ℕ
ip_header b total_len sum =
    0x45
    ∷ ((b.dscp * 4 + b.ecn % 4) % 256)
    ∷ (be16 (total_len % 2 ^ 16)
        ++ (be16 b.identification
            ++ ((if b.dont_fragment then 0x40 else 0)
                ∷ 0
                ∷ b.ttl
                ∷ b.protocol
                ∷ (be16 sum ++ (be32 b.src_addr ++ be32 b.dst_addr)))))

-- The header with its checksum.
unfoldable pub summed_header : Ipv4Builder → ℕ → List ℕ
summed_header b total_len = ip_header b total_len (compute_checksum (ip_header b total_len 0))

-- IPv4Builder::build: `none` is the result -1, else the bytes that it leaves in the buffer.
unfoldable pub build : Ipv4Builder → ℕ → Option (List ℕ)
unfolding summed_header
build b buffer_len =
    let total_len = 20 + length b.payload in
    if ltb buffer_len total_len
    then none
    else if ltb 65535 total_len
    then none
    else some (summed_header b total_len ++ b.payload)

-- IPv4Builder::build_header_only
unfoldable pub build_header_only : Ipv4Builder → ℕ → ℕ → Option (List ℕ)
unfolding summed_header
build_header_only b buffer_len payload_len =
    let total_len = 20 + payload_len in
    if ltb buffer_len 20
    then none
    else if ltb 65535 total_len
    then none
    else some (summed_header b total_len)
