-- ===== src/Segment.antt =====
-- include/neustack/transport/tcp.hpp, tcp_segment.hpp, tcp_builder.hpp,
-- src/transport/tcp_builder.cpp and src/transport/tcp_segment.cpp: TCP segments and their bytes. A
-- network-order field is the list of its bytes, highest first.
pub mod RoundTrip
use neu_stack.Common.{
  ℕ, suc, ◌+◌, ◌-◌, ◌*◌, ◌/◌, ◌%◌, ◌^◌, bit_and, Bool, true, not, ◌||◌, Option, none, some, List,
  [], ◌∷◌, ◌++◌, length, get_or, take, drop, ltb, ◌==◌, if◌then◌else◌,
}
use neu_stack.Seq.{add32}
use neu_stack.Checksum.{checksum_accumulate, checksum_finalize}

-- namespace TCPFlags
abbrev pub fin_flag : ℕ
fin_flag = 0x01

abbrev pub syn_flag : ℕ
syn_flag = 0x02

abbrev pub rst_flag : ℕ
rst_flag = 0x04

abbrev pub psh_flag : ℕ
psh_flag = 0x08

abbrev pub ack_flag : ℕ
ack_flag = 0x10

-- `flags & flag` as a condition.
abbrev pub has_flag : ℕ → ℕ → Bool
has_flag flags flag = not (bit_and flags flag == 0)

-- struct TCPSegment; `data` with `data_length` is the list `payload`.
pub record TcpSegment : Type 0 where
  pub src_addr : ℕ
  pub dst_addr : ℕ
  pub src_port : ℕ
  pub dst_port : ℕ
  pub seq_num : ℕ
  pub ack_num : ℕ
  pub data_offset : ℕ
  pub flags : ℕ
  pub window : ℕ
  pub checksum : ℕ
  pub urgent_ptr : ℕ
  pub payload : List ℕ

unfoldable pub is_syn : TcpSegment → Bool
is_syn seg = has_flag seg.flags syn_flag

unfoldable pub is_ack : TcpSegment → Bool
is_ack seg = has_flag seg.flags ack_flag

unfoldable pub is_fin : TcpSegment → Bool
is_fin seg = has_flag seg.flags fin_flag

unfoldable pub is_rst : TcpSegment → Bool
is_rst seg = has_flag seg.flags rst_flag

abbrev pub data_length : TcpSegment → ℕ
data_length seg = length seg.payload

-- SYN and FIN take one sequence number each.
unfoldable pub seg_len : TcpSegment → ℕ
seg_len seg =
    let len = data_length seg % 2 ^ 32 in
    let with_syn = (if is_syn seg then add32 len 1 else len) in
    if is_fin seg then add32 with_syn 1 else with_syn

abbrev pub seq_end : TcpSegment → ℕ
seq_end seg = add32 seg.seq_num (seg_len seg)

-- class TCPBuilder: the values that its setters leave.
pub record TcpBuilder : Type 0 where
  pub src_port : ℕ
  pub dst_port : ℕ
  pub seq : ℕ
  pub ack : ℕ
  pub flags : ℕ
  pub window : ℕ
  pub payload : List ℕ

-- htons and htonl.
abbrev pub be16 : ℕ → List ℕ
be16 x = (x / 256) ∷ (x % 256) ∷ []

abbrev pub be32 : ℕ → List ℕ
be32 x = (x / 2 ^ 24) ∷ (x / 2 ^ 16 % 256) ∷ (x / 256 % 256) ∷ (x % 256) ∷ []

-- ntohs and ntohl of the field at an offset.
abbrev pub read16 : List ℕ → ℕ → ℕ
read16 bytes i = get_or bytes i 0 * 256 + get_or bytes (suc i) 0

abbrev pub read32 : List ℕ → ℕ → ℕ
read32 bytes i =
    get_or bytes i 0 * 2 ^ 24
    + get_or bytes (suc i) 0 * 2 ^ 16
    + get_or bytes (suc (suc i)) 0 * 256
    + get_or bytes (suc (suc (suc i))) 0

abbrev pub header_len : ℕ
header_len = 20

-- The header's fields in front of `rest`, with a given checksum.
abbrev pub header_then : TcpBuilder → ℕ → List ℕ → List ℕ
header_then b sum rest =
    be16 b.src_port
    ++ (be16 b.dst_port
        ++ (be32 b.seq
            ++ (be32 b.ack ++ (0x50 ∷ b.flags ∷ (be16 b.window ++ (be16 sum ++ (0 ∷ 0 ∷ rest)))))))

-- `none` is the result -1; else the bytes that the call leaves in the buffer.
unfoldable pub build : TcpBuilder → ℕ → Option (List ℕ)
build b buffer_len =
    if ltb buffer_len (header_len + length b.payload)
    then none
    else some (header_then b 0 b.payload)

-- The header alone; the payload stands behind it already.
unfoldable pub build_header_only : TcpBuilder → ℕ → Option (List ℕ)
build_header_only b buffer_len =
    if ltb buffer_len header_len then none else some (header_then b 0 [])

-- TCPPseudoHeader
abbrev pub pseudo_header : ℕ → ℕ → ℕ → List ℕ
pseudo_header src_ip dst_ip tcp_len =
    be32 src_ip ++ (be32 dst_ip ++ (0 ∷ 6 ∷ be16 (tcp_len % 2 ^ 16)))

-- The sum over the pseudo header and the segment.
unfoldable pub segment_sum : ℕ → ℕ → List ℕ → ℕ
segment_sum src_ip dst_ip tcp_data =
    checksum_accumulate (checksum_accumulate 0 (pseudo_header src_ip dst_ip (length tcp_data)))
      tcp_data

-- `hdr->checksum = sum`: the bytes 16 and 17.
abbrev pub put_checksum : List ℕ → ℕ → List ℕ
put_checksum tcp_data sum = take 16 tcp_data ++ (be16 sum ++ drop 18 tcp_data)

unfoldable pub fill_checksum : List ℕ → ℕ → ℕ → List ℕ
fill_checksum tcp_data src_ip dst_ip =
    if ltb 65535 (length tcp_data)
    then tcp_data
    else (let cleared = put_checksum tcp_data 0 in
        put_checksum cleared (checksum_finalize (segment_sum src_ip dst_ip cleared)))

unfoldable pub compute_tcp_checksum : ℕ → ℕ → List ℕ → ℕ
compute_tcp_checksum src_ip dst_ip tcp_data =
    if ltb 65535 (length tcp_data)
    then 0
    else checksum_finalize (segment_sum src_ip dst_ip tcp_data)

-- TCPParser::verify_checksum, over the addresses and the payload of the IPv4 packet.
unfoldable pub verify_checksum : ℕ → ℕ → List ℕ → Bool
verify_checksum src_addr dst_addr bytes = compute_tcp_checksum src_addr dst_addr bytes == 0

-- header_length(): a uint8_t, in bytes.
abbrev pub header_length : List ℕ → ℕ
header_length bytes = get_or bytes 12 0 / 16 * 4 % 256

parsed : ℕ → ℕ → List ℕ → TcpSegment
parsed src_addr dst_addr bytes = record {
  src_addr = src_addr;
  dst_addr = dst_addr;
  src_port = read16 bytes 0;
  dst_port = read16 bytes 2;
  seq_num = read32 bytes 4;
  ack_num = read32 bytes 8;
  data_offset = header_length bytes;
  flags = get_or bytes 13 0;
  window = read16 bytes 14;
  checksum = read16 bytes 16;
  urgent_ptr = read16 bytes 18;
  payload = drop (header_length bytes) bytes;
}

-- TCPParser::parse of an IPv4 packet with these addresses and this payload.
unfoldable pub parse : ℕ → ℕ → List ℕ → Option TcpSegment
unfolding parsed
parse src_addr dst_addr bytes =
    if ltb (length bytes) header_len
    then none
    else if ltb (header_length bytes) header_len || ltb (length bytes) (header_length bytes)
    then none
    else if not (verify_checksum src_addr dst_addr bytes)
    then none
    else some (parsed src_addr dst_addr bytes)
