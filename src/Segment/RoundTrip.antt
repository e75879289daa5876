-- ===== src/Segment/RoundTrip.antt =====
-- src/transport/tcp_builder.cpp and tcp_segment.cpp: TCPBuilder and TCPParser, one against the
-- other.
use neu_stack.Common.{ℕ, ◌+◌, ◌^◌, ◌≤◌, ◌<◌, ◌≡◌, some, List, length, arith}
use neu_stack.Seq.{u32}
use neu_stack.Checksum.{checksum_accumulate, checksum_finalize}
use neu_stack.Checksum.Fold.{
  word_sum, word_sum-le, AreBytes, checksum_accumulate-word_sum, checksum_finalize-completed,
  checksum_finalize-le,
}
use neu_stack.Segment.{
  TcpBuilder, TcpSegment, build, header_then, header_len, pseudo_header, segment_sum, fill_checksum,
  compute_tcp_checksum, verify_checksum, parse, parsed,
}

-- Every field fits its place in the header, and the segment fits a 16-bit length.
pub record Fits (b : TcpBuilder) : Type 0 where
  pub src_port : b.src_port < 2 ^ 16
  pub dst_port : b.dst_port < 2 ^ 16
  pub seq : b.seq < 2 ^ 32
  pub ack : b.ack < 2 ^ 32
  pub flags : b.flags < 256
  pub window : b.window < 2 ^ 16
  pub payload : AreBytes b.payload
  pub length : header_len + length b.payload ≤ 65535

module _ (b : TcpBuilder) (src_ip dst_ip : ℕ) where
  -- The sum of the words, pseudo header included, with the checksum field at `sum`.
  total : ℕ → ℕ
  total sum =
      word_sum (pseudo_header src_ip dst_ip (length (header_then b 0 b.payload)))
      + word_sum (header_then b sum b.payload)

  -- The checksum that completes the segment.
  pub own_checksum : ℕ
  own_checksum = checksum_finalize (total 0)

  -- What a receiver reads.
  abbrev pub received : TcpSegment
  received = record {
    src_addr = src_ip;
    dst_addr = dst_ip;
    src_port = b.src_port;
    dst_port = b.dst_port;
    seq_num = b.seq;
    ack_num = b.ack;
    data_offset = header_len;
    flags = b.flags;
    window = b.window;
    checksum = own_checksum;
    urgent_ptr = 0;
    payload = b.payload;
  }

module _ (b : TcpBuilder) (src_ip dst_ip : ℕ) (fits : Fits b) (src : src_ip < u32)
    (dst : dst_ip < u32) where
  total-bound : total b src_ip dst_ip 0 + 65535 < u32
  unfolding total word_sum
  total-bound = omega (arith, fits, word_sum-le b.payload fits.payload)

  total-add : (sum : ℕ) → total b src_ip dst_ip sum ≡ total b src_ip dst_ip 0 + sum
  unfolding total word_sum
  total-add sum = omega arith

  segment_sum-total :
      (sum : ℕ)
      → sum ≤ 65535
      → segment_sum src_ip dst_ip (header_then b sum b.payload) ≡ total b src_ip dst_ip sum
  unfolding segment_sum total
  segment_sum-total sum h =
      let pseudo = pseudo_header src_ip dst_ip (length (header_then b sum b.payload)) in
      omega (
        arith,
        total-bound,
        total-add sum,
        checksum_accumulate-word_sum 0 pseudo (omega arith),
        checksum_accumulate-word_sum (checksum_accumulate 0 pseudo) (header_then b sum b.payload),
      )

  own_checksum-le : own_checksum b src_ip dst_ip ≤ 65535
  unfolding own_checksum
  own_checksum-le = checksum_finalize-le (total b src_ip dst_ip 0)

  -- `fill_checksum` puts it into the header that `build` has left.
  fill_checksum-header :
      fill_checksum (header_then b 0 b.payload) src_ip dst_ip
      ≡ header_then b (own_checksum b src_ip dst_ip) b.payload
  unfolding fill_checksum own_checksum
  fill_checksum-header = ground (arith, fits.length, segment_sum-total 0)

  -- A receiver computes the checksum zero over it.
  compute_tcp_checksum-header :
      compute_tcp_checksum src_ip dst_ip (header_then b (own_checksum b src_ip dst_ip) b.payload)
      ≡ 0
  unfolding compute_tcp_checksum
  compute_tcp_checksum-header =
      let sum = own_checksum b src_ip dst_ip in
      ground (arith, fits.length, segment_sum-total sum own_checksum-le, total-add sum, zero_again)
    where
      zero_again : checksum_finalize (total b src_ip dst_ip 0 + own_checksum b src_ip dst_ip) ≡ 0
      zero_again =
          unfold own_checksum in checksum_finalize-completed (total b src_ip dst_ip 0) total-bound

  parsed-header :
      parsed src_ip dst_ip (header_then b (own_checksum b src_ip dst_ip) b.payload)
      ≡ received b src_ip dst_ip
  unfolding parsed
  parsed-header = ground (arith, fits, own_checksum-le)

  parse-header :
      parse src_ip dst_ip (header_then b (own_checksum b src_ip dst_ip) b.payload)
      ≡ some (received b src_ip dst_ip)
  unfolding parse verify_checksum
  parse-header = ground (arith, compute_tcp_checksum-header, parsed-header)

-- A segment that is built and completed with its checksum is parsed to the builder's fields, from
-- the first byte of the header to the last of the payload, if every field fits its place and the
-- segment is not longer than 65535 bytes.
pub parse-fill_checksum-build :
    (b : TcpBuilder) (src_ip dst_ip buffer_len : ℕ) (bytes : List ℕ)
    → Fits b
    → src_ip < u32
    → dst_ip < u32
    → build b buffer_len ≡ some bytes
    → parse src_ip dst_ip (fill_checksum bytes src_ip dst_ip) ≡ some (received b src_ip dst_ip)
parse-fill_checksum-build b src_ip dst_ip buffer_len bytes fits src dst h =
    rw (← built, fill_checksum-header b src_ip dst_ip fits src dst)
      (parse-header b src_ip dst_ip fits src dst)
  where
    built : header_then b 0 b.payload ≡ bytes
    built = unfold build in ground arith
