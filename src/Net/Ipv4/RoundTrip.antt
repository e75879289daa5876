-- ===== src/Net/Ipv4/RoundTrip.antt =====
-- src/net/ipv4.cpp: IPv4Builder and IPv4Parser, one against the other.
use neu_stack.Common.{
  ℕ, ◌+◌, ◌-◌, ◌^◌, ◌≤◌, ◌<◌, ◌≡◌, refl, ap, true, false, none, some, List, ◌++◌, length, take_all,
  arith,
}
use neu_stack.Seq.{u32}
use neu_stack.Checksum.{
  checksum_accumulate, checksum_finalize, compute_checksum, verify_checksum, fold,
}
use neu_stack.Checksum.Fold.{
  word_sum, checksum_accumulate-word_sum, checksum_finalize-folds, checksum_finalize-le,
}
use neu_stack.Net.Ipv4.{
  Ipv4Packet, Ipv4Builder, ip_header, summed_header, build, validate, read_packet, parse,
}

-- Every field fits its place in the header, and the packet fits a 16-bit length.
pub record Fits (b : Ipv4Builder) : Type 0 where
  pub dscp : b.dscp < 64
  pub ecn : b.ecn < 4
  pub identification : b.identification < 2 ^ 16
  pub ttl : b.ttl < 256
  pub protocol : b.protocol < 256
  pub src_addr : b.src_addr < u32
  pub dst_addr : b.dst_addr < u32
  pub size : 20 + length b.payload ≤ 65535

-- What a receiver reads.
abbrev pub received : Ipv4Builder → Ipv4Packet
received b = record {
  version = 4;
  ihl = 5;
  dscp = b.dscp;
  ecn = b.ecn;
  total_length = 20 + length b.payload;
  identification = b.identification;
  dont_fragment = b.dont_fragment;
  more_fragments = false;
  fragment_offset = 0;
  ttl = b.ttl;
  protocol = b.protocol;
  checksum = compute_checksum (ip_header b (20 + length b.payload) 0);
  src_addr = b.src_addr;
  dst_addr = b.dst_addr;
  payload = b.payload;
  raw_data = summed_header b (20 + length b.payload) ++ b.payload;
}

module _ (b : Ipv4Builder) (fits : Fits b) where
  total : ℕ
  total = 20 + length b.payload

  -- The sum of the header's words grows by the checksum put into it.
  header_sum :
      (sum : ℕ)
      → sum ≤ 65535
      → word_sum (ip_header b total sum) ≡ word_sum (ip_header b total 0) + sum
  unfolding ip_header word_sum total
  header_sum sum h = omega (arith, fits, h)

  header_bound : word_sum (ip_header b total 0) ≤ 655350
  unfolding ip_header word_sum total
  header_bound = ground (arith, fits)

  own_checksum : ℕ
  own_checksum = compute_checksum (ip_header b total 0)

  own_checksum-value : own_checksum ≡ checksum_finalize (word_sum (ip_header b total 0))
  unfolding own_checksum compute_checksum
  own_checksum-value =
      let e : checksum_accumulate 0 (ip_header b total 0) ≡ word_sum (ip_header b total 0) =
        omega (
          arith,
          checksum_accumulate-word_sum 0 (ip_header b total 0) (omega arith),
          header_bound,
        ) in
      ap checksum_finalize e

  own_checksum-bound : own_checksum ≤ 65535
  own_checksum-bound = rw own_checksum-value (checksum_finalize-le (word_sum (ip_header b total 0)))

  header_folds : fold (checksum_accumulate 0 (ip_header b total own_checksum)) ≡ 2 ^ 16 - 1
  header_folds =
      let plain = word_sum (ip_header b total 0) in
      let bound = header_bound in
      let e : checksum_accumulate 0 (ip_header b total own_checksum)
          ≡ plain + checksum_finalize plain =
        omega (
          arith,
          checksum_accumulate-word_sum 0 (ip_header b total own_checksum) (omega arith),
          header_sum own_checksum own_checksum-bound,
          own_checksum-bound,
          own_checksum-value,
        ) in
      rw e (checksum_finalize-folds plain (omega arith))

  verify_checksum-header : verify_checksum (ip_header b total own_checksum) ≡ true
  unfolding verify_checksum
  verify_checksum-header = rw header_folds refl

  validate-header : validate (ip_header b total own_checksum ++ b.payload) ≡ none
  unfolding validate ip_header total
  validate-header = ground (arith, fits.size, verify_checksum-header)

  read_packet-header : read_packet (ip_header b total own_checksum ++ b.payload) ≡ received b
  unfolding read_packet ip_header total own_checksum summed_header
  read_packet-header =
      ground (arith, fits, own_checksum-bound, take_all (length b.payload) b.payload (omega arith))

  parse-header : parse (ip_header b total own_checksum ++ b.payload) ≡ some (received b)
  unfolding parse
  parse-header = ground (arith, validate-header, read_packet-header)

-- A packet that IPv4Builder builds, in a buffer that holds it, passes every check of IPv4Parser and
-- is read back with the builder's fields, its checksum and its payload, if every field fits its
-- place.
pub parse-build :
    (b : Ipv4Builder) (buffer_len : ℕ) (bytes : List ℕ)
    → Fits b
    → build b buffer_len ≡ some bytes
    → parse bytes ≡ some (received b)
parse-build b buffer_len bytes fits h = rw (← built) (parse-header b fits)
  where
    built : ip_header b (total b fits) (own_checksum b fits) ++ b.payload ≡ bytes
    built = unfold build summed_header total own_checksum in ground (arith, h)
