-- ===== src/Tests/Wire.antt =====
-- The theorems on sequence numbers, checksums and segments, applied.
use neu_stack.Common.{◌≡◌, refl, some, [], ◌∷◌, arith}
use neu_stack.Segment.{TcpBuilder, build, header_then, fill_checksum, parse}
use neu_stack.Segment.RoundTrip.{Fits, received, parse-fill_checksum-build}

abbrev pub greeting : TcpBuilder
greeting = record {
  src_port = 80;
  dst_port = 5000;
  seq = 1000;
  ack = 500;
  flags = 24;
  window = 65535;
  payload = 104 ∷ 105 ∷ 33 ∷ [];
}

pub greeting-Fits : Fits greeting
greeting-Fits = record {
  src_port = omega arith;
  dst_port = omega arith;
  seq = omega arith;
  ack = omega arith;
  flags = omega arith;
  window = omega arith;
  payload = omega arith;
  length = omega arith;
}

parse-fill_checksum-build_example :
    parse 16_777_343 33_554_559
      (fill_checksum (header_then greeting 0 greeting.payload) 16_777_343 33_554_559)
    ≡ some (received greeting 16_777_343 33_554_559)
unfolding build
parse-fill_checksum-build_example =
    parse-fill_checksum-build greeting 16_777_343 33_554_559 100
      (header_then greeting 0 greeting.payload) greeting-Fits (omega arith) (omega arith) refl
