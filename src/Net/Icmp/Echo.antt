-- ===== src/Net/Icmp/Echo.antt =====
-- src/net/icmp.cpp: how an echo request is answered.
use neu_stack.Common.{
  ℕ, ◌+◌, ◌≤◌, ◌<◌, ◌≡◌, ap, ◌∙◌, true, some, List, length, drop, get_or, arith, length-drop,
}
use neu_stack.Seq.{u32}
use neu_stack.Checksum.{checksum_accumulate, checksum_finalize, compute_checksum, verify_checksum}
use neu_stack.Checksum.Fold.{
  word_sum, word_sum-le, AreBytes, AreBytes-drop, checksum_accumulate-word_sum,
  checksum_finalize-folds, checksum_finalize-le,
}
use neu_stack.Net.Ipv4.{Ipv4Packet, parse}
use neu_stack.Net.Ipv4.Reading.{src_addr-parsed, payload-AreBytes}
use neu_stack.Net.Ipv4.RoundTrip.{received}
use neu_stack.Net.Host.{Host, icmp_handler, get_handler, proto_icmp, outgoing, send_only}
use neu_stack.Net.Host.Sending.{IsHost, Sendable, after_send, parse-send}
use neu_stack.Net.Icmp.{
  echo_reply, echo_request, icmp_header, icmp_message, handle_echo_request, handle_icmp,
}
use neu_stack.Net.Receive.{handle, deliver, on_receive}

module _ (type code : ℕ) (rest : List ℕ) where
  pub length-icmp_message : length (icmp_message type code rest) ≡ 4 + length rest
  unfolding icmp_message
  length-icmp_message = omega arith

  header_sum :
      (sum : ℕ)
      → word_sum (icmp_header type code sum rest) ≡ word_sum (icmp_header type code 0 rest) + sum
  unfolding word_sum
  header_sum sum = omega arith

  header_bound :
      type < 256
      → code < 256
      → AreBytes rest
      → length rest ≤ 65535
      → word_sum (icmp_header type code 0 rest) + 65535 < u32
  unfolding word_sum
  header_bound ht hc bytes size = omega (arith, word_sum-le rest bytes)

  -- A message passes the check that a receiver makes.
  pub verify_checksum-icmp_message :
      type < 256
      → code < 256
      → AreBytes rest
      → length rest ≤ 65535
      → verify_checksum (icmp_message type code rest) ≡ true
  unfolding verify_checksum icmp_message compute_checksum
  verify_checksum-icmp_message ht hc bytes size =
      let plain = word_sum (icmp_header type code 0 rest) in
      let bound = header_bound ht hc bytes size in
      let first : checksum_accumulate 0 (icmp_header type code 0 rest) ≡ plain = omega (
        arith,
        bound,
        checksum_accumulate-word_sum 0 (icmp_header type code 0 rest) (omega arith),
      ) in
      let sum = checksum_finalize plain in
      let second : checksum_accumulate 0 (icmp_header type code sum rest) ≡ plain + sum = omega (
        arith,
        bound,
        header_sum sum,
        checksum_finalize-le plain,
        checksum_accumulate-word_sum 0 (icmp_header type code sum rest) (omega arith),
      ) in
      ground (arith, first, second, checksum_finalize-folds plain bound)

-- What the host sends back.
abbrev pub echo_answer : Ipv4Packet → Host → Ipv4Packet
echo_answer pkt h =
    received (outgoing pkt.src_addr proto_icmp (icmp_message echo_reply 0 (drop 4 pkt.payload)) h)

-- An echo request to the host: it fits the MTU, its checksum is right, and ICMP is registered.
pub record IsEchoRequest (pkt : Ipv4Packet) (h : Host) : Type 0 where
  pub handler : get_handler proto_icmp h ≡ some icmp_handler
  pub protocol : pkt.protocol ≡ proto_icmp
  pub dst_addr : pkt.dst_addr ≡ h.local_ip
  pub ttl : 0 < pkt.ttl
  pub type : get_or pkt.payload 0 0 ≡ echo_request
  pub checksum : verify_checksum pkt.payload ≡ true
  pub long : 8 ≤ length pkt.payload
  pub fits_mtu : 20 + length pkt.payload ≤ h.mtu
  pub fits_buffer : 20 + length pkt.payload ≤ 1500

module _ (data' : List ℕ) (pkt : Ipv4Packet) (h : Host) (parsed : parse data' ≡ some pkt) where
  deliver-echo :
      IsEchoRequest pkt h
      → (on_receive data' h
          ≡ send_only pkt.src_addr proto_icmp (icmp_message echo_reply 0 (drop 4 pkt.payload)) h)
  unfolding on_receive deliver handle handle_icmp handle_echo_request
  deliver-echo req = ground (arith, parsed, req)

-- An echo request that is addressed to the host, passes the checks and fits the MTU is answered by
-- exactly one frame: whoever parses it gets, from the host's address to the sender's, an ICMP
-- message of type echo reply with a right checksum, whose identifier, sequence number and data are
-- those of the request. Nothing else of the host changes but the counter of the identifications.
pub on_receive-echo :
    (data' : List ℕ) (pkt : Ipv4Packet) (h : Host)
    → AreBytes data'
    → IsHost h
    → parse data' ≡ some pkt
    → IsEchoRequest pkt h
    → (frame : List ℕ) × (on_receive data' h ≡ after_send frame h)
      × (parse frame ≡ some (echo_answer pkt h))
      × (verify_checksum (echo_answer pkt h).payload ≡ true)
on_receive-echo data' pkt h bytes ok parsed req =
    let rest = drop 4 pkt.payload in
    let rest_bytes = AreBytes-drop 4 pkt.payload (payload-AreBytes data' pkt parsed bytes) in
    let size = length-drop 4 pkt.payload in
    let whole = length-icmp_message echo_reply 0 rest in
    let able : Sendable pkt.src_addr proto_icmp (icmp_message echo_reply 0 rest) h = (
      src_addr-parsed data' pkt parsed bytes,
      omega arith,
      omega (arith, size, whole, req),
      omega (arith, size, whole, req),
    ) in
    let answer = parse-send pkt.src_addr proto_icmp (icmp_message echo_reply 0 rest) h ok able in
    (
      answer.0,
      deliver-echo data' pkt h parsed req ∙ ap (λ r. r.1) answer.1,
      answer.2,
      verify_checksum-icmp_message echo_reply 0 rest (omega arith) (omega arith) rest_bytes
          (omega (arith, size, req)),
    )
