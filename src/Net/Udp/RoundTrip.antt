-- ===== src/Net/Udp/RoundTrip.antt =====
-- src/transport/udp.cpp: from sendto at one host to the callback at another.
use neu_stack.Common.{
  ℕ, ◌+◌, ◌^◌, ◌≤◌, ◌<◌, ◌≡◌, ap, ◌∙◌, true, some, List, ◌∷◌, length, take_all, ◌==◌, arith,
}
use neu_stack.Common.Maps.{find_key}
use neu_stack.Seq.{u32}
use neu_stack.Checksum.{checksum_accumulate, checksum_finalize}
use neu_stack.Checksum.Fold.{
  word_sum, word_sum-le, AreBytes, checksum_accumulate-word_sum, checksum_finalize-completed,
  checksum_finalize-ones, checksum_finalize-le,
}
use neu_stack.Net.Ipv4.{Ipv4Packet}
use neu_stack.Net.Ipv4.RoundTrip.{received}
use neu_stack.Net.Host.{Host, udp_handler, get_handler, proto_udp, outgoing}
use neu_stack.Net.Host.Sending.{IsHost, Sendable, after_send, parse-send}
use neu_stack.Net.Udp.{
  udp_pseudo_header, compute_udp_checksum, verify_udp_checksum, parse_udp, handle_udp, udp_packet,
  sendto_checksum, sendto,
}
use neu_stack.Net.Receive.{handle, deliver, on_receive, on_receive-parsed}

module _ (src_ip dst_ip src_port dst_port : ℕ) (data' : List ℕ) where
  -- The sum over the pseudo header and a datagram with the checksum field at `sum`.
  total : ℕ → ℕ
  total sum =
      word_sum (udp_pseudo_header src_ip dst_ip (length (udp_packet src_port dst_port 0 data')))
      + word_sum (udp_packet src_port dst_port sum data')

  total-add : (sum : ℕ) → total sum ≡ total 0 + sum
  unfolding total word_sum
  total-add sum = omega arith

  module _ (src : src_ip < u32) (dst : dst_ip < u32) (sp : src_port < 2 ^ 16)
      (dp : dst_port < 2 ^ 16) (bytes : AreBytes data') (size : length data' ≤ 60_000) where
    total-bound : total 0 + 65535 < u32
    unfolding total word_sum
    total-bound = omega (arith, src, dst, sp, dp, size, word_sum-le data' bytes)

    compute_udp_checksum-total :
        (sum : ℕ)
        → sum ≤ 65535
        → compute_udp_checksum src_ip dst_ip (udp_packet src_port dst_port sum data')
          ≡ checksum_finalize (total sum)
    unfolding compute_udp_checksum total
    compute_udp_checksum-total sum h =
        let packet = udp_packet src_port dst_port sum data' in
        let pseudo = udp_pseudo_header src_ip dst_ip (length packet) in
        let e : checksum_accumulate (checksum_accumulate 0 pseudo) packet ≡ total sum = omega (
          arith,
          total-bound,
          total-add sum,
          checksum_accumulate-word_sum 0 pseudo (omega arith),
          checksum_accumulate-word_sum (checksum_accumulate 0 pseudo) packet,
        ) in
        ap checksum_finalize e

    -- The checksum of `sendto` is not zero, and a receiver computes zero over the datagram.
    sendto_checksum-verifies :
        let sum = sendto_checksum src_ip dst_ip (udp_packet src_port dst_port 0 data') in
        (0 < sum)
        × (sum ≤ 65535)
        × (compute_udp_checksum src_ip dst_ip (udp_packet src_port dst_port sum data') ≡ 0)
    unfolding sendto_checksum
    sendto_checksum-verifies =
        let own = checksum_finalize (total 0) in
        let le = checksum_finalize-le (total 0) in
        ground (
          arith,
          le,
          compute_udp_checksum-total 0 (omega arith),
          compute_udp_checksum-total own le,
          compute_udp_checksum-total 65535 (omega arith),
          total-add own,
          total-add 65535,
          checksum_finalize-completed (total 0) total-bound,
          checksum_finalize-ones (total 0) total-bound,
        )

-- A datagram from a bound port to another host that fits the MTU, and its receiver: the host of the
-- address, with UDP registered and a callback at the port.
pub record IsDatagram (a b : Host) (dst_ip dst_port src_port cb cb' : ℕ) (data' : List ℕ)
    : Type 0 where
  pub sender : IsHost a
  pub bound : find_key ◌==◌ src_port a.sockets ≡ some cb
  pub src_port_fits : src_port < 2 ^ 16
  pub dst_port_fits : dst_port < 2 ^ 16
  pub dst_ip_fits : dst_ip < u32
  pub bytes : AreBytes data'
  pub fits_mtu : 28 + length data' ≤ a.mtu
  pub fits_buffer : 28 + length data' ≤ 1500
  pub receiver : b.local_ip ≡ dst_ip
  pub handler : get_handler proto_udp b ≡ some udp_handler
  pub callback : find_key ◌==◌ dst_port b.sockets ≡ some cb'

-- The receiver behind the call of its callback.
abbrev pub after_delivery : ℕ → ℕ → ℕ → List ℕ → Host → Host
after_delivery cb src_ip src_port data' b = record b {
  deliveries =
      record { callback = cb; src_ip = src_ip; src_port = src_port; data' = data' } ∷ b.deliveries;
}

module _ (a b : Host) (dst_ip dst_port src_port cb cb' : ℕ) (data' : List ℕ)
    (sends : IsDatagram a b dst_ip dst_port src_port cb cb' data') where
  own_sum : ℕ
  own_sum = sendto_checksum a.local_ip dst_ip (udp_packet src_port dst_port 0 data')

  packet : List ℕ
  packet = udp_packet src_port dst_port own_sum data'

  arrived : Ipv4Packet
  arrived = received (outgoing dst_ip proto_udp packet a)

  own_sum-verifies :
      (0 < own_sum) × (own_sum ≤ 65535) × (compute_udp_checksum a.local_ip dst_ip packet ≡ 0)
  unfolding own_sum packet
  own_sum-verifies =
      sendto_checksum-verifies a.local_ip dst_ip src_port dst_port data' sends.sender.local_ip
        sends.dst_ip_fits sends.src_port_fits sends.dst_port_fits sends.bytes
        (omega (arith, sends.fits_buffer))

  verify-arrived : verify_udp_checksum arrived ≡ true
  unfolding verify_udp_checksum arrived
  verify-arrived = ground (arith, own_sum-verifies)

  parse_udp-arrived :
      parse_udp arrived
      ≡ some record {
        src_addr = a.local_ip;
        dst_addr = dst_ip;
        src_port = src_port;
        dst_port = dst_port;
        length = 8 + length data';
        checksum = own_sum;
        data' = data';
      }
  unfolding parse_udp arrived packet
  parse_udp-arrived =
      ground (
        arith,
        verify-arrived,
        own_sum-verifies,
        sends,
        take_all (length data') data' (omega arith),
      )

  deliver-arrived : deliver arrived b ≡ after_delivery cb' a.local_ip src_port data' b
  unfolding deliver handle handle_udp arrived
  deliver-arrived = ground (arith, parse_udp-arrived, sends)

-- What `sendto` is given at one host it sends in exactly one frame; the host of that address, when
-- it receives the frame, calls the callback of the destination port once with the sender's address,
-- the source port and the same data, and does nothing else.
pub on_receive-sendto :
    (a b : Host) (dst_ip dst_port src_port cb cb' : ℕ) (data' : List ℕ)
    → IsDatagram a b dst_ip dst_port src_port cb cb' data'
    → (frame : List ℕ) × (sendto dst_ip dst_port src_port data' a
        ≡ (some frame, after_send frame a))
      × (on_receive frame b ≡ after_delivery cb' a.local_ip src_port data' b)
on_receive-sendto a b dst_ip dst_port src_port cb cb' data' sends =
    let datagram = packet a b dst_ip dst_port src_port cb cb' data' sends in
    let size : length datagram ≡ 8 + length data' = unfold packet in omega arith in
    let able : Sendable dst_ip proto_udp datagram a = (
      sends.dst_ip_fits,
      omega arith,
      omega (arith, size, sends.fits_mtu),
      omega (arith, size, sends.fits_buffer),
    ) in
    let answer = parse-send dst_ip proto_udp datagram a sends.sender able in
    (
      answer.0,
      unfold sendto own_sum packet in ground (arith, sends.bound, answer.1),
      on_receive-parsed answer.0 (arrived a b dst_ip dst_port src_port cb cb' data' sends) b
            (unfold arrived in answer.2)
          ∙ deliver-arrived a b dst_ip dst_port src_port cb cb' data' sends,
    )
