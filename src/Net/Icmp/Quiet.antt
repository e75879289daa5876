-- ===== src/Net/Icmp/Quiet.antt =====
-- src/net/icmp.cpp: which messages are not answered.
use neu_stack.Common.{ℕ, ◌≡◌, ◌≢◌, refl, false, some, List, get_or, arith, inl, inr, Option-cases}
use neu_stack.Net.Ipv4.{Ipv4Packet, parse}
use neu_stack.Net.Host.{
  Host, Handler, icmp_handler, udp_handler, other_handler, get_handler, proto_icmp,
}
use neu_stack.Net.Icmp.{
  echo_request, echo_reply, may_answer, port_unreachable, protocol_unreachable, ttl_exceeded,
  handle_icmp, send_dest_unreachable, send_time_exceeded,
}
use neu_stack.Net.Udp.{handle_udp}
use neu_stack.Net.Receive.{handle, deliver, on_receive}

-- An ICMP message that is neither an echo request nor an echo reply.
pub record IsIcmpOther (pkt : Ipv4Packet) : Type 0 where
  pub protocol : pkt.protocol ≡ proto_icmp
  pub no_request : get_or pkt.payload 0 0 ≢ echo_request
  pub no_reply : get_or pkt.payload 0 0 ≢ echo_reply

module _ (pkt : Ipv4Packet) (h : Host) (other : IsIcmpOther pkt) where
  may_answer-other : may_answer pkt ≡ false
  unfolding may_answer
  may_answer-other = ground (arith, other)

  send_dest_unreachable-other : (code : ℕ) → send_dest_unreachable code pkt h ≡ h
  unfolding send_dest_unreachable
  send_dest_unreachable-other code = ground (arith, may_answer-other)

  send_time_exceeded-other : (code : ℕ) → send_time_exceeded code pkt h ≡ h
  unfolding send_time_exceeded
  send_time_exceeded-other code = ground (arith, may_answer-other)

  handle_icmp-other : handle_icmp pkt h ≡ h
  unfolding handle_icmp
  handle_icmp-other = ground (arith, other)

  handle_udp-other : (handle_udp pkt h).sent ≡ h.sent
  unfolding handle_udp
  handle_udp-other = ground (arith, send_dest_unreachable-other port_unreachable)

  handle-other : (handler : Handler) → (handle handler pkt h).sent ≡ h.sent
  unfolding handle
  handle-other icmp_handler = rw handle_icmp-other refl
  handle-other udp_handler = handle_udp-other
  handle-other (other_handler n) = refl

  deliver-other : (deliver pkt h).sent ≡ h.sent
  unfolding deliver
  deliver-other = elim (Option-cases (get_handler pkt.protocol h)) [
    | inl e ↦ ground (
      arith,
      e,
      send_dest_unreachable-other protocol_unreachable,
      send_time_exceeded-other ttl_exceeded,
    )
    | inr (handler, e) ↦
        ground (arith, e, handle-other handler, send_time_exceeded-other ttl_exceeded)
  ]

-- Whatever handlers are registered, a received ICMP message that is neither an echo request nor an
-- echo reply makes the host send no frame: not when its checksum is wrong, not when its TTL has run
-- out, and not when ICMP has no handler. So two hosts never answer each other's errors.
pub on_receive-quiet :
    (data' : List ℕ) (pkt : Ipv4Packet) (h : Host)
    → parse data' ≡ some pkt
    → IsIcmpOther pkt
    → (on_receive data' h).sent ≡ h.sent
unfolding on_receive
on_receive-quiet data' pkt h parsed other = ground (arith, parsed, deliver-other pkt h other)
