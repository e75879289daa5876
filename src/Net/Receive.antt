-- ===== src/Net/Receive.antt =====
-- src/net/ipv4.cpp: IPv4Layer::on_receive, which hands a packet to its handler.
use neu_stack.Common.{ℕ, ◌≡◌, arith, not, ◌&&◌, none, some, List, ◌∷◌, ◌==◌, if◌then◌else◌}
use neu_stack.Net.Ipv4.{Ipv4Packet, parse}
use neu_stack.Net.Host.{
  Host, Handler, icmp_handler, udp_handler, other_handler, get_handler, has_icmp_handler, broadcast,
  should_send_icmp_error,
}
use neu_stack.Net.Icmp.{
  handle_icmp, protocol_unreachable, ttl_exceeded, send_dest_unreachable, send_time_exceeded,
}
use neu_stack.Net.Udp.{handle_udp}

-- The call of a handler.
unfoldable pub handle : Handler → Ipv4Packet → Host → Host
handle icmp_handler pkt h = handle_icmp pkt h
handle udp_handler pkt h = handle_udp pkt h
handle (other_handler n) pkt h = record h { passed = (n, pkt) ∷ h.passed }

-- What becomes of a parsed packet.
unfoldable pub deliver : Ipv4Packet → Host → Host
deliver pkt h =
    if not (pkt.dst_addr == h.local_ip) && not (pkt.dst_addr == broadcast)
    then h
    else if pkt.ttl == 0
    then (if should_send_icmp_error pkt && has_icmp_handler h
        then send_time_exceeded ttl_exceeded pkt h
        else h)
    else elim (get_handler pkt.protocol h) [
      | some handler ↦ handle handler pkt h
      | none ↦
          if should_send_icmp_error pkt && has_icmp_handler h
          then send_dest_unreachable protocol_unreachable pkt h
          else h
    ]

-- IPv4Layer::on_receive
unfoldable pub on_receive : List ℕ → Host → Host
on_receive data' h = elim (parse data') [ none ↦ h | some pkt ↦ deliver pkt h ]

-- A frame that IPv4Parser accepts is delivered.
pub on_receive-parsed :
    (data' : List ℕ) (pkt : Ipv4Packet) (h : Host)
    → parse data' ≡ some pkt
    → on_receive data' h ≡ deliver pkt h
unfolding on_receive
on_receive-parsed data' pkt h parsed = ground (arith, parsed)
