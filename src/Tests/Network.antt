-- ===== src/Tests/Network.antt =====
-- The theorems on IPv4, ICMP and UDP, applied to packets between 10.0.0.1 and 10.0.0.2.
use neu_stack.Common.{ℕ, ◌≡◌, ◌≢◌, refl, true, none, some, List, [], ◌∷◌, arith}
use neu_stack.Common.Maps.{find_key}
use neu_stack.Checksum.{checksum_accumulate, fold_carries, verify_checksum}
use neu_stack.Net.Ipv4.{validate, read_packet, parse}
use neu_stack.Net.Host.{Host, icmp_handler, udp_handler}
use neu_stack.Net.Host.Sending.{IsHost, after_send}
use neu_stack.Net.Icmp.Echo.{IsEchoRequest, echo_answer, on_receive-echo}
use neu_stack.Net.Icmp.Quiet.{IsIcmpOther, on_receive-quiet}
use neu_stack.Net.Udp.{sendto, allocate_ephemeral_port, bind, bind_to}
use neu_stack.Net.Udp.Search.{Unbound, IsFirst, allocate_ephemeral_port-IsFirst}
use neu_stack.Net.Udp.RoundTrip.{IsDatagram, after_delivery, on_receive-sendto}
use neu_stack.Net.Receive.{on_receive}

-- 10.0.0.1, with ICMP and UDP, and a callback at port 53.
abbrev pub host : Host
host = record {
  local_ip = 167_772_161;
  mtu = 1500;
  next_id = 65535;
  handlers = (1, icmp_handler) ∷ (17, udp_handler) ∷ [];
  reply_callback = none;
  sockets = (53, 4) ∷ [];
  next_ephemeral_port = 49152;
  sent = [];
  echo_replies = [];
  deliveries = [];
  passed = [];
}

-- 10.0.0.2, with a callback at port 5000.
abbrev peer : Host
peer = record host { local_ip = 167_772_162; sockets = (5000, 9) ∷ [] }

pub host-IsHost : IsHost host
host-IsHost = record { local_ip = omega arith; next_id = omega arith }

-- An echo request of 10.0.0.2 with identifier 1, sequence number 2 and two bytes.
abbrev echo_bytes : List ℕ
echo_bytes =
    69 ∷ 0 ∷ 0 ∷ 30 ∷ 0 ∷ 7 ∷ 64 ∷ 0 ∷ 64 ∷ 1 ∷ 38 ∷ 214 ∷ 10 ∷ 0 ∷ 0 ∷ 2 ∷ 10 ∷ 0 ∷ 0 ∷ 1 ∷ 8 ∷ 0
    ∷ 150 ∷ 154 ∷ 0 ∷ 1 ∷ 0 ∷ 2 ∷ 97 ∷ 98 ∷ []

echo_parsed : parse echo_bytes ≡ some (read_packet echo_bytes)
unfolding parse validate verify_checksum checksum_accumulate fold_carries
echo_parsed = refl

echo-IsEchoRequest : IsEchoRequest (read_packet echo_bytes) host
unfolding read_packet find_key verify_checksum checksum_accumulate fold_carries
echo-IsEchoRequest = record {
  handler = refl;
  protocol = refl;
  dst_addr = refl;
  ttl = omega arith;
  type = refl;
  checksum = refl;
  long = omega arith;
  fits_mtu = omega arith;
  fits_buffer = omega arith;
}

on_receive-echo_example :
    (frame : List ℕ) × (on_receive echo_bytes host ≡ after_send frame host)
    × (parse frame ≡ some (echo_answer (read_packet echo_bytes) host))
    × (verify_checksum (echo_answer (read_packet echo_bytes) host).payload ≡ true)
on_receive-echo_example =
    on_receive-echo echo_bytes (read_packet echo_bytes) host (omega arith) host-IsHost echo_parsed
      echo-IsEchoRequest

-- "Host unreachable" from 10.0.0.2.
abbrev unreachable_bytes : List ℕ
unreachable_bytes =
    69 ∷ 0 ∷ 0 ∷ 28 ∷ 0 ∷ 7 ∷ 64 ∷ 0 ∷ 64 ∷ 1 ∷ 38 ∷ 216 ∷ 10 ∷ 0 ∷ 0 ∷ 2 ∷ 10 ∷ 0 ∷ 0 ∷ 1 ∷ 3 ∷ 1
    ∷ 252 ∷ 254 ∷ 0 ∷ 0 ∷ 0 ∷ 0 ∷ []

unreachable_parsed : parse unreachable_bytes ≡ some (read_packet unreachable_bytes)
unfolding parse validate verify_checksum checksum_accumulate fold_carries
unreachable_parsed = refl

unreachable-IsIcmpOther : IsIcmpOther (read_packet unreachable_bytes)
unfolding read_packet
unreachable-IsIcmpOther = record {
  protocol = refl;
  no_request = omega arith;
  no_reply = omega arith;
}

on_receive-quiet_example : (on_receive unreachable_bytes host).sent ≡ []
on_receive-quiet_example =
    on_receive-quiet unreachable_bytes (read_packet unreachable_bytes) host unreachable_parsed
      unreachable-IsIcmpOther

free_port : Unbound 50_000 host.sockets
unfolding find_key
free_port = refl

allocate_ephemeral_port-IsFirst_example :
    IsFirst host.next_ephemeral_port host.sockets (allocate_ephemeral_port host).0
allocate_ephemeral_port-IsFirst_example =
    allocate_ephemeral_port-IsFirst host 50_000 (omega arith) (omega arith) (omega arith) free_port

mdns_bound : (bind 5353 (some 7) host).0 ≢ 0
unfolding bind bind_to find_key
mdns_bound = omega arith

question-IsDatagram : IsDatagram peer host 167_772_161 53 5000 9 4 (104 ∷ 105 ∷ 33 ∷ [])
unfolding find_key
question-IsDatagram = record {
  sender = record { local_ip = omega arith; next_id = omega arith };
  bound = refl;
  src_port_fits = omega arith;
  dst_port_fits = omega arith;
  dst_ip_fits = omega arith;
  bytes = omega arith;
  fits_mtu = omega arith;
  fits_buffer = omega arith;
  receiver = refl;
  handler = refl;
  callback = refl;
}

on_receive-sendto_example :
    (frame : List ℕ) × (sendto 167_772_161 53 5000 (104 ∷ 105 ∷ 33 ∷ []) peer
      ≡ (some frame, after_send frame peer))
    × (on_receive frame host ≡ after_delivery 4 167_772_162 5000 (104 ∷ 105 ∷ 33 ∷ []) host)
on_receive-sendto_example =
    on_receive-sendto peer host 167_772_161 53 5000 9 4 (104 ∷ 105 ∷ 33 ∷ []) question-IsDatagram

-- The counter has come to the last port.
abbrev wrapping : Host
wrapping = record host { next_ephemeral_port = 65535 }
