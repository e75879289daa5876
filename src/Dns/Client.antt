-- ===== src/Dns/Client.antt =====
-- include/neustack/app/dns_client.hpp and src/app/dns_client.cpp: class DNSClient, over the UDP
-- layer of Net/Udp. A callback is a number, and its calls are noted; it does not call the client.
-- Times are in nanoseconds.
pub mod Answers
pub mod Retries
use neu_stack.Common.{
  ℕ, ◌+◌, ◌%◌, ◌^◌, Bool, true, false, not, ◌&&◌, ◌||◌, Option, none, some, List, [], ◌∷◌, ltb, leb,
  ◌==◌, if◌then◌else◌,
}
use neu_stack.Common.Maps.{find_key, put_key, erase_key}
use neu_stack.Http.Text.{Bytes}
use neu_stack.Net.Host.{Host}
use neu_stack.Net.Udp.{sendto, bind}
use neu_stack.Dns.{DnsResponse, build_query, parse_response}

-- struct PendingQuery
pub record PendingQuery : Type 0 where
  pub id : ℕ
  pub hostname : Bytes
  pub type : ℕ
  pub callback : ℕ
  pub send_time : ℕ
  pub retries : ℕ

-- A call of a DNSCallback; `none` is std::nullopt.
abbrev pub Answer : Type 0
Answer = ℕ × Option DnsResponse

-- The members of DNSClient, and the calls of callbacks, the last one first.
pub record DnsClient : Type 0 where
  pub dns_server : ℕ
  pub local_port : ℕ
  pub next_id : ℕ
  pub pending : List (ℕ × PendingQuery)
  pub answered : List Answer

-- The constructor.
abbrev pub new_client : ℕ → DnsClient
new_client server = record {
  dns_server = server;
  local_port = 0;
  next_id = 1;
  pending = [];
  answered = [];
}

abbrev pub set_server : ℕ → DnsClient → DnsClient
set_server ip c = record c { dns_server = ip }

-- DNSClient::init, with what random_device gives and the client's callback; the result of bind is
-- not looked at.
unfoldable pub init : ℕ → ℕ → DnsClient × Host → Bool × DnsClient × Host
init rd callback (c, h) =
    let port = 10000 + rd % 50000 in
    let bound = bind port (some callback) h in (true, record c { local_port = port }, bound.1)

-- Building a query and sending it.
unfoldable pub send_query : ℕ → ℕ → PendingQuery → Host → Host
send_query server port q h = (sendto server 53 port (build_query q.id q.hostname q.type) h).1

-- DNSClient::resolve_async
unfoldable pub resolve_async : ℕ → Bytes → ℕ → ℕ → DnsClient × Host → DnsClient × Host
resolve_async now hostname callback type (c, h) =
    let query : PendingQuery = record {
      id = c.next_id;
      hostname = hostname;
      type = type;
      callback = callback;
      send_time = now;
      retries = 0;
    } in
    (
      record c {
        next_id = (c.next_id + 1) % 2 ^ 16;
        pending = put_key ◌==◌ c.next_id query c.pending;
      },
      send_query c.dns_server c.local_port query h,
    )

-- What a response does.
unfoldable pub on_response : DnsResponse → DnsClient → DnsClient
on_response response c = elim (find_key ◌==◌ response.id c.pending) [
  | none ↦ c
  | some q ↦ record c {
    answered = (q.callback, some response) ∷ c.answered;
    pending = erase_key ◌==◌ response.id c.pending;
  }
]

-- DNSClient::on_receive
unfoldable pub on_receive : ℕ → ℕ → ℕ → Bytes → DnsClient → DnsClient
unfolding on_response
on_receive outside src_ip src_port data' c =
    if not (src_ip == c.dns_server) || not (src_port == 53)
    then c
    else elim (parse_response outside data') [ none ↦ c | some response ↦ on_response response c ]

-- `elapsed > std::chrono::seconds(2)`
abbrev pub is_overdue : ℕ → PendingQuery → Bool
is_overdue now q = ltb (q.send_time + 2_000_000_000) now

-- The loop of on_timer: the entries that stay, the calls of callbacks, and the UDP layer.
unfoldable pub check_queries :
    ℕ
    → ℕ
    → ℕ
    → List (ℕ × PendingQuery)
    → List Answer × Host
    → List (ℕ × PendingQuery) × List Answer × Host
check_queries now server port [] (answered, h) = ([], answered, h)
check_queries now server port ((id, q) ∷ rest) (answered, h) =
    let again : PendingQuery = record q { retries = q.retries + 1; send_time = now } in
    let failed = check_queries now server port rest ((q.callback, none) ∷ answered, h) in
    let resent = check_queries now server port rest (answered, send_query server port again h) in
    let waiting = check_queries now server port rest (answered, h) in
    if is_overdue now q
    then (if leb 3 q.retries then failed else ((id, again) ∷ resent.0, resent.1, resent.2))
    else ((id, q) ∷ waiting.0, waiting.1, waiting.2)

-- DNSClient::on_timer
unfoldable pub on_timer : ℕ → DnsClient × Host → DnsClient × Host
on_timer now (c, h) =
    let (kept, answered, h') =
      check_queries now c.dns_server c.local_port c.pending (c.answered, h) in
    (record c { pending = kept; answered = answered }, h')
