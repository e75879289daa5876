-- ===== src/Tests/Resolver.antt =====
-- The theorems on the DNS client, applied to a response with a compressed name and to a client.
use neu_stack.Common.{
  ℕ, ◌+◌, ◌≡◌, ◌≢◌, refl, true, none, some, List, [], ◌∷◌, ◌++◌, ◌==◌, length, arith,
}
use neu_stack.Common.Maps.{find_key}
use neu_stack.Http.Text.{Bytes, codes}
use neu_stack.Dns.{
  copied, DnsResponse, ipv4, name_start, encode_name, name_round, name_loop, name_rounds,
  decode_name, skip_questions, read_answer, read_answers, parse_response, get_ip,
}
use neu_stack.Dns.Walk.{name_rounds_enough}
use neu_stack.Dns.Names.{AreLabels, joined, decode_name-encode_name}
use neu_stack.Dns.Client.{PendingQuery, DnsClient, on_receive}
use neu_stack.Dns.Client.Answers.{IsMap, queries, on_receive-answers, on_receive-again}
use neu_stack.Dns.Client.Retries.{timers, failures, waiting, on_timer-answers}
use neu_stack.Tests.Network.{host}

-- The answer to a query for ab.c, whose name points back to the question.
abbrev reply : Bytes
reply =
    0 ∷ 7 ∷ 0x81 ∷ 0x80 ∷ 0 ∷ 1 ∷ 0 ∷ 1 ∷ 0 ∷ 0 ∷ 0 ∷ 0 ∷ 2 ∷ 97 ∷ 98 ∷ 1 ∷ 99 ∷ 0 ∷ 0 ∷ 1 ∷ 0 ∷ 1
    ∷ 0xC0 ∷ 12 ∷ 0 ∷ 1 ∷ 0 ∷ 1 ∷ 0 ∷ 0 ∷ 0 ∷ 60 ∷ 0 ∷ 4 ∷ 10 ∷ 0 ∷ 0 ∷ 5 ∷ []

abbrev answer : DnsResponse
answer = record {
  id = 7;
  rcode = 0;
  answers =
      record { name = codes "ab.c"; type = 1; cls = 1; ttl = 60; value = ipv4 0x0A000005 } ∷ [];
}

reply_parsed : parse_response 0 reply ≡ some answer
unfolding copied parse_response skip_questions decode_name name_loop name_round read_answers
    read_answer
reply_parsed = refl

answer_ip : get_ip answer.answers ≡ some 0x0A000005
unfolding get_ip
answer_ip = refl

ab_labels : AreLabels (codes "ab" ∷ codes "c" ∷ [])
ab_labels = (
  record { some_bytes = omega arith; few_bytes = omega arith; no_dot = omega arith },
  (record { some_bytes = omega arith; few_bytes = omega arith; no_dot = omega arith }, tt),
)

decode_name-encode_name_example :
    let name = joined true (codes "ab" ∷ codes "c" ∷ []) in
    decode_name 0 (codes "xy" ++ (encode_name name ++ codes "z")) 2
    ≡ (name, 2 + length (encode_name name))
decode_name-encode_name_example =
    decode_name-encode_name 0 (codes "ab") (codes "c" ∷ []) (codes "xy") (codes "z") ab_labels

name_rounds_enough_example :
    name_loop 0 (0xC0 ∷ 0 ∷ []) (name_rounds 0 (0xC0 ∷ 0 ∷ [])) (name_start 0) ≢ none
name_rounds_enough_example = name_rounds_enough 0 (0xC0 ∷ 0 ∷ []) 0

abbrev asked : PendingQuery
asked = record {
  id = 7;
  hostname = codes "ab.c";
  type = 1;
  callback = 3;
  send_time = 1000;
  retries = 0;
}

abbrev client : DnsClient
client = record {
  dns_server = 0x08080808;
  local_port = 12345;
  next_id = 8;
  pending = (7, asked) ∷ [];
  answered = [];
}

find_asked : find_key ◌==◌ 7 client.pending ≡ some asked
unfolding find_key
find_asked = refl

on_receive-answers_example :
    let c' = on_receive 0 client.dns_server 53 reply client in
    (c'.answered ≡ (3, some answer) ∷ [])
    × (find_key ◌==◌ 7 c'.pending ≡ none)
    × ((k : ℕ) → k ≢ 7 → find_key ◌==◌ k c'.pending ≡ find_key ◌==◌ k client.pending)
on_receive-answers_example =
    on_receive-answers 0 reply client answer asked (tt, tt) reply_parsed find_asked

on_receive-again_example :
    let c' = on_receive 0 client.dns_server 53 reply client in
    (on_receive 0 client.dns_server 53 reply c' ≡ c')
    × IsMap c'.pending
    × (queries c' ≡ queries client)
on_receive-again_example = on_receive-again 0 client.dns_server 53 reply client (tt, tt)

abbrev four_times : List ℕ
four_times = 3_000_000_000 ∷ 6_000_000_000 ∷ 9_000_000_000 ∷ 12_000_000_000 ∷ []

on_timer-answers_example :
    let c' = (timers four_times (client, host)).0 in
    (c'.pending ≡ [])
    × (failures 3 c'.answered ≡ waiting 3 client.pending + failures 3 client.answered)
    × (length c'.answered ≡ length client.pending + length client.answered)
on_timer-answers_example =
    on_timer-answers 1000 four_times 3 client host (omega arith) (omega arith) (omega arith)
