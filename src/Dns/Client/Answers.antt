-- ===== src/Dns/Client/Answers.antt =====
-- src/app/dns_client.cpp: on_receive, and what a response does to the pending queries.
use neu_stack.Common.{
  ℕ, ◌+◌, ◌≡◌, ◌≢◌, refl, ap, sym, ◌∙◌, ◌⊎◌, inl, inr, true, false, not, ◌||◌, none, some, List, [],
  ◌∷◌, ◌==◌, length, arith, Bool-cases, Option-cases,
}
use neu_stack.Common.Maps.{find_key, erase_key, find_key-erase_key-other}
use neu_stack.Http.Text.{Bytes}
use neu_stack.Dns.{DnsResponse, parse_response}
use neu_stack.Dns.Client.{PendingQuery, DnsClient, on_response, on_receive}

-- No entry has the key.
abbrev pub Absent : ℕ → List (ℕ × PendingQuery) → Type 0
Absent k [] = Unit {0}
Absent k ((j, q) ∷ rest) = (j ≢ k) × Absent k rest

-- The keys differ, as those of a map.
abbrev pub IsMap : List (ℕ × PendingQuery) → Type 0
IsMap [] = Unit {0}
IsMap ((k, q) ∷ rest) = Absent k rest × IsMap rest

Absent-find_key :
    (k : ℕ) (map : List (ℕ × PendingQuery)) → Absent k map → find_key ◌==◌ k map ≡ none
unfolding find_key
Absent-find_key k [] h = refl
Absent-find_key k ((j, q) ∷ rest) h = ground (arith, h, Absent-find_key k rest h.1)

-- Erasing.
erase_key-find_key :
    (k : ℕ) (map : List (ℕ × PendingQuery))
    → IsMap map
    → find_key ◌==◌ k (erase_key ◌==◌ k map) ≡ none
unfolding find_key erase_key
erase_key-find_key k [] h = refl
erase_key-find_key k ((j, q) ∷ rest) h = elim (Bool-cases (j == k)) [
  | inl e ↦
      let same : j ≡ k = ground (arith, e) in rw e (Absent-find_key k rest (rw (← same) (h.0)))
  | inr e ↦ rw (e, erase_key, e, find_key) (erase_key-find_key k rest h.1)
]

erase_key-Absent :
    (j k : ℕ) (map : List (ℕ × PendingQuery)) → Absent j map → Absent j (erase_key ◌==◌ k map)
unfolding erase_key
erase_key-Absent j k [] h = h
erase_key-Absent j k ((i, q) ∷ rest) h = elim (Bool-cases (i == k)) [
  | inl e ↦ rw e (h.1)
  | inr e ↦ rw e (h.0, erase_key-Absent j k rest h.1)
]

erase_key-IsMap : (k : ℕ) (map : List (ℕ × PendingQuery)) → IsMap map → IsMap (erase_key ◌==◌ k map)
unfolding erase_key
erase_key-IsMap k [] h = h
erase_key-IsMap k ((i, q) ∷ rest) h = elim (Bool-cases (i == k)) [
  | inl e ↦ rw e (h.1)
  | inr e ↦ rw e (erase_key-Absent i k rest h.0, erase_key-IsMap k rest h.1)
]

erase_key-length :
    (k : ℕ) (map : List (ℕ × PendingQuery)) (q : PendingQuery)
    → find_key ◌==◌ k map ≡ some q
    → length (erase_key ◌==◌ k map) + 1 ≡ length map
unfolding find_key erase_key
erase_key-length k [] q h = absurd (ground (arith, h))
erase_key-length k ((j, w) ∷ rest) q h = ground (arith, h, erase_key-length k rest q)

-- What a response does, when its query is pending.
response_found :
    (r : DnsResponse) (c : DnsClient) (q : PendingQuery)
    → find_key ◌==◌ r.id c.pending ≡ some q
    → on_response r c ≡ record c {
      answered = (q.callback, some r) ∷ c.answered;
      pending = erase_key ◌==◌ r.id c.pending;
    }
unfolding on_response
response_found r c q e = rw (e, on_response)

response_lost :
    (r : DnsResponse) (c : DnsClient) → find_key ◌==◌ r.id c.pending ≡ none → on_response r c ≡ c
unfolding on_response
response_lost r c e = rw (e, on_response)

on_response-server : (r : DnsResponse) (c : DnsClient) → (on_response r c).dns_server ≡ c.dns_server
unfolding on_response
on_response-server r c = ground arith

on_response-again :
    (r : DnsResponse) (c : DnsClient)
    → IsMap c.pending
    → on_response r (on_response r c) ≡ on_response r c
on_response-again r c h = elim (Option-cases (find_key ◌==◌ r.id c.pending)) [
  | inl e ↦ ap (on_response r) (response_lost r c e)
  | inr (q, e) ↦ rw (response_found r c q e) (
      response_lost r
        (record c {
          answered = (q.callback, some r) ∷ c.answered;
          pending = erase_key ◌==◌ r.id c.pending;
        })
        (erase_key-find_key r.id c.pending h))
]

-- The three ways through on_receive.
accepted :
    (outside src_ip src_port : ℕ) (data' : Bytes) (c : DnsClient)
    → (on_receive outside src_ip src_port data' c ≡ c)
      ⊎ ((r : DnsResponse) × (parse_response outside data' ≡ some r)
          × (src_ip ≡ c.dns_server)
          × (src_port ≡ 53))
unfolding on_receive
accepted outside src_ip src_port data' c =
    elim (Bool-cases (not (src_ip == c.dns_server) || not (src_port == 53))) [
      | inl e ↦ inl (rw e)
      | inr e ↦ elim (Option-cases (parse_response outside data')) [
        | inl p ↦ inl (rw (e, p))
        | inr (r, p) ↦ inr (r, p, ground (arith, e), ground (arith, e))
      ]
    ]

receive_accepted :
    (outside src_ip src_port : ℕ) (data' : Bytes) (c : DnsClient) (r : DnsResponse)
    → parse_response outside data' ≡ some r
    → src_ip ≡ c.dns_server
    → src_port ≡ 53
    → on_receive outside src_ip src_port data' c ≡ on_response r c
unfolding on_receive
receive_accepted outside src_ip src_port data' c r p h k =
    let ip : (src_ip == c.dns_server) ≡ true = ground (arith, h) in
    let port : (src_port == 53) ≡ true = ground (arith, k) in rw (ip, port, p)

on_response-IsMap :
    (r : DnsResponse) (c : DnsClient) → IsMap c.pending → IsMap (on_response r c).pending
on_response-IsMap r c h = elim (Option-cases (find_key ◌==◌ r.id c.pending)) [
  | inl e ↦ rw (response_lost r c e) h
  | inr (q, e) ↦ rw (response_found r c q e) (erase_key-IsMap r.id c.pending h)
]

-- The queries that are pending and the calls of callbacks.
abbrev pub queries : DnsClient → ℕ
queries c = length c.pending + length c.answered

on_response-queries : (r : DnsResponse) (c : DnsClient) → queries (on_response r c) ≡ queries c
on_response-queries r c = elim (Option-cases (find_key ◌==◌ r.id c.pending)) [
  | inl e ↦ ap queries (response_lost r c e)
  | inr (q, e) ↦
      ap queries (response_found r c q e) ∙ omega (arith, erase_key-length r.id c.pending q e)
]

-- A datagram from the server's port 53 that parses as a response, whose query is pending, calls the
-- query's callback with the response and takes the query off; the other queries stay.
pub on_receive-answers :
    (outside : ℕ) (data' : Bytes) (c : DnsClient) (r : DnsResponse) (q : PendingQuery)
    → IsMap c.pending
    → parse_response outside data' ≡ some r
    → find_key ◌==◌ r.id c.pending ≡ some q
    → let c' = on_receive outside c.dns_server 53 data' c in
      (c'.answered ≡ (q.callback, some r) ∷ c.answered)
      × (find_key ◌==◌ r.id c'.pending ≡ none)
      × ((k : ℕ) → k ≢ r.id → find_key ◌==◌ k c'.pending ≡ find_key ◌==◌ k c.pending)
on_receive-answers outside data' c r q h p e =
    let step : on_receive outside c.dns_server 53 data' c ≡ record c {
      answered = (q.callback, some r) ∷ c.answered;
      pending = erase_key ◌==◌ r.id c.pending;
    } =
      receive_accepted outside c.dns_server 53 data' c r p refl refl ∙ response_found r c q e in
    let others : (k : ℕ) → k ≢ r.id → (j : ℕ) → (j == r.id) ≡ true → (j == k) ≡ false =
      λ k apart j same. ground (arith, apart, same) in
    rw step (
      refl,
      erase_key-find_key r.id c.pending h,
      λ k apart. find_key-erase_key-other ◌==◌ r.id k c.pending (others k apart),
    )

-- Whatever comes, from wherever: the same datagram once more changes nothing, the pending queries
-- keep different identifiers, and a query leaves them exactly when a callback is called.
pub on_receive-again :
    (outside src_ip src_port : ℕ) (data' : Bytes) (c : DnsClient)
    → IsMap c.pending
    → let c' = on_receive outside src_ip src_port data' c in
      (on_receive outside src_ip src_port data' c' ≡ c')
      × IsMap c'.pending
      × (queries c' ≡ queries c)
on_receive-again outside src_ip src_port data' c h =
    elim (accepted outside src_ip src_port data' c) [
      | inl e ↦ rw e (e, h, refl)
      | inr (r, p, ip, port) ↦
          let step = receive_accepted outside src_ip src_port data' c r p ip port in
          let server : src_ip ≡ (on_response r c).dns_server = ip ∙ sym (on_response-server r c) in
          let again =
            receive_accepted outside src_ip src_port data' (on_response r c) r p server port in
          rw step
            (again ∙ on_response-again r c h, on_response-IsMap r c h, on_response-queries r c)
    ]
