-- ===== src/Dns/Client/Retries.antt =====
-- src/app/dns_client.cpp: on_timer, and what becomes of a query that gets no response.
use neu_stack.Common.{
  ℕ, ◌+◌, ◌≤◌, ◌<◌, ◌≡◌, refl, ap, ◌∙◌, inl, inr, true, false, none, some, List, ◌==◌,
  if◌then◌else◌, [], ◌∷◌, leb, length, arith, Bool-cases,
}
use neu_stack.Net.Host.{Host}
use neu_stack.Dns.Client.{
  PendingQuery, Answer, DnsClient, send_query, check_queries, on_timer, is_overdue,
}
use neu_stack.Dns.Client.Answers.{queries}

-- Every query has been sent again `n` times or more, and for the last time at `time` or before.
abbrev pub SentBy : ℕ → ℕ → List (ℕ × PendingQuery) → Type 0
SentBy n time [] = Unit {0}
SentBy n time ((id, q) ∷ rest) = (n ≤ q.retries) × (q.send_time ≤ time) × SentBy n time rest

-- Retries are within their limit.
abbrev pub AreFew : List (ℕ × PendingQuery) → Type 0
AreFew [] = Unit {0}
AreFew ((id, q) ∷ rest) = (q.retries ≤ 3) × AreFew rest

-- How often a callback has been called without a response, and how many queries wait for it.
abbrev pub failures : ℕ → List Answer → ℕ
failures cb [] = 0
failures cb ((k, none) ∷ rest) = (if k == cb then 1 else 0) + failures cb rest
failures cb ((k, some response) ∷ rest) = failures cb rest

abbrev pub waiting : ℕ → List (ℕ × PendingQuery) → ℕ
waiting cb [] = 0
waiting cb ((id, q) ∷ rest) = (if q.callback == cb then 1 else 0) + waiting cb rest

module _ (now server port : ℕ) where
  abbrev checked :
      List (ℕ × PendingQuery) → List Answer × Host → List (ℕ × PendingQuery) × List Answer × Host
  checked pending s = check_queries now server port pending s

  -- The three things that happen to a query.
  check_failed :
      (id : ℕ) (q : PendingQuery) (rest : List (ℕ × PendingQuery)) (answered : List Answer)
      (h : Host)
      → is_overdue now q ≡ true
      → leb 3 q.retries ≡ true
      → checked ((id, q) ∷ rest) (answered, h) ≡ checked rest ((q.callback, none) ∷ answered, h)
  unfolding check_queries
  check_failed id q rest answered h e r = rw (e, check_queries, r)

  check_resent :
      (id : ℕ) (q : PendingQuery) (rest : List (ℕ × PendingQuery)) (answered : List Answer)
      (h : Host)
      → is_overdue now q ≡ true
      → leb 3 q.retries ≡ false
      → let again : PendingQuery = record q { retries = q.retries + 1; send_time = now } in
        let later = checked rest (answered, send_query server port again h) in
        checked ((id, q) ∷ rest) (answered, h) ≡ ((id, again) ∷ later.0, later.1, later.2)
  unfolding check_queries
  check_resent id q rest answered h e r = rw (e, check_queries, r)

  check_waiting :
      (id : ℕ) (q : PendingQuery) (rest : List (ℕ × PendingQuery)) (answered : List Answer)
      (h : Host)
      → is_overdue now q ≡ false
      → let later = checked rest (answered, h) in
        checked ((id, q) ∷ rest) (answered, h) ≡ ((id, q) ∷ later.0, later.1, later.2)
  unfolding check_queries
  check_waiting id q rest answered h e = rw (e, check_queries)

  -- A query leaves the pending ones exactly when its callback is called.
  check-queries :
      (pending : List (ℕ × PendingQuery)) (answered : List Answer) (h : Host)
      → let after = checked pending (answered, h) in
        length after.0 + length after.1 ≡ length pending + length answered
  unfolding check_queries
  check-queries [] answered h = refl
  check-queries ((id, q) ∷ rest) answered h = elim (Bool-cases (is_overdue now q)) [
    | inl e ↦ elim (Bool-cases (leb 3 q.retries)) [
      | inl r ↦
          rw (check_failed id q rest answered h e r)
            (omega (arith, check-queries rest ((q.callback, none) ∷ answered) h))
      | inr r ↦
          let again : PendingQuery = record q { retries = q.retries + 1; send_time = now } in
          rw (check_resent id q rest answered h e r)
            (omega (arith, check-queries rest answered (send_query server port again h)))
    ]
    | inr e ↦
        rw (check_waiting id q rest answered h e) (omega (arith, check-queries rest answered h))
  ]

  -- A query stops to wait for its callback exactly when that callback is called without a response.
  check-failures :
      (cb : ℕ) (pending : List (ℕ × PendingQuery)) (answered : List Answer) (h : Host)
      → let after = checked pending (answered, h) in
        waiting cb after.0 + failures cb after.1 ≡ waiting cb pending + failures cb answered
  unfolding check_queries
  check-failures cb [] answered h = refl
  check-failures cb ((id, q) ∷ rest) answered h = elim (Bool-cases (is_overdue now q)) [
    | inl e ↦ elim (Bool-cases (leb 3 q.retries)) [
      | inl r ↦
          rw (check_failed id q rest answered h e r)
            (omega (arith, check-failures cb rest ((q.callback, none) ∷ answered) h))
      | inr r ↦
          let again : PendingQuery = record q { retries = q.retries + 1; send_time = now } in
          rw (check_resent id q rest answered h e r)
            (omega (arith, check-failures cb rest answered (send_query server port again h)))
    ]
    | inr e ↦
        rw (check_waiting id q rest answered h e) (omega (arith, check-failures cb rest answered h))
  ]

  -- A round of the timer, two seconds after every query was sent, sends each one again or gives it
  -- up.
  check-SentBy :
      (n time : ℕ) (pending : List (ℕ × PendingQuery)) (answered : List Answer) (h : Host)
      → time + 2_000_000_000 < now
      → SentBy n time pending
      → SentBy (n + 1) now (checked pending (answered, h)).0
        × (3 ≤ n → (checked pending (answered, h)).0 ≡ [])
  unfolding check_queries
  check-SentBy n time [] answered h late sent = (tt, λ k. refl)
  check-SentBy n time ((id, q) ∷ rest) answered h late sent =
      let e : is_overdue now q ≡ true = ground (arith, late, sent.1) in
      elim (Bool-cases (leb 3 q.retries)) [
        | inl r ↦
            rw (check_failed id q rest answered h e r)
              (check-SentBy n time rest ((q.callback, none) ∷ answered) h late sent.2)
        | inr r ↦
            let again : PendingQuery = record q { retries = q.retries + 1; send_time = now } in
            let ih =
              check-SentBy n time rest answered (send_query server port again h) late sent.2 in
            rw (check_resent id q rest answered h e r) (
              (omega (arith, sent.0), omega arith, ih.0),
              λ k. absurd (ground (arith, r, k, sent.0)),
            )
      ]

  check-AreFew :
      (pending : List (ℕ × PendingQuery)) (answered : List Answer) (h : Host)
      → AreFew pending
      → AreFew (checked pending (answered, h)).0
  unfolding check_queries
  check-AreFew [] answered h few = tt
  check-AreFew ((id, q) ∷ rest) answered h few = elim (Bool-cases (is_overdue now q)) [
    | inl e ↦ elim (Bool-cases (leb 3 q.retries)) [
      | inl r ↦
          rw (check_failed id q rest answered h e r)
            (check-AreFew rest ((q.callback, none) ∷ answered) h few.1)
      | inr r ↦
          let again : PendingQuery = record q { retries = q.retries + 1; send_time = now } in
          rw (check_resent id q rest answered h e r)
            (ground (arith, r), check-AreFew rest answered (send_query server port again h) few.1)
    ]
    | inr e ↦ rw (check_waiting id q rest answered h e) (few.0, check-AreFew rest answered h few.1)
  ]

-- on_timer, by its loop.
on_timer_lem :
    (now : ℕ) (c : DnsClient) (h : Host)
    → let after = check_queries now c.dns_server c.local_port c.pending (c.answered, h) in
      on_timer now (c, h) ≡ (record c { pending = after.0; answered = after.1 }, after.2)
unfolding on_timer
on_timer_lem now c h = refl

-- The timer keeps every query that it does not answer, and no query is sent again more than three
-- times.
pub on_timer-AreFew :
    (now : ℕ) (c : DnsClient) (h : Host)
    → AreFew c.pending
    → AreFew (on_timer now (c, h)).0.pending × (queries (on_timer now (c, h)).0 ≡ queries c)
unfolding on_timer
on_timer-AreFew now c h few = (
  check-AreFew now c.dns_server c.local_port c.pending c.answered h few,
  check-queries now c.dns_server c.local_port c.pending c.answered h,
)

-- Calls of on_timer at some times.
abbrev pub timers : List ℕ → DnsClient × Host → DnsClient × Host
timers [] s = s
timers (now ∷ later) s = timers later (on_timer now s)

-- Each time is more than two seconds after the one before.
abbrev pub Apart : ℕ → List ℕ → Type 0
Apart time [] = Unit {0}
Apart time (now ∷ later) = (time + 2_000_000_000 < now) × Apart now later

-- The calls of the timer keep the number of calls that each callback has had or waits for.
timers-failures :
    (cb : ℕ) (times : List ℕ) (c : DnsClient) (h : Host)
    → let c' = (timers times (c, h)).0 in
      waiting cb c'.pending + failures cb c'.answered
      ≡ waiting cb c.pending + failures cb c.answered
unfolding on_timer
timers-failures cb [] c h = refl
timers-failures cb (now ∷ later) c h =
    let s = on_timer now (c, h) in
    timers-failures cb later s.0 s.1
    ∙ check-failures now c.dns_server c.local_port cb c.pending c.answered h

timers-SentBy :
    (n time : ℕ) (times : List ℕ) (c : DnsClient) (h : Host)
    → Apart time times
    → SentBy n time c.pending
    → 4 ≤ n + length times
    → 0 < length times
    → ((timers times (c, h)).0.pending ≡ []) × (queries (timers times (c, h)).0 ≡ queries c)
unfolding on_timer
timers-SentBy n time [] c h apart sent k some' = absurd (omega (arith, some'))
timers-SentBy n time (now ∷ []) c h apart sent k some' = (
  (check-SentBy now c.dns_server c.local_port n time c.pending c.answered h apart.0 sent).1
      (omega (arith, k)),
  check-queries now c.dns_server c.local_port c.pending c.answered h,
)
timers-SentBy n time (now ∷ (next ∷ later)) c h apart sent k some' =
    let law =
      check-SentBy now c.dns_server c.local_port n time c.pending c.answered h apart.0 sent in
    let kept = check-queries now c.dns_server c.local_port c.pending c.answered h in
    let s = on_timer now (c, h) in
    let ih =
      timers-SentBy (n + 1) now (next ∷ later) s.0 s.1 apart.1 law.0 (omega (arith, k))
        (omega arith) in
    (ih.0, ih.1 ∙ kept)

-- Without a response every query is answered in the end: of four calls of on_timer or more, each
-- more than two seconds after the one before and the first as long after the queries were sent,
-- none leaves a query pending, each callback has been called without a response once more for each
-- query that was pending with it, and there has been no other call of a callback.
pub on_timer-answers :
    (time : ℕ) (times : List ℕ) (cb : ℕ) (c : DnsClient) (h : Host)
    → SentBy 0 time c.pending
    → Apart time times
    → 4 ≤ length times
    → let c' = (timers times (c, h)).0 in
      (c'.pending ≡ [])
      × (failures cb c'.answered ≡ waiting cb c.pending + failures cb c.answered)
      × (length c'.answered ≡ length c.pending + length c.answered)
on_timer-answers time times cb c h sent apart enough =
    let law =
      timers-SentBy 0 time times c h apart sent (omega (arith, enough)) (omega (arith, enough)) in
    (
      law.0,
      omega (arith, timers-failures cb times c h, ap (waiting cb) law.0),
      omega (arith, law.1, ap length law.0),
    )
