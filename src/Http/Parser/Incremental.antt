-- ===== src/Http/Parser/Incremental.antt =====
-- src/app/http_parser.cpp: the parsers on a message that comes in pieces.
use neu_stack.Common.{
  ◌+◌, ◌≤◌, ◌≡◌, ap, sym, ◌∙◌, inl, inr, Bool, true, false, List, ◌∷◌, length, arith,
}
use mathlib.Core.Path.{subst}
use neu_stack.Http.Text.{Bytes}
use neu_stack.Http.{HttpRequest, Headers}
use neu_stack.Http.Parser.{
  State, first_line, in_headers, in_body, complete, failed, HttpParser, is_finished,
  max_buffer_size, Cases, parse_headers, request_line, parse_request_line, request_headers,
  request_too_large, response_too_large, request_cases, feed_request,
}
use neu_stack.Http.Parser.Response.{
  ResponseState, response_headers, status_line, parse_status_line, find_chunked, set_chunked,
  check_chunked, response_cases, feed_response,
}
use neu_stack.Http.Parser.Rounds.{pair-cases, rank, more, IsIncremental, Same, concat, feed_all}
use neu_stack.Http.Parser.Pieces.{feed_all-concat}
use neu_stack.Http.Parser.Moves.{
  MovesAt, WaitsAt, moves_to, parse_body-moves, parse_body-waits, parse_headers-moves,
  parse_headers-waits, request_line-IsFirst, status_line-IsFirst, with_line-moves, with_line-waits,
}

request-moves :
    (order : Headers → Headers) (s : State)
    → is_finished s ≡ false
    → MovesAt s (request_cases order s)
unfolding request_cases parse_request_line
request-moves order first_line running = with_line-moves request_line request_line-IsFirst
request-moves order in_headers running = parse_headers-moves (request_headers order)
request-moves order in_body running = parse_body-moves (λ body m. record m { body = body })
request-moves order complete running = absurd (ground (arith, running))
request-moves order failed running = absurd (ground (arith, running))

request-waits :
    (order : Headers → Headers) (s : State)
    → is_finished s ≡ false
    → WaitsAt (request_cases order s)
unfolding request_cases parse_request_line
request-waits order first_line running = with_line-waits request_line
request-waits order in_headers running = parse_headers-waits (request_headers order)
request-waits order in_body running = parse_body-waits (λ body m. record m { body = body })
request-waits order complete running = absurd (ground (arith, running))
request-waits order failed running = absurd (ground (arith, running))

-- The state that the switch reads is the parser's.
IsIncremental-of :
    {M : Type 0} (cases : Cases M)
    → ((s : State) → is_finished s ≡ false → MovesAt s (cases s))
    → ((s : State) → is_finished s ≡ false → WaitsAt (cases s))
    → IsIncremental cases
IsIncremental-of cases moves waits = record {
  moves = λ p q bytes running e. moves p.state running p q bytes e;
  waits = λ p q bytes running e.
      let law = waits p.state running p q bytes e in
      (law.0 ∙ ap (λ s. cases s (more bytes q)) (sym law.1), law.1, law.2);
}

pub request_cases-IsIncremental : (order : Headers → Headers) → IsIncremental (request_cases order)
request_cases-IsIncremental order =
    IsIncremental-of (request_cases order) (request-moves order) (request-waits order)

-- The check for chunked leaves the buffer alone, and no more states are left behind it.
set_chunked-more :
    (c : Bool) (bytes : Bytes) (p : HttpParser ResponseState)
    → set_chunked c (more bytes p) ≡ more bytes (set_chunked c p)
unfolding set_chunked
set_chunked-more c bytes p = ground arith

set_chunked-rank :
    (c : Bool) (p : HttpParser ResponseState) → rank (set_chunked c p).state ≤ rank p.state
unfolding set_chunked
set_chunked-rank c p = ground arith

set_chunked-buffer : (c : Bool) (p : HttpParser ResponseState) → (set_chunked c p).buffer ≡ p.buffer
unfolding set_chunked
set_chunked-buffer c p = ground arith

headers_true :
    (order : Headers → Headers) (p q : HttpParser ResponseState)
    → parse_headers (response_headers order) p ≡ (true, q)
    → response_cases order in_headers p ≡ (true, set_chunked (find_chunked order q.message) q)
unfolding response_cases check_chunked
headers_true order p q e = rw e

headers_false :
    (order : Headers → Headers) (p q : HttpParser ResponseState)
    → parse_headers (response_headers order) p ≡ (false, q)
    → response_cases order in_headers p ≡ (false, q)
unfolding response_cases
headers_false order p q e = rw e

-- With the same outcome of parse_headers the check has the same.
checked-alike :
    (order : Headers → Headers) (p q : HttpParser ResponseState)
    → parse_headers (response_headers order) p ≡ parse_headers (response_headers order) q
    → response_cases order in_headers p ≡ response_cases order in_headers q
unfolding response_cases
checked-alike order p q e = rw e

checked-moves : (order : Headers → Headers) → MovesAt in_headers (response_cases order in_headers)
checked-moves order p q bytes h = elim (pair-cases (parse_headers (response_headers order) p)) [
  | inl (r, e) ↦
      let law = parse_headers-moves (response_headers order) p r bytes e in
      let c = find_chunked order r.message in
      moves_to in_headers (response_cases order in_headers) p (set_chunked c r) q bytes
        (headers_true order p r e)
        (headers_true order (more bytes p) (more bytes r) law.0
          ∙ ap (λ (t : HttpParser ResponseState). (true, t)) (set_chunked-more c bytes r))
        (omega (arith, law.1, set_chunked-rank c r))
        (omega (arith, law.2, ap length (set_chunked-buffer c r))) h
  | inr (r, e) ↦ absurd (ground (arith, headers_false order p r e, h))
]

checked-waits : (order : Headers → Headers) → WaitsAt (response_cases order in_headers)
checked-waits order p q bytes h = elim (pair-cases (parse_headers (response_headers order) p)) [
  | inl (r, e) ↦ absurd (ground (arith, headers_true order p r e, h))
  | inr (r, e) ↦
      let law = parse_headers-waits (response_headers order) p r bytes e in
      let same : r ≡ q =
        ap (λ (x : Bool × HttpParser ResponseState). x.1) (sym (headers_false order p r e) ∙ h) in
      subst
        (λ (t : HttpParser ResponseState).
          (response_cases order in_headers (more bytes p)
            ≡ response_cases order in_headers (more bytes t))
          × (t.state ≡ p.state)
          × (length t.buffer ≤ length p.buffer))
        same (checked-alike order (more bytes p) (more bytes r) law.0, law.1, law.2)
]

response-moves :
    (order : Headers → Headers) (s : State)
    → is_finished s ≡ false
    → MovesAt s (response_cases order s)
unfolding response_cases parse_status_line
response-moves order first_line running = with_line-moves status_line status_line-IsFirst
response-moves order in_headers running = checked-moves order
response-moves order in_body running =
    parse_body-moves (λ body m. record m { response = record (m.response) { body = body } })
response-moves order complete running = absurd (ground (arith, running))
response-moves order failed running = absurd (ground (arith, running))

response-waits :
    (order : Headers → Headers) (s : State)
    → is_finished s ≡ false
    → WaitsAt (response_cases order s)
unfolding response_cases parse_status_line
response-waits order first_line running = with_line-waits status_line
response-waits order in_headers running = checked-waits order
response-waits order in_body running =
    parse_body-waits (λ body m. record m { response = record (m.response) { body = body } })
response-waits order complete running = absurd (ground (arith, running))
response-waits order failed running = absurd (ground (arith, running))

-- A request that comes in pieces, for which the buffer has room, is parsed as it is at once: the
-- state, the error and the request are the same, and so is the buffer unless the parser is
-- finished.
pub feed_request-pieces :
    (order : Headers → Headers) (bytes : Bytes) (rest : List Bytes) (p : HttpParser HttpRequest)
    → length p.buffer + length (concat (bytes ∷ rest)) ≤ max_buffer_size
    → Same
        (feed_all (request_cases order) request_too_large (bytes ∷ rest) p)
        (feed_request order (concat (bytes ∷ rest)) p).1
feed_request-pieces order =
    feed_all-concat (request_cases order) (request_cases-IsIncremental order) request_too_large

-- A response that comes in pieces, for which the buffer has room, is parsed as it is at once: the
-- state, the error and the response are the same, and so is the buffer unless the parser is
-- finished.
pub feed_response-pieces :
    (order : Headers → Headers) (bytes : Bytes) (rest : List Bytes) (p : HttpParser ResponseState)
    → length p.buffer + length (concat (bytes ∷ rest)) ≤ max_buffer_size
    → Same
        (feed_all (response_cases order) response_too_large (bytes ∷ rest) p)
        (feed_response order (concat (bytes ∷ rest)) p).1
feed_response-pieces order =
    feed_all-concat (response_cases order)
      (IsIncremental-of (response_cases order) (response-moves order) (response-waits order))
      response_too_large
