-- ===== src/Http/Parser/Response.antt =====
-- include/neustack/app/http_parser.hpp and src/app/http_parser.cpp: HttpResponseParser.
use neu_stack.Common.{
  ℕ, ◌+◌, Bool, true, false, ◌||◌, none, some, [], take, drop, ltb, if◌then◌else◌,
}
use neu_stack.Http.Text.{
  Bytes, codes, find_byte, contains_word, stoi_safe, Integer, positive, negative,
}
use neu_stack.Http.{HttpResponse, Headers, empty_response}
use neu_stack.Http.Parser.{
  Cases, HeaderField, HttpParser, State, chunked_not_implemented, complete, failed, feed_with,
  first_line, first_value, in_body, in_headers, invalid_status_code, invalid_status_line, no_error,
  parse_body, parse_headers, response_too_large, with_line,
}

-- `_response` and `_chunked`
pub record ResponseState : Type 0 where
  pub response : HttpResponse
  pub chunked : Bool

abbrev pub response_headers : (Headers → Headers) → HeaderField ResponseState
response_headers order = record {
  headers_of = λ m. m.response.headers;
  with_headers = λ hs m. record m { response = record (m.response) { headers = hs } };
  order = order;
}

-- `status_code < 100 || status_code > 599`, and the status
unfoldable pub set_status : Integer → HttpParser ResponseState → HttpParser ResponseState
set_status (negative n) p = record p { state = failed; error = invalid_status_code }
set_status (positive n) p =
    if ltb n 100 || ltb 599 n
    then record p { state = failed; error = invalid_status_code }
    else record p {
      message = record (p.message) { response = record (p.message.response) { status = n } };
      state = in_headers;
    }

unfoldable pub status_line : Bytes → HttpParser ResponseState → HttpParser ResponseState
status_line line p = elim (find_byte 32 line) [
  | none ↦ record p { state = failed; error = invalid_status_line }
  | some sp1 ↦
      let after = drop (sp1 + 1) line in
      elim (find_byte 32 after) [
        | none ↦ set_status (stoi_safe after) p
        | some len ↦ set_status (stoi_safe (take len after)) p
      ]
]

-- HttpResponseParser::parse_status_line
unfoldable pub parse_status_line : HttpParser ResponseState → Bool × HttpParser ResponseState
unfolding with_line
parse_status_line p = with_line status_line p

-- `_chunked && _state == State::Body`
abbrev pub refuses : Bool → State → Bool
refuses true in_body = true
refuses true _ = false
refuses false _ = false

-- `_chunked` after the headers.
unfoldable pub find_chunked : (Headers → Headers) → ResponseState → Bool
find_chunked order m = elim (first_value (response_headers order) (codes "Transfer-Encoding") m) [
  | none ↦ m.chunked
  | some v ↦ contains_word (codes "chunked") v
]

unfoldable pub set_chunked : Bool → HttpParser ResponseState → HttpParser ResponseState
set_chunked chunked p =
    let p' = record p { message = record (p.message) { chunked = chunked } } in
    if refuses chunked p.state
    then record p' { state = failed; error = chunked_not_implemented }
    else p'

-- The check for chunked behind parse_headers.
unfoldable pub check_chunked :
    (Headers → Headers) → HttpParser ResponseState → HttpParser ResponseState
unfolding find_chunked set_chunked
check_chunked order p = set_chunked (find_chunked order p.message) p

unfoldable pub response_cases : (Headers → Headers) → Cases ResponseState
response_cases order first_line p = parse_status_line p
response_cases order in_headers p =
    let (done, q) = parse_headers (response_headers order) p in
    (done, if done then check_chunked order q else q)
response_cases order in_body p =
    parse_body (λ body m. record m { response = record (m.response) { body = body } }) p
response_cases order complete p = (true, p)
response_cases order failed p = (true, p)

-- HttpResponseParser::feed
abbrev pub feed_response :
    (Headers → Headers) → Bytes → HttpParser ResponseState → ℕ × HttpParser ResponseState
feed_response order = feed_with (response_cases order) response_too_large

-- The constructor, and HttpResponseParser::reset.
abbrev pub new_response_parser : HttpParser ResponseState
new_response_parser = record {
  state = first_line;
  buffer = [];
  error = no_error;
  content_length = 0;
  message = record { response = empty_response; chunked = false };
}
