-- ===== src/Http/Parser.antt =====
-- include/neustack/app/http_parser.hpp and src/app/http_parser.cpp: the parsers, which take a
-- message in pieces. What the classes share is generic in `M`, the message that a parser fills. The
-- parser of responses stands in a child.
pub mod Response
pub mod Rounds
pub mod Lines
pub mod Pieces
pub mod Moves
pub mod Incremental
use neu_stack.Common.{
  ℕ, zero, suc, ◌+◌, ◌-◌, ◌<◌, Bool, true, false, ◌&&◌, ◌||◌, Option, none, some, List, [], ◌∷◌,
  ◌++◌, length, take, drop, ltb, leb, ◌==◌, if◌then◌else◌,
}
use neu_stack.Common.Maps.{put_key}
use neu_stack.Http.Text.{
  Bytes, codes, bytes_eq, find_byte, find_crlf, contains_word, find_header_ignore_case, stoul_safe,
  stoi_safe, Integer, positive, negative,
}
use neu_stack.Http.{
  HttpRequest, HttpResponse, Headers, empty_request, empty_response, parse_http_method, add_header,
}

-- HttpParser::State
pub data State : Type 0 where
  first_line in_headers in_body complete failed : State

-- `_error`
pub data HttpError : Type 0 where
  no_error invalid_header_line request_too_large invalid_request_line : HttpError
  response_too_large chunked_not_implemented invalid_status_line invalid_status_code : HttpError

-- class HttpParser, with the message of the class derived from it.
pub record HttpParser (M : Type 0) : Type 0 where
  pub state : State
  pub buffer : Bytes
  pub error : HttpError
  pub content_length : ℕ
  pub message : M

abbrev pub max_buffer_size : ℕ
max_buffer_size = 1_048_576

abbrev pub is_finished : State → Bool
is_finished first_line = false
is_finished in_headers = false
is_finished in_body = false
is_finished complete = true
is_finished failed = true

-- A round of the loop in parse_headers: the data end before a line does, parse_headers returns
-- true, or the next line follows.
pub data Round (M : Type 0) : Type 0 where
  incomplete : Round M
  ended : HttpParser M → Round M
  next_line : HttpParser M → Round M

-- The value of a header without the spaces in front.
abbrev pub trim_left : Bytes → Bytes
trim_left [] = []
trim_left (c ∷ rest) = if c == 32 then trim_left rest else c ∷ rest

-- The member that holds the headers, and the order of its iteration.
pub record HeaderField (M : Type 0) : Type 0 where
  pub headers_of : M → Headers
  pub with_headers : Headers → M → M
  pub order : Headers → Headers

module _ {M : Type 0} (field : HeaderField M) where
  -- `it != headers.end() && !it->second.empty()`: the first value under a name.
  unfoldable pub first_value : Bytes → M → Option Bytes
  first_value name m = elim (find_header_ignore_case name (field.order (field.headers_of m))) [
    | none ↦ none
    | some [] ↦ none
    | some (v ∷ rest) ↦ some v
  ]

  -- The empty line.
  unfoldable pub end_headers : HttpParser M → HttpParser M
  end_headers p =
      let size : ℕ = elim (first_value (codes "Content-Length") p.message) [
        | none ↦ p.content_length
        | some v ↦ stoul_safe v
      ] in
      record p { content_length = size; state = (if ltb 0 size then in_body else complete) }

  unfoldable pub header_line : Bytes → HttpParser M → Round M
  header_line line p = elim (find_byte 58 line) [
    | none ↦ ended (record p { state = failed; error = invalid_header_line })
    | some colon ↦ next_line (record p {
      message =
          field.with_headers
            (add_header (take colon line) (trim_left (drop (colon + 1) line))
              (field.headers_of p.message))
            p.message;
    })
  ]

  unfoldable pub header_round : HttpParser M → Round M
  header_round p = elim (find_crlf p.buffer) [
    | none ↦ incomplete
    | some pos ↦
        if pos == 0
        then ended (end_headers (record p { buffer = drop 2 p.buffer }))
        else header_line (take pos p.buffer) (record p { buffer = drop (pos + 2) p.buffer })
  ]

  -- The loop: each round takes a line off the buffer.
  unfoldable pub header_lines_from : ℕ → HttpParser M → Bool × HttpParser M
  header_lines_from zero p = (false, p)
  header_lines_from (suc fuel) p = elim (header_round p) [
    | incomplete ↦ (false, p)
    | ended q ↦ (true, q)
    | next_line q ↦ header_lines_from fuel q
  ]

  -- HttpParser::parse_headers
  unfoldable pub parse_headers : HttpParser M → Bool × HttpParser M
  parse_headers p = header_lines_from (suc (length p.buffer)) p

-- HttpParser::parse_body
module _ {M : Type 0} (with_body : Bytes → M → M) where
  unfoldable pub parse_body : HttpParser M → Bool × HttpParser M
  parse_body p =
      if leb p.content_length (length p.buffer)
      then (
        true,
        record p {
          message = with_body (take p.content_length p.buffer) p.message;
          buffer = drop p.content_length p.buffer;
          state = complete;
        },
      )
      else (false, p)

-- What a derived class does in each state: its case of the switch.
abbrev pub Cases : Type 0 → Type 0
Cases M = State → HttpParser M → Bool × HttpParser M

-- `if (!parse_...) return len;`, and what follows.
abbrev pub go_on : {M : Type 0} → (HttpParser M → HttpParser M) → Bool × HttpParser M → HttpParser M
go_on after (true, q) = after q
go_on after (false, q) = q

module _ {M : Type 0} (cases : Cases M) where
  -- The loop of feed: a case that returns true has moved on to a later state, so three rounds are
  -- enough.
  unfoldable pub feed_loop : ℕ → HttpParser M → HttpParser M
  feed_loop zero p = p
  feed_loop (suc fuel) p = elim (is_finished p.state) [
    | true ↦ p
    | false ↦ go_on (feed_loop fuel) (cases p.state p)
  ]

  -- feed: what it returns, and the parser.
  unfoldable pub feed_with : HttpError → Bytes → HttpParser M → ℕ × HttpParser M
  feed_with too_large bytes p =
      let p' = record p { buffer = p.buffer ++ bytes } in
      if is_finished p.state
      then (0, p)
      else if ltb max_buffer_size (length p'.buffer)
      then (length bytes, record p' { state = failed; error = too_large })
      else (length bytes, feed_loop 3 p')

-- The parts of a query between `&`.
abbrev pub split_on : ℕ → Bytes → List Bytes
split_on c [] = [] ∷ []
split_on c (x ∷ xs) = elim (split_on c xs) [
  | [] ↦ []
  | part ∷ parts ↦ if x == c then [] ∷ (part ∷ parts) else (x ∷ part) ∷ parts
]

-- One part of the query.
unfoldable pub add_param : List (Bytes × Bytes) → Bytes → List (Bytes × Bytes)
add_param params [] = params
add_param params (x ∷ xs) = elim (find_byte 61 (x ∷ xs)) [
  | none ↦ put_key bytes_eq (x ∷ xs) [] params
  | some eq ↦ put_key bytes_eq (take eq (x ∷ xs)) (drop (eq + 1) (x ∷ xs)) params
]

abbrev pub add_params : List (Bytes × Bytes) → List Bytes → List (Bytes × Bytes)
add_params params [] = params
add_params params (part ∷ parts) = add_params (add_param params part) parts

unfoldable pub parse_query_string : Bytes → List (Bytes × Bytes)
parse_query_string query = add_params [] (split_on 38 query)

unfoldable pub split_path_query : HttpRequest → Bytes → HttpRequest
split_path_query req uri = elim (find_byte 63 uri) [
  | none ↦ record req { path = uri }
  | some q ↦ record req {
    path = take q uri;
    raw_query = drop (q + 1) uri;
    query_params = parse_query_string (drop (q + 1) uri);
  }
]

-- The first line taken off the buffer, when it is there, and what is done with its text.
unfoldable pub with_line :
    {M : Type 0} → (Bytes → HttpParser M → HttpParser M) → HttpParser M → Bool × HttpParser M
with_line line p = elim (find_crlf p.buffer) [
  | none ↦ (false, p)
  | some pos ↦ (true, line (take pos p.buffer) (record p { buffer = drop (pos + 2) p.buffer }))
]

-- The text of the first line, once it is off the buffer.
unfoldable pub request_line : Bytes → HttpParser HttpRequest → HttpParser HttpRequest
request_line line p =
    let invalid = record p { state = failed; error = invalid_request_line } in
    elim (find_byte 32 line) [
      | none ↦ invalid
      | some sp1 ↦
          let after = drop (sp1 + 1) line in
          elim (find_byte 32 after) [
            | none ↦ invalid
            | some len ↦
                let named = record p.message { method = parse_http_method (take sp1 line) } in
                let req = split_path_query named (take len after) in
                record p {
                  message = record req { version = drop (len + 1) after };
                  state = in_headers;
                }
          ]
    ]

-- HttpRequestParser::parse_request_line
unfoldable pub parse_request_line : HttpParser HttpRequest → Bool × HttpParser HttpRequest
unfolding with_line
parse_request_line p = with_line request_line p

abbrev pub request_headers : (Headers → Headers) → HeaderField HttpRequest
request_headers order = record {
  headers_of = λ m. m.headers;
  with_headers = λ hs m. record m { headers = hs };
  order = order;
}

-- The switch of HttpRequestParser::feed.
unfoldable pub request_cases : (Headers → Headers) → Cases HttpRequest
request_cases order first_line p = parse_request_line p
request_cases order in_headers p = parse_headers (request_headers order) p
request_cases order in_body p = parse_body (λ body m. record m { body = body }) p
request_cases order complete p = (true, p)
request_cases order failed p = (true, p)

-- HttpRequestParser::feed
abbrev pub feed_request :
    (Headers → Headers) → Bytes → HttpParser HttpRequest → ℕ × HttpParser HttpRequest
feed_request order = feed_with (request_cases order) request_too_large

-- The constructor, and HttpRequestParser::reset.
abbrev pub new_request_parser : HttpParser HttpRequest
new_request_parser = record {
  state = first_line;
  buffer = [];
  error = no_error;
  content_length = 0;
  message = empty_request;
}

abbrev pub reset_request : HttpParser HttpRequest → HttpParser HttpRequest
reset_request p = record {
  state = first_line;
  buffer = [];
  error = no_error;
  content_length = 0;
  message = empty_request;
}
