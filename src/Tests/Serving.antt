-- ===== src/Tests/Serving.antt =====
-- The theorems on the HTTP server, applied to a server with a route and static files.
use neu_stack.Common.{◌≡◌, ◌≢◌, refl, true, false, Option, none, some, [], ◌∷◌, ◌++◌, arith}
use neu_stack.Common.Maps.{find_key}
use neu_stack.Http.Text.{
  Bytes, codes, bytes_eq, find_byte, find_crlf, digits_of, contains_word, find_header_ignore_case,
}
use neu_stack.Http.{
  get, HttpRequest, Headers, empty_request, empty_response, set_body, serialize_response,
  parse_http_method,
}
use neu_stack.Http.Parser.{
  complete, feed_loop, feed_with, feed_request, new_request_parser, split_on, split_path_query,
  request_line, parse_request_line, request_cases, first_value, end_headers, header_round,
  header_lines_from, parse_headers,
}
use neu_stack.Http.Server.Stream.{
  Generator, Connection, new_connection, conn_send, send_pending, drain_pending, send_chunk,
  send_chunks, stream_chunks, begin_stream, send_next_chunk, poll, chunked_header,
}
use neu_stack.Http.Server.{
  HttpServer, Session, dispatch, get_mime_type, get_extension, begins_slash, on_receive,
}
use neu_stack.Http.Server.Pending.{all_bytes}
use neu_stack.Http.Server.Sent.{poll-all_bytes}
use neu_stack.Http.Server.Begun.{IsSending}
use neu_stack.Http.Server.Pipelined.{response_to, on_receive-response, on_receive-pipelined}
use neu_stack.Http.Server.Paths.{descend, dispatch-below}

abbrev as_listed : Headers → Headers
as_listed headers = headers

-- Every file is there.
abbrev any_file : Bytes → Option Bytes
any_file path = some (codes "text")

abbrev server : HttpServer
server = record {
  routes = (get, (codes "/hi", λ r. set_body (codes "hello") empty_response) ∷ []) ∷ [];
  chunked_routes = [];
  not_found_handler = none;
  static_prefix = codes "/static/";
  static_dir = codes "/srv";
}

abbrev request_for : Bytes → HttpRequest
request_for path = record empty_request { method = get; path = path }

served :
    (dispatch any_file server (request_for (codes "/static/a/b.css"))).opened
    ≡ some (codes "/srv/a/b.css")
unfolding dispatch find_key contains_word
served = refl

served_type : get_mime_type (codes "/srv/a/b.css") ≡ codes "text/css"
unfolding get_mime_type get_extension find_key
served_type = refl

dispatch-below_example :
    (rel : Bytes) × (codes "/srv/a/b.css" ≡ server.static_dir ++ (codes "/" ++ rel))
    × (begins_slash rel ≡ false)
    × (descend 0 (split_on 47 rel) ≢ none)
dispatch-below_example =
    dispatch-below any_file server (request_for (codes "/static/a/b.css")) (codes "/srv/a/b.css")
      served

abbrev hi : Bytes
hi = codes "GET /hi HTTP/1.1\r\n\r\n"

-- A connection that takes ten bytes, then five, then none.
abbrev session : Session
session = record { parser = new_request_parser; conn = new_connection (10 ∷ 5 ∷ []) }

hi_complete : (feed_request as_listed hi new_request_parser).1.state ≡ complete
unfolding feed_with feed_loop request_cases parse_request_line request_line find_crlf find_byte
    split_path_query parse_http_method parse_headers header_lines_from header_round end_headers
    first_value find_header_ignore_case
hi_complete = refl

unrouted_hi :
    find_key bytes_eq
      (feed_request as_listed hi new_request_parser).1.message.path
      server.chunked_routes
    ≡ none
unfolding find_key
unrouted_hi = refl

on_receive-response_example :
    let request = (feed_request as_listed hi new_request_parser).1.message in
    let c' = on_receive any_file as_listed server hi session in
    (all_bytes c'.conn ≡ serialize_response as_listed (response_to any_file server request))
    × (c'.parser ≡ new_request_parser)
on_receive-response_example =
    on_receive-response any_file as_listed server hi session
      (record { generator = refl; pending_data = refl }) hi_complete unrouted_hi

on_receive-pipelined_example :
    on_receive any_file as_listed server (hi ++ hi) session
    ≡ on_receive any_file as_listed server hi session
on_receive-pipelined_example =
    on_receive-pipelined any_file as_listed server hi hi session
      (record { generator = refl; pending_data = refl }) (omega arith) hi_complete

-- Two chunks are to be streamed, of which the second meets a full buffer.
abbrev streaming : Connection
streaming = record (new_connection (200 ∷ 4 ∷ [])) {
  generator = some (record {
    chunks = codes "abcd" ∷ codes "efgh" ∷ [];
    total_size = 8;
    type = codes "text/plain";
  });
}

blocked_chunk : (poll streaming).pending_data ≡ codes "efgh"
unfolding poll send_next_chunk drain_pending send_pending conn_send begin_stream chunked_header
    digits_of stream_chunks send_chunks send_chunk
blocked_chunk = refl

poll-all_bytes_example :
    (all_bytes (poll streaming) ≡ all_bytes streaming)
    × IsSending (poll streaming)
    × ((g : Generator)
        → streaming.generator ≡ some g
        → (send_next_chunk streaming).0 ≡ true
        → (poll streaming).sent ≡ all_bytes streaming)
poll-all_bytes_example = poll-all_bytes streaming (λ g e h. refl)
