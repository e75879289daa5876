-- ===== src/Tests/Web.antt =====
-- The theorems on the HTTP parsers, applied to messages.
use neu_stack.Common.{◌≡◌, refl, List, [], ◌∷◌, arith}
use neu_stack.Common.Maps.{find_key, put_key}
use neu_stack.Http.Text.{
  Bytes, codes, find_byte, find_crlf, iequals, find_header_ignore_case, stoul_safe, stoi_safe,
  contains_word,
}
use neu_stack.Http.{Headers, post, parse_http_method, add_header}
use neu_stack.Http.Parser.{
  complete, no_error, chunked_not_implemented, request_too_large, first_value, end_headers,
  header_line, header_round, header_lines_from, parse_headers, parse_body, feed_loop, feed_with,
  add_param, parse_query_string, split_path_query, with_line, request_line, parse_request_line,
  request_cases, feed_request, new_request_parser,
}
use neu_stack.Http.Parser.Response.{
  set_status, status_line, parse_status_line, check_chunked, response_cases, feed_response,
  new_response_parser,
}
use neu_stack.Http.Parser.Rounds.{Same, concat, feed_all}
use neu_stack.Http.Parser.Incremental.{feed_request-pieces}

abbrev as_listed : Headers → Headers
as_listed headers = headers

abbrev post_pieces : List Bytes
post_pieces =
    codes "POST /a?x=1&y HTTP/1.1\r"
    ∷ codes "\nHost: h\r\ncontent-length:  5\r\n\r\nhe"
    ∷ codes "llo"
    ∷ []

-- The request that the pieces hold.
parsed_post : (feed_request as_listed (concat post_pieces) new_request_parser).1 ≡ record {
  state = complete;
  buffer = [];
  error = no_error;
  content_length = 5;
  message = record {
    method = post;
    path = codes "/a";
    version = codes "HTTP/1.1";
    raw_query = codes "x=1&y";
    query_params = (codes "x", codes "1") ∷ (codes "y", []) ∷ [];
    headers = (codes "Host", codes "h" ∷ []) ∷ (codes "content-length", codes "5" ∷ []) ∷ [];
    body = codes "hello";
  };
}
unfolding feed_with feed_loop request_cases parse_request_line with_line request_line find_crlf
    find_byte split_path_query parse_query_string add_param put_key find_key parse_http_method
    parse_headers header_lines_from header_round header_line end_headers add_header first_value
    find_header_ignore_case iequals stoul_safe parse_body
parsed_post = refl

feed_request-pieces_example :
    Same
      (feed_all (request_cases as_listed) request_too_large post_pieces new_request_parser)
      (feed_request as_listed (concat post_pieces) new_request_parser).1
feed_request-pieces_example =
    feed_request-pieces as_listed (codes "POST /a?x=1&y HTTP/1.1\r")
      (codes "\nHost: h\r\ncontent-length:  5\r\n\r\nhe" ∷ codes "llo" ∷ []) new_request_parser
      (omega arith)

abbrev chunked_pieces : List Bytes
chunked_pieces =
    codes "HTTP/1.1 200 OK\r\nTransfer-Encoding: chunked\r\n"
    ∷ codes "Content-Length: 3\r\n\r\nabc"
    ∷ []

refused_chunked :
    (feed_response as_listed (concat chunked_pieces) new_response_parser).1.error
    ≡ chunked_not_implemented
unfolding feed_with feed_loop response_cases parse_status_line with_line status_line set_status
    stoi_safe find_crlf find_byte put_key find_key parse_headers header_lines_from header_round
    header_line end_headers add_header first_value find_header_ignore_case iequals stoul_safe
    check_chunked contains_word
refused_chunked = refl
