-- ===== src/Http/Server.antt =====
-- include/neustack/app/http_server.hpp and src/app/http_server.cpp: the routes, static files, and
-- one connection of the server. What IStreamConnection::send accepts is given in advance, call by
-- call; a call of close is counted. A generator of a streamed response is the list of the chunks
-- that next_chunk is going to return.
pub mod Stream
pub mod Pending
pub mod Loops
pub mod Begun
pub mod Sent
pub mod Paths
pub mod Table
pub mod Random
pub mod Pipelined
use neu_stack.Common.{
  ℕ, zero, suc, ◌+◌, ◌-◌, Bool, true, false, not, ◌&&◌, ◌||◌, Option, none, some, List, [], ◌∷◌,
  ◌++◌, length, drop, ltb, ◌==◌, if◌then◌else◌,
}
use neu_stack.Common.Maps.{find_key, put_key}
use neu_stack.Http.Text.{Bytes, codes, bytes_eq, begins_with, contains_word, print_nat}
use neu_stack.Http.{
  HttpMethod, get, post, put, delete, head, options, unknown, HttpRequest, HttpResponse, Headers,
  empty_request, empty_response, content_type, set_body, set_header, get_header, serialize_response,
}
use neu_stack.Http.Parser.{
  State, first_line, in_headers, in_body, complete, failed, HttpParser, new_request_parser,
  reset_request, feed_request,
}
use Stream.{Generator, Connection, close, flush_pending, send_next_chunk}

abbrev pub Handler : Type 0
Handler = HttpRequest → HttpResponse

abbrev pub same_method : HttpMethod → HttpMethod → Bool
same_method get get = true
same_method post post = true
same_method put put = true
same_method delete delete = true
same_method head head = true
same_method options options = true
same_method unknown unknown = true
same_method _ _ = false

-- A connection with its parser.
pub record Session : Type 0 where
  pub parser : HttpParser HttpRequest
  pub conn : Connection

-- The members of HttpServer but `_connections`, which is in Stream.
pub record HttpServer : Type 0 where
  pub routes : List (HttpMethod × List (Bytes × Handler))
  pub chunked_routes : List (Bytes × (HttpRequest → Option Generator))
  pub not_found_handler : Option Handler
  pub static_prefix : Bytes
  pub static_dir : Bytes

-- `_routes[method][path] = handler`: get, post, put and del
unfoldable pub add_route : HttpMethod → Bytes → Handler → HttpServer → HttpServer
add_route method path handler s = elim (find_key same_method method s.routes) [
  | none ↦ record s { routes = put_key same_method method ((path, handler) ∷ []) s.routes }
  | some paths ↦ record s {
    routes = put_key same_method method (put_key bytes_eq path handler paths) s.routes;
  }
]

pub get_chunked : Bytes → (HttpRequest → Option Generator) → HttpServer → HttpServer
get_chunked path handler s = record s {
  chunked_routes = put_key bytes_eq path handler s.chunked_routes;
}

abbrev pub serve_static : Bytes → Bytes → HttpServer → HttpServer
serve_static url_prefix dir_path s = record s { static_prefix = url_prefix; static_dir = dir_path }

abbrev pub set_not_found_handler : Option Handler → HttpServer → HttpServer
set_not_found_handler handler s = record s { not_found_handler = handler }

-- MIME_TYPES
abbrev pub mime_types : List (Bytes × Bytes)
mime_types =
    (codes ".html", codes "text/html")
    ∷ (codes ".htm", codes "text/html")
    ∷ (codes ".css", codes "text/css")
    ∷ (codes ".js", codes "application/javascript")
    ∷ (codes ".json", codes "application/json")
    ∷ (codes ".xml", codes "application/xml")
    ∷ (codes ".txt", codes "text/plain")
    ∷ (codes ".csv", codes "text/csv")
    ∷ (codes ".png", codes "image/png")
    ∷ (codes ".jpg", codes "image/jpeg")
    ∷ (codes ".jpeg", codes "image/jpeg")
    ∷ (codes ".gif", codes "image/gif")
    ∷ (codes ".svg", codes "image/svg+xml")
    ∷ (codes ".ico", codes "image/x-icon")
    ∷ (codes ".webp", codes "image/webp")
    ∷ (codes ".woff", codes "font/woff")
    ∷ (codes ".woff2", codes "font/woff2")
    ∷ (codes ".ttf", codes "font/ttf")
    ∷ (codes ".otf", codes "font/otf")
    ∷ (codes ".eot", codes "application/vnd.ms-fontobject")
    ∷ (codes ".zip", codes "application/zip")
    ∷ (codes ".gz", codes "application/gzip")
    ∷ (codes ".tar", codes "application/x-tar")
    ∷ (codes ".pdf", codes "application/pdf")
    ∷ (codes ".mp3", codes "audio/mpeg")
    ∷ (codes ".mp4", codes "video/mp4")
    ∷ (codes ".wasm", codes "application/wasm")
    ∷ []

-- get_extension: from the last point on, or nothing.
unfoldable pub get_extension : Bytes → Bytes
get_extension [] = []
get_extension (c ∷ rest) = elim (get_extension rest) [
  | [] ↦ if c == 46 then c ∷ rest else []
  | d ∷ ds ↦ d ∷ ds
]

unfoldable pub get_mime_type : Bytes → Bytes
get_mime_type path = elim (find_key bytes_eq (get_extension path) mime_types) [
  | none ↦ codes "application/octet-stream"
  | some type ↦ type
]

-- What dispatch does: the response, and the path of the file that it opens, if any.
pub record Dispatched : Type 0 where
  pub response : HttpResponse
  pub opened : Option Bytes

abbrev pub page : ℕ → Bytes → HttpResponse
page status text =
    set_body text (content_type (codes "text/html") (record empty_response { status = status }))

abbrev pub forbidden_page : HttpResponse
forbidden_page = page 403 (codes "<html><body><h1>403 Forbidden</h1></body></html>")

unfoldable pub not_found : HttpServer → HttpRequest → HttpResponse
not_found s request = elim s.not_found_handler [
  | some handler ↦ handler request
  | none ↦ page 404 (codes "<html><body><h1>404 Not Found</h1></body></html>")
]

-- `!relative_path.empty() && relative_path[0] == '/'`
abbrev pub begins_slash : Bytes → Bool
begins_slash [] = false
begins_slash (c ∷ rest) = c == 47

-- Connection: keep-alive or close.
abbrev pub noted : HttpRequest → Connection → Connection
noted request c = record c {
  keep_alive = not (bytes_eq (get_header (codes "Connection") request) (codes "close"));
}

-- Behind a response: while some of it is pending nothing more is done, and a connection that is not
-- kept is closed.
unfoldable pub finish_response : Connection → Connection
finish_response c =
    if not (bytes_eq c.pending_data []) then c else if not c.keep_alive then close c else c

module _ (read_file : Bytes → Option Bytes) where
  -- A file, or the page behind it when it cannot be opened.
  unfoldable pub serve_file : HttpServer → Bytes → HttpRequest → Dispatched
  serve_file s file_path request = elim (read_file file_path) [
    | some content ↦ record {
      response = content_type (get_mime_type file_path) (set_body content empty_response);
      opened = some file_path;
    }
    | none ↦ record { response = not_found s request; opened = some file_path }
  ]

  -- The static files, for the part of the path behind the prefix.
  unfoldable pub serve_relative : HttpServer → Bytes → HttpRequest → Dispatched
  unfolding serve_file
  serve_relative s relative_path request =
      if contains_word (codes "..") relative_path || begins_slash relative_path
      then record { response = forbidden_page; opened = none }
      else serve_file s (s.static_dir ++ (codes "/" ++ relative_path)) request

  -- `!_static_prefix.empty() && path.find(_static_prefix) == 0 && method == GET`
  abbrev pub is_static : HttpServer → HttpRequest → Bool
  is_static s request =
      not (bytes_eq s.static_prefix [])
      && (begins_with s.static_prefix request.path && same_method request.method get)

  -- The handler of a route.
  unfoldable pub find_route : HttpServer → HttpRequest → Option Handler
  find_route s request = elim (find_key same_method request.method s.routes) [
    | none ↦ none
    | some paths ↦ find_key bytes_eq request.path paths
  ]

  -- HttpServer::dispatch
  unfoldable pub dispatch : HttpServer → HttpRequest → Dispatched
  unfolding find_route serve_relative
  dispatch s request = elim (find_route s request) [
    | some handler ↦ record { response = handler request; opened = none }
    | none ↦
        if is_static s request
        then serve_relative s (drop (length s.static_prefix) request.path) request
        else record { response = not_found s request; opened = none }
  ]

  module _ (order : Headers → Headers) where
    -- HttpServer::send_response
    unfoldable pub send_response : HttpResponse → Connection → Connection
    send_response response c =
        (flush_pending
          (record c { pending_data = serialize_response order response; pending_offset = 0 })).1

    -- HttpServer::dispatch_chunked: whether a streamed response has begun.
    unfoldable pub dispatch_chunked : HttpServer → HttpRequest → Connection → Bool × Connection
    dispatch_chunked s request c = elim (find_key bytes_eq request.path s.chunked_routes) [
      | none ↦ (false, c)
      | some handler ↦ elim (handler request) [
        | none ↦ (false, record c { generator = none })
        | some g ↦
            (true, (send_next_chunk (record c { generator = some g; header_sent = false })).1)
      ]
    ]

    -- A request answered by `dispatch`: the response, and the close of a connection that is not
    -- kept. The parser is reset in between, which sending does not look at.
    unfoldable pub answer : HttpServer → HttpRequest → Connection → Connection
    unfolding finish_response
    answer s request c =
        let found = (dispatch s request).response in
        let response =
          if c.keep_alive then found else set_header (codes "Connection") (codes "close") found in
        finish_response (send_response response c)

    -- A complete request.
    unfoldable pub handle_request : HttpServer → HttpRequest → Connection → Connection
    unfolding dispatch_chunked answer send_response
    handle_request s request c =
        let kept = noted request c in
        let streamed = dispatch_chunked s request kept in
        if same_method request.method get
        then (if streamed.0 then streamed.1 else answer s request streamed.1)
        else answer s request kept

    -- The answer to what the parser refuses.
    unfoldable pub refuse_request : Connection → Connection
    refuse_request c =
        close (
          send_response (set_body (codes "Bad Request") (record empty_response { status = 400 })) c)

    -- What on_receive does behind the feed, by the state of the parser. A complete request is taken
    -- and the parser reset, so the loop over complete requests has one round.
    unfoldable pub after_feed : HttpServer → State → Session → Session
    after_feed s complete c = record {
      parser = reset_request c.parser;
      conn = handle_request s c.parser.message c.conn;
    }
    after_feed s failed c = record c { conn = refuse_request c.conn }
    after_feed s first_line c = c
    after_feed s in_headers c = c
    after_feed s in_body c = c

    -- Feeding the parser, and what follows.
    unfoldable pub feed_and_handle : HttpServer → Bytes → Session → Session
    unfolding after_feed
    feed_and_handle s bytes c =
        let fed = (feed_request order bytes c.parser).1 in
        after_feed s fed.state (record c { parser = fed })

    -- HttpServer::on_receive, for a connection that is in the table.
    unfoldable pub on_receive : HttpServer → Bytes → Session → Session
    unfolding feed_and_handle
    on_receive s bytes c =
        let flushed = (flush_pending c.conn).1 in
        let busy = record c { conn = flushed } in
        let streamed = record c { conn = (send_next_chunk c.conn).1 } in
        elim c.conn.generator [
          | some g ↦ streamed
          | none ↦
              if bytes_eq c.conn.pending_data []
              then feed_and_handle s bytes c
              else if bytes_eq flushed.pending_data []
              then feed_and_handle s bytes busy
              else busy
        ]
