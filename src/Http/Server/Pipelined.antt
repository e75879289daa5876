-- ===== src/Http/Server/Pipelined.antt =====
-- src/app/http_server.cpp: on_receive on a complete request, and on what comes behind it.
use neu_stack.Common.{
  ◌+◌, ◌≤◌, ◌≡◌, refl, ap, sym, ◌∙◌, inl, inr, true, false, not, Option, none, some, [], ◌∷◌, ◌++◌,
  length, length-append, if◌then◌else◌, arith, Bool-cases,
}
use mathlib.Core.List.{append-nil}
use neu_stack.Common.Maps.{find_key}
use neu_stack.Http.Text.{Bytes, codes, bytes_eq}
use neu_stack.Http.{
  get, HttpRequest, HttpResponse, Headers, get_header, set_header, serialize_response,
}
use neu_stack.Http.Parser.{
  complete, HttpParser, max_buffer_size, is_finished, feed_with, feed_request, new_request_parser,
}
use neu_stack.Http.Parser.Incremental.{feed_request-pieces}
use neu_stack.Http.Server.{
  HttpServer, Session, Connection, dispatch, send_response, dispatch_chunked, answer, noted,
  handle_request, after_feed, feed_and_handle, on_receive, same_method, finish_response,
}
use neu_stack.Http.Server.Stream.{Generator, flush_pending, send_next_chunk}
use neu_stack.Http.Server.Pending.{to_stream, all_bytes}
use neu_stack.Http.Server.Sent.{flush-all_bytes}

module _ (read_file : Bytes → Option Bytes) (order : Headers → Headers) (s : HttpServer) where
  -- Nothing is being sent.
  pub record IsIdle (c : Session) : Type 0 where
    pub generator : c.conn.generator ≡ none
    pub pending_data : c.conn.pending_data ≡ []

  abbrev parsed : Bytes → Session → HttpParser HttpRequest
  parsed bytes c = (feed_request order bytes c.parser).1

  receive_idle :
      (bytes : Bytes) (c : Session)
      → IsIdle c
      → on_receive read_file order s bytes c ≡ feed_and_handle read_file order s bytes c
  unfolding on_receive
  receive_idle bytes c idle =
      let flushed = (flush_pending c.conn).1 in
      let fed = feed_and_handle read_file order s bytes c in
      let behind =
        if bytes_eq flushed.pending_data []
        then feed_and_handle read_file order s bytes (record c { conn = flushed })
        else record c { conn = flushed } in
      let by_generator : Option Generator → Session = λ o. elim o [
        | some g ↦ record c { conn = (send_next_chunk c.conn).1 }
        | none ↦ if bytes_eq c.conn.pending_data [] then fed else behind
      ] in
      ap by_generator idle.generator
      ∙ ap (λ d. if bytes_eq d [] then fed else behind) idle.pending_data

  feed_finished :
      (bytes : Bytes) (p : HttpParser HttpRequest)
      → is_finished p.state ≡ true
      → (feed_request order bytes p).1 ≡ p
  unfolding feed_with
  feed_finished bytes p done = rw done

  receive_complete :
      (bytes : Bytes) (c : Session)
      → (parsed bytes c).state ≡ complete
      → feed_and_handle read_file order s bytes c ≡ record {
        parser = new_request_parser;
        conn = handle_request read_file order s (parsed bytes c).message c.conn;
      }
  unfolding feed_and_handle after_feed
  receive_complete bytes c done =
      ap (λ st. after_feed read_file order s st (record c { parser = parsed bytes c })) done

  -- What is read of a complete request does not depend on what comes behind it.
  parsed-behind :
      (bytes behind : Bytes) (c : Session)
      → length c.parser.buffer + (length bytes + length behind) ≤ max_buffer_size
      → (parsed bytes c).state ≡ complete
      → ((parsed (bytes ++ behind) c).state ≡ complete)
        × ((parsed (bytes ++ behind) c).message ≡ (parsed bytes c).message)
  parsed-behind bytes behind c room done =
      let pieces = behind ++ [] in
      let room' : length c.parser.buffer + length (bytes ++ pieces) ≤ max_buffer_size =
        omega (arith, room, length-append bytes pieces, length-append behind []) in
      let law = feed_request-pieces order bytes (behind ∷ []) c.parser room' in
      let once = feed_finished behind (parsed bytes c) (ap is_finished done) in
      let joined : parsed (bytes ++ behind) c ≡ parsed (bytes ++ pieces) c =
        ap (λ b. parsed (bytes ++ b) c) (sym (append-nil behind)) in
      (
        ap (λ (p : HttpParser HttpRequest). p.state) joined
            ∙ sym law.state
            ∙ ap (λ (p : HttpParser HttpRequest). p.state) once
            ∙ done,
        ap (λ (p : HttpParser HttpRequest). p.message) joined
            ∙ sym law.message
            ∙ ap (λ (p : HttpParser HttpRequest). p.message) once,
      )

-- On a connection where nothing is being sent, what comes behind a complete request in the same
-- call of on_receive is dropped: the outcome is the same as without it.
pub on_receive-pipelined :
    (read_file : Bytes → Option Bytes) (order : Headers → Headers) (s : HttpServer)
    (bytes behind : Bytes) (c : Session)
    → IsIdle read_file order s c
    → length c.parser.buffer + (length bytes + length behind) ≤ max_buffer_size
    → (feed_request order bytes c.parser).1.state ≡ complete
    → on_receive read_file order s (bytes ++ behind) c ≡ on_receive read_file order s bytes c
on_receive-pipelined read_file order s bytes behind c idle room done =
    let law = parsed-behind read_file order s bytes behind c room done in
    receive_idle read_file order s (bytes ++ behind) c idle
    ∙ receive_complete read_file order s (bytes ++ behind) c law.0
    ∙ ap
        (λ request. record {
          parser = new_request_parser;
          conn = handle_request read_file order s request c.conn;
        })
        law.1
    ∙ sym (receive_complete read_file order s bytes c done)
    ∙ sym (receive_idle read_file order s bytes c idle)

-- The response of the routes, with the Connection header that the request asks for.
abbrev pub response_to : (Bytes → Option Bytes) → HttpServer → HttpRequest → HttpResponse
response_to read_file s request =
    let found = (dispatch read_file s request).response in
    if not (bytes_eq (get_header (codes "Connection") request) (codes "close"))
    then found
    else set_header (codes "Connection") (codes "close") found

finish-all_bytes : (c : Connection) → all_bytes (finish_response c) ≡ all_bytes c
unfolding finish_response
finish-all_bytes c = elim (Bool-cases (not (bytes_eq c.pending_data []))) [
  | inl e ↦ rw e
  | inr e ↦ elim (Bool-cases (not c.keep_alive)) [ inl k ↦ rw (e, k) | inr k ↦ rw (e, k) ]
]

-- The response is what there is to send.
queued-all_bytes :
    (c : Connection) (text : Bytes)
    → c.generator ≡ none
    → all_bytes (record c { pending_data = text; pending_offset = 0 }) ≡ c.sent ++ text
queued-all_bytes c text idle =
    ap (λ g. (c.sent ++ text) ++ to_stream c.keep_alive c.header_sent g) idle
    ∙ append-nil (c.sent ++ text)

send_response-all_bytes :
    (order : Headers → Headers) (r : HttpResponse) (c : Connection)
    (read_file : Bytes → Option Bytes)
    → c.generator ≡ none
    → all_bytes (send_response read_file order r c) ≡ c.sent ++ serialize_response order r
unfolding send_response
send_response-all_bytes order r c read_file idle =
    let text = serialize_response order r in
    (flush-all_bytes (record c { pending_data = text; pending_offset = 0 })).0
    ∙ queued-all_bytes c text idle

answer-all_bytes :
    (read_file : Bytes → Option Bytes) (order : Headers → Headers) (s : HttpServer)
    (request : HttpRequest) (c : Connection)
    → c.generator ≡ none
    → c.keep_alive ≡ not (bytes_eq (get_header (codes "Connection") request) (codes "close"))
    → all_bytes (answer read_file order s request c)
      ≡ c.sent ++ serialize_response order (response_to read_file s request)
unfolding answer
answer-all_bytes read_file order s request c idle kept =
    let found = (dispatch read_file s request).response in
    let marked = set_header (codes "Connection") (codes "close") found in
    let response = if c.keep_alive then found else marked in
    finish-all_bytes (send_response read_file order response c)
    ∙ send_response-all_bytes order response c read_file idle
    ∙ ap (λ k. c.sent ++ serialize_response order (if k then found else marked)) kept

unrouted :
    (read_file : Bytes → Option Bytes) (order : Headers → Headers) (s : HttpServer)
    (request : HttpRequest) (c : Connection)
    → find_key bytes_eq request.path s.chunked_routes ≡ none
    → dispatch_chunked read_file order s request c ≡ (false, c)
unfolding dispatch_chunked
unrouted read_file order s request c plain = rw (plain, dispatch_chunked)

unstreamed :
    (read_file : Bytes → Option Bytes) (order : Headers → Headers) (s : HttpServer)
    (request : HttpRequest) (c : Connection)
    → find_key bytes_eq request.path s.chunked_routes ≡ none
    → handle_request read_file order s request c
      ≡ answer read_file order s request (noted request c)
unfolding handle_request
unstreamed read_file order s request c plain = elim (Bool-cases (same_method request.method get)) [
  | inl e ↦ rw (e, unrouted read_file order s request (noted request c) plain)
  | inr e ↦ rw e
]

-- A complete request for a path without a streamed route, on a connection where nothing is being
-- sent, is answered once: behind what was sent before, the response of the routes has been sent or
-- is pending, byte for byte, and the parser is as new.
pub on_receive-response :
    (read_file : Bytes → Option Bytes) (order : Headers → Headers) (s : HttpServer) (bytes : Bytes)
    (c : Session)
    → IsIdle read_file order s c
    → (feed_request order bytes c.parser).1.state ≡ complete
    → let request = (feed_request order bytes c.parser).1.message in
      find_key bytes_eq request.path s.chunked_routes ≡ none
      → let c' = on_receive read_file order s bytes c in
        (all_bytes c'.conn
          ≡ c.conn.sent ++ serialize_response order (response_to read_file s request))
        × (c'.parser ≡ new_request_parser)
on_receive-response read_file order s bytes c idle done plain =
    let request = (feed_request order bytes c.parser).1.message in
    let step =
      receive_idle read_file order s bytes c idle
      ∙ receive_complete read_file order s bytes c done in
    rw step (
      ap all_bytes (unstreamed read_file order s request c.conn plain)
          ∙ answer-all_bytes read_file order s request (noted request c.conn) idle.generator refl,
      refl,
    )
