-- ===== src/Http/Server/Stream.antt =====
-- src/app/http_server.cpp: what is sent on a connection: flush_pending, send_next_chunk and poll.
use neu_stack.Common.{
  ℕ, zero, suc, ◌+◌, Bool, true, false, not, Option, none, some, List, [], ◌∷◌, ◌++◌, length, take,
  drop, min, ltb, ◌==◌, if◌then◌else◌,
}
use neu_stack.Http.Text.{Bytes, codes, bytes_eq, print_nat}

-- IChunkedResponse: the chunks still to come, total_size and content_type; has_more says whether
-- there is a chunk.
pub record Generator : Type 0 where
  pub chunks : List Bytes
  pub total_size : ℕ
  pub type : Bytes

-- ConnectionState but its parser, and the IStreamConnection: the bytes that it has taken, how many
-- it takes in the calls of send that follow (0 stands for a full buffer or an error), and the calls
-- of close.
pub record Connection : Type 0 where
  pub keep_alive : Bool
  pub pending_data : Bytes
  pub pending_offset : ℕ
  pub generator : Option Generator
  pub header_sent : Bool
  pub sent : Bytes
  pub room : List ℕ
  pub closes : ℕ

abbrev pub new_connection : List ℕ → Connection
new_connection room = record {
  keep_alive = true;
  pending_data = [];
  pending_offset = 0;
  generator = none;
  header_sent = false;
  sent = [];
  room = room;
  closes = 0;
}

-- `conn->close()`
abbrev pub close : Connection → Connection
close c = record c { closes = c.closes + 1 }

abbrev pub close_unless_kept : Connection → Connection
close_unless_kept c = if c.keep_alive then c else close c

abbrev pub accepted : List ℕ → Bytes → ℕ
accepted [] bytes = 0
accepted (n ∷ later) bytes = min n (length bytes)

abbrev pub later_room : List ℕ → List ℕ
later_room [] = []
later_room (n ∷ later) = later

-- `conn->send(data, remaining)`
unfoldable pub conn_send : Bytes → Connection → ℕ × Connection
conn_send bytes c =
    let n = accepted c.room bytes in
    (n, record c { sent = c.sent ++ take n bytes; room = later_room c.room })

-- The loop that sends the pending data: whether all of them are sent. Each round sends a byte.
unfoldable pub send_pending : ℕ → Connection → Bool × Connection
send_pending zero c = (true, c)
send_pending (suc fuel) c =
    let rest = drop c.pending_offset c.pending_data in
    let (n, c') = conn_send rest c in
    let again = send_pending fuel (record c' { pending_offset = c.pending_offset + n }) in
    if ltb c.pending_offset (length c.pending_data)
    then (if n == 0 then (false, c') else again)
    else (true, c)

-- The loop, and the pending data cleared when they are sent.
unfoldable pub drain_pending : Connection → Bool × Connection
drain_pending c =
    let (done, c') = send_pending (length c.pending_data) c in
    (done, if done then record c' { pending_data = []; pending_offset = 0 } else c')

-- HttpServer::flush_pending
unfoldable pub flush_pending : Connection → Bool × Connection
flush_pending c =
    let (done, c') = drain_pending c in (done, if done then close_unless_kept c' else c')

-- The header of a streamed response.
unfoldable pub chunked_header : Bool → Generator → Bytes
chunked_header keep_alive g =
    codes "HTTP/1.1 200 OK\r\n"
    ++ (codes "Content-Type: "
        ++ (g.type
            ++ (codes "\r\n"
                ++ (codes "Cache-Control: no-cache\r\n"
                    ++ ((if ltb 0 g.total_size
                          then codes "Content-Length: " ++ (print_nat g.total_size ++ codes "\r\n")
                          else codes "Transfer-Encoding: chunked\r\n")
                        ++ ((if keep_alive then [] else codes "Connection: close\r\n")
                            ++ codes "\r\n"))))))

-- The loop that sends a chunk: what is left of it.
unfoldable pub send_chunk : ℕ → Bytes → Connection → Bytes × Connection
send_chunk zero bytes c = (bytes, c)
send_chunk (suc fuel) [] c = ([], c)
send_chunk (suc fuel) (b ∷ bytes) c =
    let (n, c') = conn_send (b ∷ bytes) c in
    let again = send_chunk fuel (drop n (b ∷ bytes)) c' in if n == 0 then (b ∷ bytes, c') else again

-- The loop over the chunks: whether it was left with no byte pending, the chunks left, and the
-- connection.
unfoldable pub send_chunks : List Bytes → Connection → Bool × List Bytes × Connection
send_chunks [] c = (true, [], c)
send_chunks ([] ∷ later) c = (true, later, c)
send_chunks ((b ∷ bytes) ∷ later) c =
    let (left, c') = send_chunk (suc (length bytes)) (b ∷ bytes) c in
    let next = send_chunks later c' in
    elim left [
      | [] ↦ next
      | l ∷ ls ↦ (false, later, record c' { pending_data = l ∷ ls; pending_offset = 0 })
    ]

-- What send_next_chunk does behind the header and the pending data.
unfoldable pub stream_chunks : Generator → Connection → Bool × Connection
stream_chunks g c =
    let (sent, later, c') = send_chunks g.chunks c in
    let kept = record c' { generator = some (record g { chunks = later }) } in
    if not sent then (false, kept) else elim later [
      | [] ↦ (true, close_unless_kept (record c' { generator = none }))
      | l ∷ ls ↦ (false, kept)
    ]

-- The header becomes the pending data, once.
unfoldable pub begin_stream : Generator → Connection → Connection
begin_stream g c = if c.header_sent then c else record c {
  pending_data = chunked_header c.keep_alive g;
  pending_offset = 0;
  header_sent = true;
}

-- send_next_chunk with a generator: the header and the pending data first, then chunks.
unfoldable pub continue_stream : Generator → Connection → Bool × Connection
continue_stream g c =
    let (done, c') = drain_pending (begin_stream g c) in
    let next = stream_chunks g c' in if done then next else (false, c')

-- HttpServer::send_next_chunk
unfoldable pub send_next_chunk : Connection → Bool × Connection
unfolding continue_stream
send_next_chunk c = elim c.generator [ none ↦ (true, c) | some g ↦ continue_stream g c ]

-- HttpServer::poll, for one connection.
unfoldable pub poll : Connection → Connection
poll c = elim c.generator [
  | some g ↦ (send_next_chunk c).1
  | none ↦ if bytes_eq c.pending_data [] then c else (flush_pending c).1
]
