-- ===== src/Http/Server/Begun.antt =====
-- src/app/http_server.cpp: the bytes of a streamed response from its beginning on.
use neu_stack.Common.{
  ◌≡◌, ap, sym, ◌∙◌, inl, inr, Bool, true, false, none, some, List, [], ◌++◌, arith, Bool-cases,
}
use mathlib.Core.List.{append_assoc, append-nil}
use neu_stack.Http.Text.{Bytes}
use neu_stack.Http.Parser.Rounds.{concat}
use neu_stack.Http.Server.Stream.{
  Generator, Connection, close_unless_kept, chunked_header, send_chunks, stream_chunks,
  begin_stream,
}
use neu_stack.Http.Server.Loops.{handed_empty, List-cases, send_chunks-Chunked}
use neu_stack.Http.Server.Pending.{handed, to_stream, all_bytes}

-- The close behind a response changes no byte.
pub close-all_bytes : (c : Connection) → all_bytes (close_unless_kept c) ≡ all_bytes c
close-all_bytes c = elim (Bool-cases c.keep_alive) [ inl e ↦ rw e | inr e ↦ rw e ]

close-sent : (c : Connection) → (close_unless_kept c).sent ≡ c.sent
close-sent c = elim (Bool-cases c.keep_alive) [ inl e ↦ rw e | inr e ↦ rw e ]

pub close-generator : (c : Connection) → (close_unless_kept c).generator ≡ c.generator
close-generator c = elim (Bool-cases c.keep_alive) [ inl e ↦ rw e | inr e ↦ rw e ]

kept_bytes :
    (g : Generator) (c : Connection) (later : List Bytes)
    → c.header_sent ≡ true
    → all_bytes (record c { generator = some (record g { chunks = later }) })
      ≡ handed c ++ concat later
kept_bytes g c later e = rw e

-- What is done behind the header and the pending data, once both are sent.
pub record Streamed (g : Generator) (c : Connection) (r : Bool × Connection) : Type 0 where
  pub bytes : all_bytes r.1 ≡ c.sent ++ concat g.chunks
  pub finished : r.0 ≡ true → r.1.sent ≡ c.sent ++ concat g.chunks

pub stream_chunks-Streamed :
    (g : Generator) (c : Connection)
    → c.pending_data ≡ []
    → c.pending_offset ≡ 0
    → c.header_sent ≡ true
    → Streamed g c (stream_chunks g c)
unfolding stream_chunks
stream_chunks-Streamed g c e o begun =
    let r = send_chunks g.chunks c in
    let law = send_chunks-Chunked g.chunks c e o in
    let begun' = law.header_sent ∙ begun in
    elim (Bool-cases r.0) [
      | inl all ↦ elim (List-cases r.1) [
        | inl over ↦
            let c' = record (r.2) { generator = none } in
            let whole : r.2.sent ≡ c.sent ++ concat g.chunks =
              sym (handed_empty r.2 (law.empty all).0)
              ∙ sym (append-nil (handed r.2))
              ∙ ap (λ l. handed r.2 ++ concat l) (sym over)
              ∙ law.bytes in
            rw (all, stream_chunks, over)
              record {
                bytes =
                    close-all_bytes c'
                    ∙ append-nil (handed r.2)
                    ∙ handed_empty r.2 (law.empty all).0
                    ∙ whole;
                finished = λ h. close-sent c' ∙ whole;
              }
        | inr (l, ls, more) ↦
            rw (all, stream_chunks, more)
              record {
                bytes = kept_bytes g r.2 r.1 begun' ∙ law.bytes;
                finished = λ h. absurd (ground (arith, h));
              }
      ]
      | inr blocked ↦
          rw (blocked, stream_chunks)
            record {
              bytes = kept_bytes g r.2 r.1 begun' ∙ law.bytes;
              finished = λ h. absurd (ground (arith, h));
            }
    ]

-- A header that has not been sent has nothing pending in front of it.
abbrev pub IsSending : Connection → Type 0
IsSending c = (g : Generator) → c.generator ≡ some g → c.header_sent ≡ false → c.pending_data ≡ []

pub streaming_bytes :
    (g : Generator) (c : Connection)
    → c.generator ≡ some g
    → c.header_sent ≡ true
    → c.pending_data ≡ []
    → all_bytes c ≡ c.sent ++ concat g.chunks
streaming_bytes g c e begun empty =
    (λ i. handed_empty c empty i ++ to_stream c.keep_alive (begun i) (e i))

pub begin_stream-all_bytes :
    (g : Generator) (c : Connection)
    → c.generator ≡ some g
    → IsSending c
    → all_bytes (begin_stream g c) ≡ all_bytes c
unfolding begin_stream
begin_stream-all_bytes g c e sending = elim (Bool-cases c.header_sent) [
  | inl begun ↦ rw begun
  | inr fresh ↦
      let header = chunked_header c.keep_alive g in
      let empty = handed_empty c (sending g e fresh) in
      let same =
        append_assoc c.sent header (concat g.chunks)
        ∙ ap (λ b. b ++ (header ++ concat g.chunks)) (sym empty) in
      rw (fresh, e) same
]

pub begin_stream-begun : (g : Generator) (c : Connection) → (begin_stream g c).header_sent ≡ true
unfolding begin_stream
begin_stream-begun g c = ground arith

pub begin_stream-generator :
    (g : Generator) (c : Connection) → (begin_stream g c).generator ≡ c.generator
unfolding begin_stream
begin_stream-generator g c = ground arith

-- A step that loses nothing; the second part says that a streamed response is out when it is over.
pub record Sends (c : Connection) (r : Bool × Connection) : Type 0 where
  pub bytes : all_bytes r.1 ≡ all_bytes c
  pub begun : r.1.header_sent ≡ true
  pub finished : r.0 ≡ true → r.1.sent ≡ all_bytes c
