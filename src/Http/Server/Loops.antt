-- ===== src/Http/Server/Loops.antt =====
-- src/app/http_server.cpp: the loop that sends the chunks of a generator.
use neu_stack.Common.{
  ℕ, zero, suc, ◌≡◌, refl, ap, sym, ◌∙◌, ◌⊎◌, inl, inr, Bool, true, List, [], ◌∷◌, ◌++◌, length,
  drop, drop-nil, ◌==◌, arith, Bool-cases,
}
use mathlib.Core.List.{append_assoc, append-nil}
use mathlib.Core.Path.{subst}
use neu_stack.Http.Text.{Bytes}
use neu_stack.Http.Parser.Rounds.{concat}
use neu_stack.Http.Server.Stream.{Connection, conn_send, send_chunk, send_chunks}
use neu_stack.Http.Server.Pending.{conn_send-sent, handed}

-- What sending chunks leaves alone.
record Streams (c c' : Connection) : Type 0 where
  pub keep_alive : c'.keep_alive ≡ c.keep_alive
  pub header_sent : c'.header_sent ≡ c.header_sent
  pub data_kept : c'.pending_data ≡ c.pending_data
  pub offset_kept : c'.pending_offset ≡ c.pending_offset

sent-Streams : (bytes : Bytes) (c : Connection) → Streams c (conn_send bytes c).1
unfolding conn_send
sent-Streams bytes c = record {
  keep_alive = refl;
  header_sent = refl;
  data_kept = refl;
  offset_kept = refl;
}

Streams-trans : {c c' c'' : Connection} → Streams c c' → Streams c' c'' → Streams c c''
Streams-trans h k = record {
  keep_alive = k.keep_alive ∙ h.keep_alive;
  header_sent = k.header_sent ∙ h.header_sent;
  data_kept = k.data_kept ∙ h.data_kept;
  offset_kept = k.offset_kept ∙ h.offset_kept;
}

Streams-refl : (c : Connection) → Streams c c
Streams-refl c = record {
  keep_alive = refl;
  header_sent = refl;
  data_kept = refl;
  offset_kept = refl;
}

send_chunk-sent :
    (fuel : ℕ) (bytes : Bytes) (c : Connection)
    → let r = send_chunk fuel bytes c in (r.1.sent ++ r.0 ≡ c.sent ++ bytes) × Streams c r.1
unfolding send_chunk
send_chunk-sent zero bytes c = (refl, Streams-refl c)
send_chunk-sent (suc fuel) [] c = (refl, Streams-refl c)
send_chunk-sent (suc fuel) (b ∷ bytes) c =
    let r = conn_send (b ∷ bytes) c in
    let kept = conn_send-sent (b ∷ bytes) c in
    let alone = sent-Streams (b ∷ bytes) c in
    elim (Bool-cases (r.0 == 0)) [
      | inl z ↦
          let none' : r.0 ≡ 0 = ground (arith, z) in
          rw (z, send_chunk)
            (subst (λ k. r.1.sent ++ drop k (b ∷ bytes) ≡ c.sent ++ b ∷ bytes) none' kept, alone)
      | inr z ↦
          let ih = send_chunk-sent fuel (drop r.0 (b ∷ bytes)) r.1 in
          rw (z, send_chunk) (ih.0 ∙ kept, Streams-trans alone ih.1)
    ]

-- The chunks sent, pending and left, for a connection with no pending data.
pub record Chunked (chunks : List Bytes) (c : Connection) (r : Bool × List Bytes × Connection)
    : Type 0 where
  pub bytes : handed r.2 ++ concat r.1 ≡ c.sent ++ concat chunks
  pub keep_alive : r.2.keep_alive ≡ c.keep_alive
  pub header_sent : r.2.header_sent ≡ c.header_sent
  pub empty : r.0 ≡ true → (r.2.pending_data ≡ []) × (r.2.pending_offset ≡ 0)

pub handed_empty : (c : Connection) → c.pending_data ≡ [] → handed c ≡ c.sent
handed_empty c e =
    ap (λ d. c.sent ++ drop c.pending_offset d) e
    ∙ ap (λ d. c.sent ++ d) (drop-nil c.pending_offset)
    ∙ append-nil c.sent

pub List-cases : {A : Type 0} (xs : List A) → (xs ≡ []) ⊎ ((x : A) × (ys : List A) × (xs ≡ x ∷ ys))
List-cases [] = inl refl
List-cases (x ∷ xs) = inr (x, xs, refl)

pub send_chunks-Chunked :
    (chunks : List Bytes) (c : Connection)
    → c.pending_data ≡ []
    → c.pending_offset ≡ 0
    → Chunked chunks c (send_chunks chunks c)
unfolding send_chunks
send_chunks-Chunked [] c e o = record {
  bytes = ap (λ b. b ++ []) (handed_empty c e);
  keep_alive = refl;
  header_sent = refl;
  empty = λ h. (e, o);
}
send_chunks-Chunked ([] ∷ later) c e o = record {
  bytes = ap (λ b. b ++ concat later) (handed_empty c e);
  keep_alive = refl;
  header_sent = refl;
  empty = λ h. (e, o);
}
send_chunks-Chunked ((b ∷ bytes) ∷ later) c e o =
    let chunk = b ∷ bytes in
    let r = send_chunk (suc (length bytes)) chunk c in
    let law = send_chunk-sent (suc (length bytes)) chunk c in
    let joined = append_assoc c.sent chunk (concat later) in
    elim (List-cases r.0) [
      | inl all ↦
          let whole : r.1.sent ≡ c.sent ++ chunk =
            sym (append-nil r.1.sent) ∙ ap (λ d. r.1.sent ++ d) (sym all) ∙ law.0 in
          let ih = send_chunks-Chunked later r.1 (law.1.data_kept ∙ e) (law.1.offset_kept ∙ o) in
          rw (all, send_chunks)
            record {
              bytes = ih.bytes ∙ ap (λ d. d ++ concat later) whole ∙ joined;
              keep_alive = ih.keep_alive ∙ law.1.keep_alive;
              header_sent = ih.header_sent ∙ law.1.header_sent;
              empty = ih.empty;
            }
      | inr (l, ls, some') ↦
          let whole : r.1.sent ++ l ∷ ls ≡ c.sent ++ chunk =
            ap (λ d. r.1.sent ++ d) (sym some') ∙ law.0 in
          rw (some', send_chunks)
            record {
              bytes = ap (λ d. d ++ concat later) whole ∙ joined;
              keep_alive = law.1.keep_alive;
              header_sent = law.1.header_sent;
              empty = λ h. absurd (ground (arith, h));
            }
    ]
