-- ===== src/Http/Parser/Lines.antt =====
-- src/app/http_parser.cpp: parse_headers on the front of a buffer.
use neu_stack.Common.{
  ℕ, zero, suc, ◌+◌, ◌≤◌, ◌<◌, ◌≡◌, refl, ap, sym, ◌∙◌, ◌⊎◌, inl, inr, Bool, true, false, some, [],
  ◌∷◌, ◌++◌, length, length-append, length-drop, take, drop, take_append_le, drop_append_le, ltb,
  ◌==◌, if◌then◌else◌, arith, Bool-cases, Option-cases,
}
use mathlib.Core.Path.{subst}
use neu_stack.Http.Text.{Bytes, find_byte, find_crlf}
use neu_stack.Http.{add_header}
use neu_stack.Http.Parser.{
  in_body, complete, failed, invalid_header_line, HttpParser, Round, incomplete, ended, next_line,
  HeaderField, end_headers, header_line, header_round, header_lines_from, trim_left,
}
use neu_stack.Http.Parser.Rounds.{rank, more}

pub find_crlf-append :
    (b : Bytes) (k : ℕ) (bytes : Bytes)
    → find_crlf b ≡ some k
    → (find_crlf (b ++ bytes) ≡ some k) × (k + 2 ≤ length b)
unfolding find_crlf
find_crlf-append [] k bytes h = absurd (ground (arith, h))
find_crlf-append (x ∷ []) k bytes h = absurd (ground (arith, h))
find_crlf-append (x ∷ (y ∷ rest)) zero bytes h =
    ground (arith, h, find_crlf-append (y ∷ rest) 0 bytes)
find_crlf-append (x ∷ (y ∷ rest)) (suc k) bytes h =
    ground (arith, h, find_crlf-append (y ∷ rest) k bytes)

module _ {M : Type 0} (field : HeaderField M) where
  Round-cases :
      (r : Round M)
      → (r ≡ incomplete)
        ⊎ (((q : HttpParser M) × (r ≡ ended q)) ⊎ ((q : HttpParser M) × (r ≡ next_line q)))
  Round-cases incomplete = inl refl
  Round-cases (ended q) = inr (inl (q, refl))
  Round-cases (next_line q) = inr (inr (q, refl))

  -- What a round does to the buffer and the state, and that it does the same with more data.
  record Takes (bytes : Bytes) (p : HttpParser M) (r r' : Round M) : Type 0 where
    on_ended :
        (q : HttpParser M)
        → r ≡ ended q
        → (r' ≡ ended (more bytes q)) × (rank q.state ≤ 1) × (length q.buffer ≤ length p.buffer)
    on_next :
        (q : HttpParser M)
        → r ≡ next_line q
        → (r' ≡ next_line (more bytes q))
          × (q.state ≡ p.state)
          × (length q.buffer < length p.buffer)

  ended-inj : {q q' : HttpParser M} → ended q ≡ ended q' → q ≡ q'
  ended-inj h = cc

  next_line-inj : {q q' : HttpParser M} → next_line q ≡ next_line q' → q ≡ q'
  next_line-inj h = cc

  Takes-incomplete : (bytes : Bytes) (p : HttpParser M) (r' : Round M) → Takes bytes p incomplete r'
  Takes-incomplete bytes p r' = record {
    on_ended = λ q h. absurd (ground (arith, h));
    on_next = λ q h. absurd (ground (arith, h));
  }

  Takes-ended :
      (bytes : Bytes) (p q : HttpParser M)
      → rank q.state ≤ 1
      → length q.buffer ≤ length p.buffer
      → Takes bytes p (ended q) (ended (more bytes q))
  Takes-ended bytes p q h1 h2 = record {
    on_ended = λ q' h.
        subst
          (λ (t : HttpParser M).
            (ended (more bytes q) ≡ ended (more bytes t))
            × (rank t.state ≤ 1)
            × (length t.buffer ≤ length p.buffer))
          (ended-inj h) (refl, h1, h2);
    on_next = λ q' h. absurd (ground (arith, h));
  }

  Takes-next :
      (bytes : Bytes) (p q : HttpParser M)
      → q.state ≡ p.state
      → length q.buffer < length p.buffer
      → Takes bytes p (next_line q) (next_line (more bytes q))
  Takes-next bytes p q h1 h2 = record {
    on_ended = λ q' h. absurd (ground (arith, h));
    on_next = λ q' h.
        subst
          (λ (t : HttpParser M).
            (next_line (more bytes q) ≡ next_line (more bytes t))
            × (t.state ≡ p.state)
            × (length t.buffer < length p.buffer))
          (next_line-inj h) (refl, h1, h2);
  }

  Takes-eq :
      (bytes : Bytes) (p : HttpParser M) {r r' s s' : Round M}
      → r ≡ s
      → r' ≡ s'
      → Takes bytes p s s'
      → Takes bytes p r r'
  Takes-eq bytes p e e' h = rw (e, e') h

  body_rank : (n : ℕ) → rank (if ltb 0 n then in_body else complete) ≤ 1
  body_rank n = ground arith

  end_headers-rank : (p : HttpParser M) → rank (end_headers field p).state ≤ 1
  unfolding end_headers
  end_headers-rank p = body_rank (end_headers field p).content_length

  header_line-Takes :
      (bytes line : Bytes) (p q : HttpParser M)
      → q.state ≡ p.state
      → length q.buffer < length p.buffer
      → Takes bytes p (header_line field line q) (header_line field line (more bytes q))
  unfolding header_line
  header_line-Takes bytes line p q h1 h2 = elim (Option-cases (find_byte 58 line)) [
    | inl e ↦ Takes-eq bytes p (rw (e, header_line)) (rw (e, header_line)) (
        Takes-ended bytes p (record q { state = failed; error = invalid_header_line }) (omega arith)
          (omega (arith, h2)))
    | inr (colon, e) ↦ Takes-eq bytes p (rw (e, header_line)) (rw (e, header_line)) (
        Takes-next bytes p
          (record q {
            message =
                field.with_headers
                  (add_header (take colon line) (trim_left (drop (colon + 1) line))
                    (field.headers_of q.message))
                  q.message;
          })
          h1 h2)
  ]

  header_round-Takes :
      (bytes : Bytes) (p : HttpParser M)
      → Takes bytes p (header_round field p) (header_round field (more bytes p))
  unfolding header_round end_headers
  header_round-Takes bytes p = elim (Option-cases (find_crlf p.buffer)) [
    | inl e ↦
        Takes-eq bytes p (rw (e, header_round)) refl
          (Takes-incomplete bytes p (header_round field (more bytes p)))
    | inr (k, e) ↦
        let law = find_crlf-append p.buffer k bytes e in
        let front = take_append_le k p.buffer bytes (omega (arith, law.1)) in
        let rest = drop_append_le (k + 2) p.buffer bytes law.1 in
        let size = length-drop (k + 2) p.buffer in
        let size2 = length-drop 2 p.buffer in
        let rest2 = drop_append_le 2 p.buffer bytes (omega (arith, law.1)) in
        elim (Bool-cases (k == 0)) [
          | inl z ↦
              Takes-eq bytes p (rw (e, header_round, z)) (rw (law.0, header_round, z, rest2)) (
                Takes-ended bytes p (end_headers field (record p { buffer = drop 2 p.buffer }))
                  (end_headers-rank (record p { buffer = drop 2 p.buffer })) (omega (arith, size2)))
          | inr z ↦
              Takes-eq bytes p (rw (e, header_round, z)) (rw (law.0, header_round, z, rest, front))
                (header_line-Takes bytes (take k p.buffer) p
                  (record p { buffer = drop (k + 2) p.buffer }) refl (omega (arith, size, law.1)))
        ]
  ]

  -- Rounds for each byte of the buffer are enough.
  pub header_lines_fuel :
      (f f' : ℕ) (p : HttpParser M)
      → length p.buffer < f
      → length p.buffer < f'
      → header_lines_from field f p ≡ header_lines_from field f' p
  unfolding header_lines_from
  header_lines_fuel zero f' p h h' = absurd (omega (arith, h))
  header_lines_fuel (suc f) zero p h h' = absurd (omega (arith, h'))
  header_lines_fuel (suc f) (suc f') p h h' = elim (Round-cases (header_round field p)) [
    | inl e ↦ rw (e, header_lines_from)
    | inr (inl (q, e)) ↦ rw (e, header_lines_from)
    | inr (inr (q, e)) ↦
        let less = ((header_round-Takes [] p).on_next q e).2 in
        rw (e, header_lines_from)
          (header_lines_fuel f f' q (omega (arith, h, less)) (omega (arith, h', less)))
  ]

  -- The three outcomes of a round.
  lines_wait :
      (f : ℕ) (p : HttpParser M)
      → header_round field p ≡ incomplete
      → header_lines_from field (suc f) p ≡ (false, p)
  unfolding header_lines_from
  lines_wait f p e = rw (e, header_lines_from)

  lines_end :
      (f : ℕ) (p q : HttpParser M)
      → header_round field p ≡ ended q
      → header_lines_from field (suc f) p ≡ (true, q)
  unfolding header_lines_from
  lines_end f p q e = rw (e, header_lines_from)

  lines_next :
      (f : ℕ) (p q : HttpParser M)
      → header_round field p ≡ next_line q
      → header_lines_from field (suc f) p ≡ header_lines_from field f q
  unfolding header_lines_from
  lines_next f p q e = rw (e, header_lines_from)

  pub lines_moves :
      (f f' : ℕ) (p q : HttpParser M) (bytes : Bytes)
      → length (p.buffer ++ bytes) < f'
      → header_lines_from field f p ≡ (true, q)
      → (header_lines_from field f' (more bytes p) ≡ (true, more bytes q))
        × (rank q.state ≤ 1)
        × (length q.buffer ≤ length p.buffer)
  unfolding header_lines_from
  lines_moves zero f' p q bytes h' e = absurd (ground (arith, e))
  lines_moves (suc f) zero p q bytes h' e = absurd (omega (arith, h'))
  lines_moves (suc f) (suc f') p q bytes h' e = elim (Round-cases (header_round field p)) [
    | inl r ↦ absurd (ground (arith, lines_wait f p r, e))
    | inr (inl (q', r)) ↦
        let law = (header_round-Takes bytes p).on_ended q' r in
        let same : q' ≡ q = ap (λ (x : Bool × HttpParser M). x.1) (sym (lines_end f p q' r) ∙ e) in
        subst
          (λ (t : HttpParser M).
            (header_lines_from field (suc f') (more bytes p) ≡ (true, more bytes t))
            × (rank t.state ≤ 1)
            × (length t.buffer ≤ length p.buffer))
          same (lines_end f' (more bytes p) (more bytes q') law.0, law.1, law.2)
    | inr (inr (q', r)) ↦
        let law = (header_round-Takes bytes p).on_next q' r in
        let size = length-append p.buffer bytes in
        let size' = length-append q'.buffer bytes in
        let ih =
          lines_moves f f' q' q bytes (omega (arith, size, size', h', law.2))
            (sym (lines_next f p q' r) ∙ e) in
        (
          lines_next f' (more bytes p) (more bytes q') law.0 ∙ ih.0,
          ih.1,
          omega (arith, ih.2, law.2),
        )
  ]

  pub lines_waits :
      (f f' f'' : ℕ) (p q : HttpParser M) (bytes : Bytes)
      → length p.buffer < f
      → length (p.buffer ++ bytes) < f'
      → length (q.buffer ++ bytes) < f''
      → header_lines_from field f p ≡ (false, q)
      → (header_lines_from field f' (more bytes p) ≡ header_lines_from field f'' (more bytes q))
        × (q.state ≡ p.state)
        × (length q.buffer ≤ length p.buffer)
  lines_waits zero f' f'' p q bytes h h' h'' e = absurd (omega (arith, h))
  lines_waits (suc f) zero f'' p q bytes h h' h'' e = absurd (omega (arith, h'))
  lines_waits (suc f) (suc f') f'' p q bytes h h' h'' e =
      elim (Round-cases (header_round field p)) [
        | inl r ↦
            let same : p ≡ q = ap (λ (x : Bool × HttpParser M). x.1) (sym (lines_wait f p r) ∙ e) in
            subst
              (λ (t : HttpParser M).
                length (t.buffer ++ bytes) < f''
                → (header_lines_from field (suc f') (more bytes p)
                    ≡ header_lines_from field f'' (more bytes t))
                  × (t.state ≡ p.state)
                  × (length t.buffer ≤ length p.buffer))
              same (λ k. (header_lines_fuel (suc f') f'' (more bytes p) h' k, refl, omega arith))
              h''
        | inr (inl (q', r)) ↦ absurd (ground (arith, lines_end f p q' r, e))
        | inr (inr (q', r)) ↦
            let law = (header_round-Takes bytes p).on_next q' r in
            let size = length-append p.buffer bytes in
            let size' = length-append q'.buffer bytes in
            let ih =
              lines_waits f f' f'' q' q bytes (omega (arith, h, law.2))
                (omega (arith, size, size', h', law.2)) h'' (sym (lines_next f p q' r) ∙ e) in
            (
              lines_next f' (more bytes p) (more bytes q') law.0 ∙ ih.0,
              ih.1 ∙ law.1,
              omega (arith, ih.2, law.2),
            )
      ]
