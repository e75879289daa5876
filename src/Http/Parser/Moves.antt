-- ===== src/Http/Parser/Moves.antt =====
-- src/app/http_parser.cpp: when a case of the loop of feed moves on, and when it waits for more.
use neu_stack.Common.{
  suc, ◌+◌, ◌≤◌, ◌<◌, ◌≡◌, refl, ap, sym, ◌∙◌, inl, inr, Bool, true, false, ◌++◌, length,
  length-append, length-drop, take, drop, take_append_le, drop_append_le, leb, arith, Bool-cases,
  Option-cases,
}
use mathlib.Core.Path.{subst}
use neu_stack.Http.Text.{Bytes, find_crlf, stoi_safe}
use neu_stack.Http.Parser.{
  State, first_line, in_headers, in_body, complete, HttpParser, HeaderField, with_line,
  parse_headers, parse_body, request_line,
}
use neu_stack.Http.Parser.Response.{set_status, status_line}
use neu_stack.Http.Parser.Rounds.{rank, more}
use neu_stack.Http.Parser.Lines.{find_crlf-append, lines_moves, lines_waits}

-- What is done with a first line leaves the buffer alone and moves on.
pub record IsFirst {M : Type 0} (line : Bytes → HttpParser M → HttpParser M) : Type 0 where
  pub keeps :
      (text bytes : Bytes) (p : HttpParser M) → line text (more bytes p) ≡ more bytes (line text p)
  pub lowers : (text : Bytes) (p : HttpParser M) → rank (line text p).state ≤ 2
  pub leaves : (text : Bytes) (p : HttpParser M) → (line text p).buffer ≡ p.buffer

pub request_line-IsFirst : IsFirst request_line
unfolding request_line
request_line-IsFirst = record {
  keeps = λ text bytes p. ground arith;
  lowers = λ text p. ground arith;
  leaves = λ text p. ground arith;
}

set_status-IsFirst : IsFirst (λ text. set_status (stoi_safe text))
unfolding set_status
set_status-IsFirst = record {
  keeps = λ text bytes p. ground arith;
  lowers = λ text p. ground arith;
  leaves = λ text p. ground arith;
}

pub status_line-IsFirst : IsFirst status_line
unfolding status_line set_status
status_line-IsFirst = record {
  keeps = λ text bytes p. ground arith;
  lowers = λ text p. ground arith;
  leaves = λ text p. ground arith;
}

-- The laws of IsIncremental for one case of the switch, at state `s`.
abbrev pub MovesAt : {M : Type 0} → State → (HttpParser M → Bool × HttpParser M) → Type 0
MovesAt {M} s f =
    (p q : HttpParser M) (bytes : Bytes)
    → f p ≡ (true, q)
    → (f (more bytes p) ≡ (true, more bytes q))
      × (rank q.state < rank s)
      × (length q.buffer ≤ length p.buffer)

abbrev pub WaitsAt : {M : Type 0} → (HttpParser M → Bool × HttpParser M) → Type 0
WaitsAt {M} f =
    (p q : HttpParser M) (bytes : Bytes)
    → f p ≡ (false, q)
    → (f (more bytes p) ≡ f (more bytes q))
      × (q.state ≡ p.state)
      × (length q.buffer ≤ length p.buffer)

module _ {M : Type 0} where
  -- A pair taken apart.
  true-inj : {q q' : HttpParser M} → ◌≡◌ {A = Bool × HttpParser M} (true, q) (true, q') → q ≡ q'
  true-inj h = ap (λ (x : Bool × HttpParser M). x.1) h

  pub moves_to :
      (s : State) (f : HttpParser M → Bool × HttpParser M) (p r q : HttpParser M) (bytes : Bytes)
      → f p ≡ (true, r)
      → f (more bytes p) ≡ (true, more bytes r)
      → rank r.state < rank s
      → length r.buffer ≤ length p.buffer
      → f p ≡ (true, q)
      → (f (more bytes p) ≡ (true, more bytes q))
        × (rank q.state < rank s)
        × (length q.buffer ≤ length p.buffer)
  moves_to s f p r q bytes e e' h1 h2 h =
      subst
        (λ (t : HttpParser M).
          (f (more bytes p) ≡ (true, more bytes t))
          × (rank t.state < rank s)
          × (length t.buffer ≤ length p.buffer))
        (true-inj (sym e ∙ h)) (e', h1, h2)

  -- A case that waits with the parser as it was.
  waits_with :
      (f : HttpParser M → Bool × HttpParser M) (p q : HttpParser M) (bytes : Bytes)
      → f p ≡ (false, p)
      → f p ≡ (false, q)
      → (f (more bytes p) ≡ f (more bytes q))
        × (q.state ≡ p.state)
        × (length q.buffer ≤ length p.buffer)
  waits_with f p q bytes e h =
      subst
        (λ (t : HttpParser M).
          (f (more bytes p) ≡ f (more bytes t))
          × (t.state ≡ p.state)
          × (length t.buffer ≤ length p.buffer))
        (ap (λ (x : Bool × HttpParser M). x.1) (sym e ∙ h)) (refl, refl, omega arith)

  pub with_line-moves :
      (line : Bytes → HttpParser M → HttpParser M)
      → IsFirst line
      → MovesAt first_line (with_line line)
  unfolding with_line
  with_line-moves line first p q bytes h = elim (Option-cases (find_crlf p.buffer)) [
    | inl e ↦ absurd (ground (arith, e, h))
    | inr (k, e) ↦
        let law = find_crlf-append p.buffer k bytes e in
        let front = take_append_le k p.buffer bytes (omega (arith, law.1)) in
        let rest = drop_append_le (k + 2) p.buffer bytes law.1 in
        let size = length-drop (k + 2) p.buffer in
        let text = take k p.buffer in
        let p' = record p { buffer = drop (k + 2) p.buffer } in
        let r = line text p' in
        let leaves = ap length (first.leaves text p') in
        moves_to first_line (with_line line) p r q bytes (rw (e, with_line))
          (rw (law.0, with_line, rest, front) (ap (λ t. (true, t)) (first.keeps text bytes p')))
          (omega (arith, first.lowers text p')) (omega (arith, leaves, size)) h
  ]

  pub with_line-waits : (line : Bytes → HttpParser M → HttpParser M) → WaitsAt (with_line line)
  unfolding with_line
  with_line-waits line p q bytes h = elim (Option-cases (find_crlf p.buffer)) [
    | inl e ↦ waits_with (with_line line) p q bytes (rw (e, with_line)) h
    | inr (k, e) ↦ absurd (ground (arith, e, h))
  ]

  pub parse_headers-moves : (field : HeaderField M) → MovesAt in_headers (parse_headers field)
  unfolding parse_headers
  parse_headers-moves field p q bytes h =
      let law =
        lines_moves field (suc (length p.buffer)) (suc (length (p.buffer ++ bytes))) p q bytes
          (omega arith) h in
      (law.0, omega (arith, law.1), law.2)

  pub parse_headers-waits : (field : HeaderField M) → WaitsAt (parse_headers field)
  unfolding parse_headers
  parse_headers-waits field p q bytes h =
      lines_waits field (suc (length p.buffer)) (suc (length (p.buffer ++ bytes)))
        (suc (length (q.buffer ++ bytes))) p q bytes (omega arith) (omega arith) (omega arith) h

  pub parse_body-moves : (with_body : Bytes → M → M) → MovesAt in_body (parse_body with_body)
  unfolding parse_body
  parse_body-moves with_body p q bytes h =
      elim (Bool-cases (leb p.content_length (length p.buffer))) [
        | inl e ↦
            let n = p.content_length in
            let fits : n ≤ length p.buffer = ground (arith, e) in
            let e' : leb n (length (p.buffer ++ bytes)) ≡ true =
              ground (arith, length-append p.buffer bytes, fits) in
            let front = take_append_le n p.buffer bytes fits in
            let rest = drop_append_le n p.buffer bytes fits in
            let r = record p {
              message = with_body (take n p.buffer) p.message;
              buffer = drop n p.buffer;
              state = complete;
            } in
            moves_to in_body (parse_body with_body) p r q bytes (rw (e, parse_body))
              (rw (e', parse_body, front, rest)) (omega arith)
              (omega (arith, length-drop n p.buffer)) h
        | inr e ↦ absurd (ground (arith, e, h))
      ]

  pub parse_body-waits : (with_body : Bytes → M → M) → WaitsAt (parse_body with_body)
  unfolding parse_body
  parse_body-waits with_body p q bytes h =
      elim (Bool-cases (leb p.content_length (length p.buffer))) [
        | inl e ↦ absurd (ground (arith, e, h))
        | inr e ↦ waits_with (parse_body with_body) p q bytes (rw (e, parse_body)) h
      ]
