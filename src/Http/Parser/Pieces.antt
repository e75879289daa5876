-- ===== src/Http/Parser/Pieces.antt =====
-- src/app/http_parser.cpp: feed on a message in pieces, for any cases that take the buffer from its
-- front.
use neu_stack.Common.{
  ◌+◌, ◌≤◌, ◌≡◌, refl, ap, sym, ◌∙◌, inl, inr, List, [], ◌∷◌, ◌++◌, length, length-append, arith,
  Bool-cases,
}
use mathlib.Core.List.{append_assoc, append-nil}
use neu_stack.Http.Text.{Bytes}
use neu_stack.Http.Parser.{
  HttpError, HttpParser, max_buffer_size, is_finished, Cases, feed_loop, feed_with,
}
use neu_stack.Http.Parser.Rounds.{
  concat, more, Same, Same-refl, Same-eq, Same-sym, Same-trans, IsIncremental, resume, fed,
  feed_all, resume_finished, resume_running, loop-more, loop-length, rank-le,
}

module _ {M : Type 0} (cases : Cases M) (inc : IsIncremental cases) where
  -- Below the limit of the buffer feed is what resume says.
  fed-resume :
      (too_large : HttpError) (bytes : Bytes) (p : HttpParser M)
      → length p.buffer + length bytes ≤ max_buffer_size
      → fed cases too_large bytes p ≡ resume cases bytes p
  unfolding feed_with
  fed-resume too_large bytes p h = ground (arith, length-append p.buffer bytes)

  resume-append :
      (xs ys : Bytes) (p : HttpParser M)
      → Same (resume cases (xs ++ ys) p) (resume cases ys (resume cases xs p))
  resume-append xs ys p = elim (Bool-cases (is_finished p.state)) [
    | inl done ↦
        let first = resume_finished cases inc xs p done in
        Same-eq (resume_finished cases inc (xs ++ ys) p done)
          (ap (resume cases ys) first ∙ resume_finished cases inc ys p done) (Same-refl p)
    | inr running ↦
        let joined = ap (λ b. record p { buffer = b }) (sym (append_assoc p.buffer xs ys)) in
        Same-eq (resume_running cases inc (xs ++ ys) p running ∙ ap (feed_loop cases 3) joined)
          (ap (resume cases ys) (resume_running cases inc xs p running))
          (loop-more cases inc 3 (more xs p) ys (rank-le p.state) (omega arith))
  ]

  resume-length :
      (xs : Bytes) (p : HttpParser M)
      → length (resume cases xs p).buffer ≤ length p.buffer + length xs
  resume-length xs p = elim (Bool-cases (is_finished p.state)) [
    | inl done ↦
        let same =
          ap (λ (r : HttpParser M). length r.buffer) (resume_finished cases inc xs p done) in
        omega (arith, same)
    | inr running ↦
        let same =
          ap (λ (r : HttpParser M). length r.buffer) (resume_running cases inc xs p running) in
        omega (arith, same, loop-length cases inc 3 (more xs p), length-append p.buffer xs)
  ]

  -- Pieces that the buffer has room for, of which there is one at least, give what they give at
  -- once.
  pub feed_all-concat :
      (too_large : HttpError) (bytes : Bytes) (rest : List Bytes) (p : HttpParser M)
      → length p.buffer + length (concat (bytes ∷ rest)) ≤ max_buffer_size
      → Same
          (feed_all cases too_large (bytes ∷ rest) p)
          (fed cases too_large (concat (bytes ∷ rest)) p)
  feed_all-concat too_large bytes [] p h =
      Same-eq refl (ap (λ b. fed cases too_large b p) (append-nil bytes))
        (Same-refl (fed cases too_large bytes p))
  feed_all-concat too_large bytes (next ∷ rest) p h =
      let tail = concat (next ∷ rest) in
      let size = length-append bytes tail in
      let q = fed cases too_large bytes p in
      let first = fed-resume too_large bytes p (omega (arith, h, size)) in
      let room = ap (λ (r : HttpParser M). length r.buffer) first in
      let small : length q.buffer + length tail ≤ max_buffer_size =
        omega (arith, room, resume-length bytes p, h, size) in
      let later = feed_all-concat too_large next rest q small in
      let once = fed-resume too_large (bytes ++ tail) p h in
      let twice = fed-resume too_large tail q small ∙ ap (resume cases tail) first in
      Same-trans later (Same-eq twice once (Same-sym (resume-append bytes tail p)))
