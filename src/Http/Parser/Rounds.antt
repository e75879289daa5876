-- ===== src/Http/Parser/Rounds.antt =====
-- src/app/http_parser.cpp: the rounds of the loop of feed, for any cases that take the buffer from
-- its front.
use neu_stack.Common.{
  ℕ, zero, suc, ◌≤◌, ◌<◌, ◌≡◌, refl, ap, sym, ◌∙◌, ◌⊎◌, inl, inr, Bool, true, false, List, [], ◌∷◌,
  ◌++◌, length, if◌then◌else◌, arith, Bool-cases,
}
use neu_stack.Http.Text.{Bytes}
use neu_stack.Http.Parser.{
  State, first_line, in_headers, in_body, complete, failed, HttpError, HttpParser, is_finished,
  Cases, go_on, feed_loop, feed_with,
}

abbrev pub concat : List Bytes → Bytes
concat [] = []
concat (bytes ∷ rest) = bytes ++ concat rest

-- The states that are left.
abbrev pub rank : State → ℕ
rank first_line = 3
rank in_headers = 2
rank in_body = 1
rank complete = 0
rank failed = 0

rank-pos : (s : State) → is_finished s ≡ false → 0 < rank s
rank-pos first_line h = omega arith
rank-pos in_headers h = omega arith
rank-pos in_body h = omega arith
rank-pos complete h = absurd (ground (arith, h))
rank-pos failed h = absurd (ground (arith, h))

pub rank-le : (s : State) → rank s ≤ 3
rank-le first_line = omega arith
rank-le in_headers = omega arith
rank-le in_body = omega arith
rank-le complete = omega arith
rank-le failed = omega arith

abbrev pub more : {M : Type 0} → Bytes → HttpParser M → HttpParser M
more bytes p = record p { buffer = p.buffer ++ bytes }

-- The cases read the buffer from its front: what returns true does not depend on what follows, and
-- what waits has lost nothing.
pub record IsIncremental {M : Type 0} (cases : Cases M) : Type 0 where
  pub moves :
      (p q : HttpParser M) (bytes : Bytes)
      → is_finished p.state ≡ false
      → cases p.state p ≡ (true, q)
      → (cases p.state (more bytes p) ≡ (true, more bytes q))
        × (rank q.state < rank p.state)
        × (length q.buffer ≤ length p.buffer)
  pub waits :
      (p q : HttpParser M) (bytes : Bytes)
      → is_finished p.state ≡ false
      → cases p.state p ≡ (false, q)
      → (cases p.state (more bytes p) ≡ cases q.state (more bytes q))
        × (q.state ≡ p.state)
        × (length q.buffer ≤ length p.buffer)

-- The same result; what is behind a finished message may differ.
pub record Same {M : Type 0} (p q : HttpParser M) : Type 0 where
  pub state : p.state ≡ q.state
  pub error : p.error ≡ q.error
  pub content_length : p.content_length ≡ q.content_length
  pub message : p.message ≡ q.message
  pub buffer : is_finished p.state ≡ false → p.buffer ≡ q.buffer

pub pair-cases :
    {A : Type 0} (x : Bool × A) → ((q : A) × (x ≡ (true, q))) ⊎ ((q : A) × (x ≡ (false, q)))
pair-cases (true, q) = inl (q, refl)
pair-cases (false, q) = inr (q, refl)

pub Same-refl : {M : Type 0} (p : HttpParser M) → Same p p
Same-refl p = record {
  state = refl;
  error = refl;
  content_length = refl;
  message = refl;
  buffer = λ h. refl;
}

Same-more :
    {M : Type 0} (p : HttpParser M) (bytes : Bytes)
    → is_finished p.state ≡ true
    → Same (more bytes p) p
Same-more p bytes done = record {
  state = refl;
  error = refl;
  content_length = refl;
  message = refl;
  buffer = λ h. absurd (ground (arith, done, h));
}

pub Same-sym : {M : Type 0} {p q : HttpParser M} → Same p q → Same q p
Same-sym h = record {
  state = sym h.state;
  error = sym h.error;
  content_length = sym h.content_length;
  message = sym h.message;
  buffer = λ running. sym (h.buffer (ap is_finished h.state ∙ running));
}

pub Same-trans : {M : Type 0} {p q r : HttpParser M} → Same p q → Same q r → Same p r
Same-trans h k = record {
  state = h.state ∙ k.state;
  error = h.error ∙ k.error;
  content_length = h.content_length ∙ k.content_length;
  message = h.message ∙ k.message;
  buffer = λ open'. h.buffer open' ∙ k.buffer (ap is_finished (sym h.state) ∙ open');
}

pub Same-eq : {M : Type 0} {p p' q q' : HttpParser M} → p ≡ p' → q ≡ q' → Same p' q' → Same p q
Same-eq e e' h = rw (e, e') h

module _ {M : Type 0} (cases : Cases M) where
  -- What feed does with the next piece.
  abbrev pub resume : Bytes → HttpParser M → HttpParser M
  resume bytes p = if is_finished p.state then p else feed_loop cases 3 (more bytes p)

  abbrev pub fed : HttpError → Bytes → HttpParser M → HttpParser M
  fed too_large bytes p = (feed_with cases too_large bytes p).1

  -- The pieces one after the other.
  abbrev pub feed_all : HttpError → List Bytes → HttpParser M → HttpParser M
  feed_all too_large [] p = p
  feed_all too_large (bytes ∷ rest) p = feed_all too_large rest (fed too_large bytes p)

module _ {M : Type 0} (cases : Cases M) (inc : IsIncremental cases) where
  loop_step :
      (fuel : ℕ) (p : HttpParser M)
      → is_finished p.state ≡ false
      → feed_loop cases (suc fuel) p ≡ go_on (feed_loop cases fuel) (cases p.state p)
  unfolding feed_loop
  loop_step fuel p h = rw (h, feed_loop)

  loop_stop :
      (fuel : ℕ) (p : HttpParser M) → is_finished p.state ≡ true → feed_loop cases fuel p ≡ p
  unfolding feed_loop
  loop_stop zero p h = refl
  loop_stop (suc fuel) p h = rw (h, feed_loop)

  -- A round that moves on, and a round that waits.
  loop_moves :
      (fuel : ℕ) (p q : HttpParser M)
      → is_finished p.state ≡ false
      → cases p.state p ≡ (true, q)
      → feed_loop cases (suc fuel) p ≡ feed_loop cases fuel q
  loop_moves fuel p q h e = loop_step fuel p h ∙ ap (go_on (feed_loop cases fuel)) e

  loop_waits :
      (fuel : ℕ) (p q : HttpParser M)
      → is_finished p.state ≡ false
      → cases p.state p ≡ (false, q)
      → feed_loop cases (suc fuel) p ≡ q
  loop_waits fuel p q h e = loop_step fuel p h ∙ ap (go_on (feed_loop cases fuel)) e

  -- Rounds for each state that is left are enough.
  loop_fuel :
      (f f' : ℕ) (p : HttpParser M)
      → rank p.state ≤ f
      → rank p.state ≤ f'
      → feed_loop cases f p ≡ feed_loop cases f' p
  unfolding feed_loop
  loop_fuel zero f' p h h' = elim (Bool-cases (is_finished p.state)) [
    | inl done ↦ sym (loop_stop f' p done)
    | inr running ↦ absurd (omega (arith, rank-pos p.state running))
  ]
  loop_fuel (suc f) zero p h h' = elim (Bool-cases (is_finished p.state)) [
    | inl done ↦ loop_stop (suc f) p done
    | inr running ↦ absurd (omega (arith, rank-pos p.state running))
  ]
  loop_fuel (suc f) (suc f') p h h' = elim (Bool-cases (is_finished p.state)) [
    | inl done ↦ loop_stop (suc f) p done ∙ sym (loop_stop (suc f') p done)
    | inr running ↦ elim (pair-cases (cases p.state p)) [
      | inl (q, e) ↦
          let lower = (inc.moves p q [] running e).1 in
          loop_moves f p q running e
          ∙ loop_fuel f f' q (omega (arith, lower, h)) (omega (arith, lower, h'))
          ∙ sym (loop_moves f' p q running e)
      | inr (q, e) ↦ loop_waits f p q running e ∙ sym (loop_waits f' p q running e)
    ]
  ]

  pub resume_finished :
      (bytes : Bytes) (p : HttpParser M) → is_finished p.state ≡ true → resume cases bytes p ≡ p
  resume_finished bytes p h = rw h

  pub resume_running :
      (bytes : Bytes) (p : HttpParser M)
      → is_finished p.state ≡ false
      → resume cases bytes p ≡ feed_loop cases 3 (more bytes p)
  resume_running bytes p h = rw h

  loop-more_finished :
      (f : ℕ) (p : HttpParser M) (bytes : Bytes)
      → is_finished p.state ≡ true
      → Same (feed_loop cases f (more bytes p)) (resume cases bytes (feed_loop cases f p))
  loop-more_finished f p bytes done =
      Same-eq (loop_stop f (more bytes p) done)
        (ap (resume cases bytes) (loop_stop f p done) ∙ resume_finished bytes p done)
        (Same-more p bytes done)

  -- More data behind the buffer make no difference to what is done with it.
  pub loop-more :
      (f : ℕ) (p : HttpParser M) (bytes : Bytes)
      → rank p.state ≤ f
      → f ≤ 3
      → Same (feed_loop cases f (more bytes p)) (resume cases bytes (feed_loop cases f p))
  loop-more zero p bytes h h3 = elim (Bool-cases (is_finished p.state)) [
    | inl done ↦ loop-more_finished zero p bytes done
    | inr running ↦ absurd (omega (arith, rank-pos p.state running))
  ]
  loop-more (suc f) p bytes h h3 = elim (Bool-cases (is_finished p.state)) [
    | inl done ↦ loop-more_finished (suc f) p bytes done
    | inr running ↦ elim (pair-cases (cases p.state p)) [
      | inl (q, e) ↦
          let law = inc.moves p q bytes running e in
          Same-eq (loop_moves f (more bytes p) (more bytes q) running law.0)
            (ap (resume cases bytes) (loop_moves f p q running e))
            (loop-more f q bytes (omega (arith, law.1, h)) (omega (arith, h3)))
      | inr (q, e) ↦
          let law = inc.waits p q bytes running e in
          let still : is_finished q.state ≡ false = ap is_finished law.1 ∙ running in
          let left : rank q.state ≡ rank p.state = ap rank law.1 in
          Same-eq
            (loop_step f (more bytes p) running
              ∙ ap (go_on (feed_loop cases f)) law.0
              ∙ sym (loop_step f (more bytes q) still)
              ∙ loop_fuel (suc f) 3 (more bytes q) (omega (arith, left, h)) (rank-le q.state))
            (ap (resume cases bytes) (loop_waits f p q running e) ∙ resume_running bytes q still)
            (Same-refl (feed_loop cases 3 (more bytes q)))
    ]
  ]

  pub loop-length :
      (f : ℕ) (p : HttpParser M) → length (feed_loop cases f p).buffer ≤ length p.buffer
  unfolding feed_loop
  loop-length zero p = omega arith
  loop-length (suc f) p = elim (Bool-cases (is_finished p.state)) [
    | inl done ↦
        let e = ap (λ (q : HttpParser M). length q.buffer) (loop_stop (suc f) p done) in
        omega (arith, e)
    | inr running ↦ elim (pair-cases (cases p.state p)) [
      | inl (q, e) ↦
          let same = ap (λ (r : HttpParser M). length r.buffer) (loop_moves f p q running e) in
          omega (arith, same, (inc.moves p q [] running e).2, loop-length f q)
      | inr (q, e) ↦
          let same = ap (λ (r : HttpParser M). length r.buffer) (loop_waits f p q running e) in
          omega (arith, same, (inc.waits p q [] running e).2)
    ]
  ]
