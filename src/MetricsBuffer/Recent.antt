-- ===== src/MetricsBuffer/Recent.antt =====
-- include/neustack/common/ring_buffer.hpp: the samples that MetricsBuffer returns.
use neu_stack.Common.{
  ℕ, zero, suc, ◌+◌, ◌-◌, ◌%◌, ◌^◌, ◌≤◌, ◌<◌, ◌≡◌, ◌≢◌, refl, ap, sym, ◌∙◌, inl, inr, false, some,
  List, [], ◌∷◌, ◌++◌, ◌==◌, min, length, length-append, get_or, drop, drop_all, arith, Bool-cases,
}
use mathlib.Core.Path.{subst}
use native.Mathlib.Nat.{mod-eq_of_lt}
use neu_stack.SpscQueue.Slots.{slots-apart, at, at-append, at-last}
use neu_stack.MetricsBuffer.{
  MetricsBuffer, Call, push_call, clear_call, empty_metrics, write_slot, push, read_slots, recent,
  latest, count, clear, run_calls,
}

-- The samples since the last clear, the oldest first, from those before the calls.
abbrev pub samples_after : {A : Type 0} → List (Call A) → List A → List A
samples_after [] xs = xs
samples_after (push_call sample ∷ rest) xs = samples_after rest (xs ++ (sample ∷ []))
samples_after (clear_call ∷ rest) xs = samples_after rest []

module _ {A : Type 0} where
  drop-at : (i : ℕ) (xs : List A) (x : A) → at xs i ≡ some x → drop i xs ≡ x ∷ drop (suc i) xs
  drop-at i [] x h = absurd (ground (arith, h))
  drop-at zero (y ∷ xs) x h = ground (arith, h)
  drop-at (suc i) (y ∷ xs) x h = drop-at i xs x h

  get_or-at : (xs : List A) (i : ℕ) (d x : A) → at xs i ≡ some x → get_or xs i d ≡ x
  get_or-at [] i d x h = absurd (ground (arith, h))
  get_or-at (y ∷ xs) zero d x h = ground (arith, h)
  get_or-at (y ∷ xs) (suc i) d x h = get_or-at xs i d x h

module _ {A : Type 0} (n : ℕ) where
  -- The last n of the samples are in the slots of their positions.
  pub record Keeps (xs : List A) (b : MetricsBuffer A) : Type 0 where
    pub write_pos : b.write_pos ≡ length xs
    pub slots : (i : ℕ) → i < length xs → length xs ≤ i + n → at xs i ≡ some (b.buffer (i % n))

  slot-written : (i : ℕ) (x : A) (buffer : ℕ → A) → write_slot n i x buffer (i % n) ≡ x
  slot-written i x buffer = ground arith

  slot-kept :
      (i pos : ℕ) (x : A) (buffer : ℕ → A)
      → i < pos
      → pos < i + n
      → write_slot n pos x buffer (i % n) ≡ buffer (i % n)
  slot-kept i pos x buffer h1 h2 =
      let apart = slots-apart n i (pos - i) (omega (arith, h1)) (omega (arith, h2)) in
      let e : i + (pos - i) ≡ pos = omega (arith, h1) in
      elim (Bool-cases ((i % n) == (pos % n))) [
        | inl h ↦ absurd (apart (subst (λ p. i % n ≡ p % n) (sym e) (ground (arith, h))))
        | inr h ↦ rw h
      ]

  push-Keeps :
      (xs : List A) (x : A) (b : MetricsBuffer A)
      → length xs + 1 < 2 ^ 64
      → Keeps xs b
      → Keeps (xs ++ (x ∷ [])) (push n x b)
  unfolding push
  push-Keeps xs x b room k =
      let size : length (xs ++ (x ∷ [])) ≡ length xs + 1 = length-append xs (x ∷ []) in
      let pos : b.write_pos ≡ length xs = k.write_pos in
      record {
        write_pos = ap (λ p. (p + 1) % 2 ^ 64) pos ∙ mod-eq_of_lt room ∙ sym size;
        slots = λ i h1 h2. elim (Bool-cases (i == length xs)) [
          | inl e ↦
              let here : i ≡ length xs = ground (arith, e) in
              rw (here, at-last xs x, pos, slot-written (length xs) x b.buffer)
          | inr e ↦
              let apart : i ≢ length xs = λ e'. ground (arith, e, e') in
              let before : i < length xs = omega (arith, apart, h1, size) in
              let kept = slot-kept i (length xs) x b.buffer before (omega (arith, h2, size)) in
              rw (at-append xs (x ∷ []) i before, pos, kept)
                (k.slots i before (omega (arith, h2, size)))
        ];
      }

  read_slots-drop :
      (left i : ℕ) (xs : List A) (b : MetricsBuffer A)
      → Keeps xs b
      → left ≤ n
      → i + left ≡ length xs
      → read_slots n left i b.buffer ≡ drop i xs
  unfolding read_slots
  read_slots-drop zero i xs b k h e = sym (drop_all i xs (omega (arith, e)))
  read_slots-drop (suc left) i xs b k h e =
      let rest = read_slots-drop left (i + 1) xs b k (omega (arith, h)) (omega (arith, e)) in
      let e1 : i + 1 ≡ suc i = omega arith in
      let here =
        drop-at i xs (b.buffer (i % n)) (k.slots i (omega (arith, e)) (omega (arith, e, h))) in
      ap (◌∷◌ (b.buffer (i % n))) rest ∙ rw e1 (sym here)

  latest-last :
      (xs : List A) (d : A) (b : MetricsBuffer A)
      → 0 < n
      → Keeps xs b
      → latest n d b ≡ get_or xs (length xs - 1) d
  unfolding latest
  latest-last [] d b h k = let e : b.write_pos ≡ 0 = k.write_pos in rw e
  latest-last (x ∷ xs) d b h k =
      let i = length (x ∷ xs) - 1 in
      let pos : b.write_pos ≡ length (x ∷ xs) = k.write_pos in
      let here = k.slots i (omega arith) (omega (arith, h)) in
      let some_sample : (b.write_pos == 0) ≡ false = ground (arith, pos) in
      rw (some_sample, pos) (sym (get_or-at (x ∷ xs) i d (b.buffer (i % n)) here))

  run_calls-Keeps :
      (calls : List (Call A)) (xs : List A) (b : MetricsBuffer A)
      → length xs + length calls < 2 ^ 64
      → Keeps xs b
      → Keeps (samples_after calls xs) (run_calls n calls b)
  unfolding run_calls clear
  run_calls-Keeps [] xs b room k = k
  run_calls-Keeps (push_call x ∷ rest) xs b room k =
      let size : length (xs ++ (x ∷ [])) ≡ length xs + 1 = length-append xs (x ∷ []) in
      run_calls-Keeps rest (xs ++ (x ∷ [])) (push n x b) (omega (arith, room, size))
        (push-Keeps xs x b (omega (arith, room)) k)
  run_calls-Keeps (clear_call ∷ rest) xs b room k =
      run_calls-Keeps rest [] (clear n b) (omega (arith, room))
        record { write_pos = refl; slots = λ i h1 h2. absurd (omega (arith, h1)) }

-- After fewer than 2^64 calls of push and clear, recent returns the last of the samples since the
-- last clear, the oldest first: as many as are asked for, but at most N and at most all; latest
-- returns the last of them, T{} when there is none, and count is their number up to N.
pub recent-samples :
    {A : Type 0} (n : ℕ) (buffer : ℕ → A) (calls : List (Call A)) (k : ℕ) (d : A)
    → 0 < n
    → length calls < 2 ^ 64
    → let xs = samples_after calls [] in
      let b = run_calls n calls (empty_metrics buffer) in
      (recent n k b ≡ drop (length xs - min k n) xs)
      × (latest n d b ≡ get_or xs (length xs - 1) d)
      × (count n b ≡ min (length xs) n)
unfolding recent count
recent-samples n buffer calls k d some_slots room =
    let xs = samples_after calls [] in
    let b = run_calls n calls (empty_metrics buffer) in
    let keeps : Keeps n xs b =
      run_calls-Keeps n calls [] (empty_metrics buffer) (omega (arith, room))
        record { write_pos = refl; slots = λ i h1 h2. absurd (omega (arith, h1)) } in
    let pos : b.write_pos ≡ length xs = keeps.write_pos in
    let taken = min k (min b.write_pos n) in
    let start : b.write_pos - taken ≡ length xs - min k n = omega (arith, pos) in
    (
      read_slots-drop n taken (b.write_pos - taken) xs b keeps (omega arith) (omega (arith, pos))
          ∙ ap (λ i. drop i xs) start,
      latest-last n xs d b some_slots keeps,
      ap (λ p. min p n) pos,
    )
