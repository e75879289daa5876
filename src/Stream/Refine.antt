-- ===== src/Stream/Refine.antt =====
-- StreamBuffer against a queue of bytes: what each operation does to the bytes that are stored.
use neu_stack.Common.{
  ℕ, ◌+◌, ◌-◌, ◌%◌, ◌≤◌, min, ◌≡◌, refl, ap, ◌∙◌, sym, List, ◌++◌, length, length-take, length-drop,
  get_or, take, drop, ◌==◌, drop_all, arith, Bool-cases, ==_iff, inl, inr, take-min, drop-min,
  take-nil, leb,
}
use mathlib.Core.List.{append-nil}
use native.Mathlib.Nat.{mod-add-mod, add_assoc}
use neu_stack.Stream.{
  StreamBuffer, available, peek_at, copy_out, write, peek, consume, read, peek_contiguous,
}
use neu_stack.Stream.Window.{tabulate-congr, drop-tabulate, take-tabulate}
use neu_stack.Stream.Contents.{IsValid, contents, copy_out-tabulate, length-contents, mod_wrap, nth}
use neu_stack.Stream.Storing.{FitsIn, stored-IsValid, stored-contents}

-- On a valid buffer, `write` stores as many of the bytes as there is room for, behind those already
-- there, returns their number, and keeps the buffer valid.
pub write_refines :
    (s : StreamBuffer) (bytes : List ℕ)
    → IsValid s
    → ((write s bytes).0 ≡ min (length bytes) (available s))
      × (contents (write s bytes).1 ≡ contents s ++ take (available s) bytes)
      × IsValid (write s bytes).1
unfolding write contents
write_refines s bytes v = elim (Bool-cases (n == 0)) [
  | inl none_fits ↦ rw none_fits (
    omega (arith, (==_iff n 0).0 none_fits),
    rw (take-min (available s) bytes)
        (rw ((==_iff n 0).0 none_fits) (sym (append-nil (contents s)))),
    v,
  )
  | inr some_fit ↦ rw some_fit (
    refl,
    rw (take-min (available s) bytes) (stored-contents s bytes n v within),
    stored-IsValid s bytes n v within,
  )
]
  where
    n : ℕ
    n = min (length bytes) (available s)

    within : FitsIn s bytes n v
    within = (omega arith, omega (arith, v.size_in))

-- Going round twice is going round once.
mod_step : (a b i c : ℕ) → ((a + b) % c + i) % c ≡ (a + (b + i)) % c
mod_step a b i c = mod-add-mod (a + b) c i ∙ ap (λ k. k % c) (add_assoc a b i)

copy_out-contents :
    (s : StreamBuffer) (offset n : ℕ)
    → IsValid s
    → offset + n ≤ s.size
    → copy_out s ((s.read_pos + offset) % s.capacity) n ≡ take n (drop offset (contents s))
unfolding contents
copy_out-contents s offset n v h =
    copy_out-tabulate s ((s.read_pos + offset) % s.capacity) n v (omega (arith, v))
      (omega (arith, v))
    ∙ tabulate-congr n
        (λ i. get_or s.buffer (((s.read_pos + offset) % s.capacity + i) % s.capacity) 0)
        (λ i. nth s (offset + i))
        (λ i hi. ap (λ k. get_or s.buffer k 0) (mod_step s.read_pos offset i s.capacity))
    ∙ sym (take-tabulate n (s.size - offset) (λ i. nth s (offset + i)) (omega arith))
    ∙ sym (ap (take n) (drop-tabulate offset s.size (nth s) (omega arith)))

copy_out-front :
    (s : StreamBuffer) (n : ℕ)
    → IsValid s
    → n ≤ s.size
    → copy_out s s.read_pos n ≡ take n (contents s)
copy_out-front s n v h =
    let start : s.read_pos ≡ (s.read_pos + 0) % s.capacity =
      ground (arith, v, mod_wrap (s.read_pos + 0) s.capacity) in
    ap (λ k. copy_out s k n) start ∙ copy_out-contents s 0 n v (omega arith)

-- `peek` shows the oldest bytes, as many as asked for or as there are.
pub peek_lem : (s : StreamBuffer) (len : ℕ) → IsValid s → peek s len ≡ take len (contents s)
unfolding peek
peek_lem s len v =
    rw (take-min len (contents s), length-contents s)
      (elim (Bool-cases (min len s.size == 0)) [
        | inl e ↦
            let z : min s.size len ≡ 0 = omega (arith, (==_iff (min len s.size) 0).0 e) in rw (e, z)
        | inr e ↦ rw e (
            copy_out-front s (min len s.size) v (omega arith)
            ∙ ap (λ k. take k (contents s)) (omega arith))
      ])

-- On a valid buffer, `peek_at` shows the bytes from an offset on, as many as asked for or as there
-- are.
pub peek_at_lem :
    (s : StreamBuffer) (offset len : ℕ)
    → IsValid s
    → peek_at s offset len ≡ take len (drop offset (contents s))
unfolding peek_at
peek_at_lem s offset len v = elim (Bool-cases (leb s.size offset)) [
  | inl e ↦
      rw (e, drop_all offset (contents s) (ground (arith, length-contents s))) (sym (take-nil len))
  | inr e ↦ rw e (
      copy_out-contents s offset (min len (s.size - offset)) v (ground arith)
      ∙ ap (λ k. take k (drop offset (contents s)))
          (omega (arith, length-drop offset (contents s), length-contents s))
      ∙ sym (take-min len (drop offset (contents s))))
]

-- `consume` removes the oldest bytes, as many as asked for or as there are, and returns their
-- number.
pub consume_refines :
    (s : StreamBuffer) (len : ℕ)
    → IsValid s
    → ((consume s len).0 ≡ min len s.size)
      × (contents (consume s len).1 ≡ drop len (contents s))
      × IsValid (consume s len).1
unfolding consume contents
consume_refines s len v = (
  refl,
  sym (
      drop-min len (contents s)
      ∙ ap (λ k. drop k (contents s)) (omega (arith, length-contents s))
      ∙ drop-tabulate n s.size (nth s) (omega arith)
      ∙ tabulate-congr (s.size - n) (λ i. nth s (n + i))
          (λ i. get_or s.buffer (((s.read_pos + n) % s.capacity + i) % s.capacity) 0)
          (λ i hi. ap (λ k. get_or s.buffer k 0) (sym (mod_step s.read_pos n i s.capacity)))),
  record {
    room = v.room;
    storage = v.storage;
    read_in = omega (arith, v);
    size_in = omega (arith, v);
    write_at =
        v.write_at
        ∙ ap (λ k. (s.read_pos + k) % s.capacity) all
        ∙ sym (mod_step s.read_pos n (s.size - n) s.capacity);
  },
)
  where
    n : ℕ
    n = min len s.size

    all : s.size ≡ n + (s.size - n)
    all = omega arith

-- On a valid buffer, `read` returns the oldest bytes, as many as asked for or as there are, and
-- leaves the others.
pub read_refines :
    (s : StreamBuffer) (len : ℕ)
    → IsValid s
    → ((read s len).0 ≡ take len (contents s))
      × (contents (read s len).1 ≡ drop len (contents s))
      × IsValid (read s len).1
unfolding read
read_refines s len v =
    let shown = peek_lem s len v in
    let step = consume_refines s (length (peek s len)) v in
    (
      shown,
      step.1
          ∙ ap (λ k. drop k (contents s)) (ap length shown ∙ length-take len (contents s))
          ∙ sym (drop-min len (contents s)),
      step.2,
    )

one_chunk :
    (s : StreamBuffer) (n : ℕ)
    → n ≤ s.capacity - s.read_pos
    → copy_out s s.read_pos n ≡ take n (drop s.read_pos s.buffer)
unfolding copy_out
one_chunk s n h = let all : min n (s.capacity - s.read_pos) ≡ n = omega arith in ground (arith, all)

-- The span that `peek_contiguous` hands out of a valid buffer is a prefix of the stored bytes,
-- empty only if there are none.
pub peek_contiguous_lem :
    (s : StreamBuffer)
    → IsValid s
    → (peek_contiguous s ≡ take (length (peek_contiguous s)) (contents s))
      × (length (peek_contiguous s) ≤ s.size)
      × (min 1 s.size ≤ length (peek_contiguous s))
unfolding peek_contiguous
peek_contiguous_lem s v = elim (Bool-cases (s.size == 0)) [
  | inl e ↦ rw e (refl, omega arith, omega (arith, (==_iff s.size 0).0 e))
  | inr e ↦
      rw (e, length-take n (drop s.read_pos s.buffer), length-drop s.read_pos s.buffer)
        (
          sym (one_chunk s n (omega arith))
              ∙ copy_out-front s n v (omega arith)
              ∙ ap (λ k. take k (contents s)) (omega (arith, v)),
          omega (arith, v),
          omega (arith, v),
        )
]
  where
    n : ℕ
    n = min s.size (s.capacity - s.read_pos)
