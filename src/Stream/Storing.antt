-- ===== src/Stream/Storing.antt =====
-- include/neustack/common/ring_buffer.hpp: what copying into the ring does to what a StreamBuffer
-- holds.
use neu_stack.Common.{
  ℕ, ◌+◌, ◌-◌, ◌%◌, ◌≤◌, ◌<◌, min, ◌≡◌, refl, ap, ◌∙◌, sym, List, ◌++◌, length, length-take,
  length-drop, get_or, take, drop, ltb, if◌then◌else◌, arith,
}
use mathlib.Core.Path.{ap₂}
use neu_stack.Stream.{blit, StreamBuffer, copy_in}
use neu_stack.Stream.Window.{
  tabulate, tabulate-congr, tabulate-append, tabulate-get_or, take-tabulate, get_or-take,
  get_or-drop, length-blit, get_or-blit,
}
use neu_stack.Stream.Contents.{IsValid, contents, mod_wrap, nth}

module _ (s : StreamBuffer) (bytes : List ℕ) (n : ℕ) (v : IsValid s) where
  abbrev pub FitsIn : Type 0
  FitsIn = (n ≤ length bytes) × (s.size + n ≤ s.capacity)

  write_in : s.write_pos < s.capacity
  write_in = ground (arith, v, mod_wrap (s.read_pos + s.size) s.capacity)

  length-copy_in : FitsIn → length (copy_in s bytes n) ≡ s.capacity
  unfolding copy_in
  length-copy_in h =
      let first = min n (s.capacity - s.write_pos) in
      let rest = take (n - first) (drop first bytes) in
      ground (
        arith,
        v,
        write_in,
        length-take first bytes,
        length-take (n - first) (drop first bytes),
        length-drop first bytes,
        length-blit s.buffer s.write_pos (take first bytes),
        length-blit (blit s.buffer s.write_pos (take first bytes)) 0 rest,
      )

  -- The byte that stands `i` places after the write position afterwards.
  get_or-copy_in :
      (j : ℕ)
      → FitsIn
      → j < s.capacity
      → get_or (copy_in s bytes n) j 0 ≡ (
          let i = (if ltb j s.write_pos then j + s.capacity - s.write_pos else j - s.write_pos) in
          if ltb i n then get_or bytes i 0 else get_or s.buffer j 0)
  unfolding copy_in
  get_or-copy_in j h hj =
      let first = min n (s.capacity - s.write_pos) in
      let rest = take (n - first) (drop first bytes) in
      ground (
        arith,
        v,
        write_in,
        length-take first bytes,
        length-take (n - first) (drop first bytes),
        length-drop first bytes,
        length-blit s.buffer s.write_pos (take first bytes),
        get_or-blit s.buffer s.write_pos (take first bytes) j,
        get_or-blit (blit s.buffer s.write_pos (take first bytes)) 0 rest j,
        get_or-take first bytes (j - s.write_pos),
        get_or-take (n - first) (drop first bytes) (j - 0),
        get_or-drop first bytes (j - 0),
      )

copied-old :
    (s : StreamBuffer) (bytes : List ℕ) (n i : ℕ) (v : IsValid s)
    → FitsIn s bytes n v
    → i < s.size
    → get_or (copy_in s bytes n) ((s.read_pos + i) % s.capacity) 0 ≡ nth s i
copied-old s bytes n i v h hi =
    let j = (s.read_pos + i) % s.capacity in
    ground (
      arith,
      v,
      mod_wrap (s.read_pos + i) s.capacity,
      mod_wrap (s.read_pos + s.size) s.capacity,
      get_or-copy_in s bytes n v j h,
    )

copied-new :
    (s : StreamBuffer) (bytes : List ℕ) (n i : ℕ) (v : IsValid s)
    → FitsIn s bytes n v
    → i < n
    → get_or (copy_in s bytes n) ((s.read_pos + (s.size + i)) % s.capacity) 0 ≡ get_or bytes i 0
copied-new s bytes n i v h hi =
    let j = (s.read_pos + (s.size + i)) % s.capacity in
    ground (
      arith,
      v,
      mod_wrap (s.read_pos + (s.size + i)) s.capacity,
      mod_wrap (s.read_pos + s.size) s.capacity,
      get_or-copy_in s bytes n v j h,
    )

-- The buffer's bytes after `n` of the given ones have been copied in.
pub stored-contents :
    (s : StreamBuffer) (bytes : List ℕ) (n : ℕ) (v : IsValid s)
    → FitsIn s bytes n v
    → tabulate (s.size + n) (λ i. get_or (copy_in s bytes n) ((s.read_pos + i) % s.capacity) 0)
      ≡ contents s ++ take n bytes
unfolding contents
stored-contents s bytes n v h =
    tabulate-append s.size n after
    ∙ ap₂ ◌++◌ (tabulate-congr s.size after (nth s) (λ i hi. copied-old s bytes n i v h hi)) (
        tabulate-congr n (λ i. after (s.size + i)) (λ i. get_or bytes i 0)
          (λ i hi. copied-new s bytes n i v h hi)
        ∙ sym (take-tabulate n (length bytes) (λ i. get_or bytes i 0) h.0)
        ∙ ap (take n) (tabulate-get_or (length bytes) bytes refl))
  where
    after : ℕ → ℕ
    after i = get_or (copy_in s bytes n) ((s.read_pos + i) % s.capacity) 0

pub stored-IsValid :
    (s : StreamBuffer) (bytes : List ℕ) (n : ℕ) (v : IsValid s)
    → FitsIn s bytes n v
    → IsValid (record s {
      buffer = copy_in s bytes n;
      write_pos = (s.write_pos + n) % s.capacity;
      size = s.size + n;
    })
stored-IsValid s bytes n v h = record {
  room = v.room;
  storage = length-copy_in s bytes n v h;
  read_in = v.read_in;
  size_in = h.1;
  write_at = ground (
    arith,
    v,
    mod_wrap (s.read_pos + s.size) s.capacity,
    mod_wrap (s.write_pos + n) s.capacity,
    mod_wrap (s.read_pos + (s.size + n)) s.capacity,
  );
}
