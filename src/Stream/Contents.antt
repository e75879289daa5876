-- ===== src/Stream/Contents.antt =====
-- include/neustack/common/ring_buffer.hpp: what a StreamBuffer holds, and what it copies out.
use neu_stack.Common.{
  ℕ, ◌+◌, ◌-◌, ◌%◌, ◌≤◌, ◌<◌, min, ◌≡◌, ◌∙◌, sym, List, length, length-append, length-take,
  length-drop, length-replicate, get_or, take, drop, ltb, if◌then◌else◌, arith,
}
use native.Mathlib.Decide.{dec_lt}
use native.Mathlib.Nat.{mod-eq_of_lt, mod-eq-sub-mod}
use neu_stack.Stream.{StreamBuffer, make, copy_out}
use neu_stack.Stream.Window.{
  tabulate, length-tabulate, tabulate-congr, tabulate-get_or, get_or-append, get_or-take,
  get_or-drop,
}

-- A buffer with room for at least one byte, whose write position is `size` bytes past the read one.
pub record IsValid (s : StreamBuffer) : Type 0 where
  pub room : 0 < s.capacity
  pub storage : length s.buffer ≡ s.capacity
  pub read_in : s.read_pos < s.capacity
  pub size_in : s.size ≤ s.capacity
  pub write_at : s.write_pos ≡ (s.read_pos + s.size) % s.capacity

-- The byte `i` places after the read position.
abbrev pub nth : StreamBuffer → ℕ → ℕ
nth s i = get_or s.buffer ((s.read_pos + i) % s.capacity) 0

-- The bytes in the buffer, oldest first.
unfoldable pub contents : StreamBuffer → List ℕ
contents s = tabulate s.size (nth s)

pub length-contents : (s : StreamBuffer) → length (contents s) ≡ s.size
unfolding contents
length-contents s = length-tabulate s.size (nth s)

-- One step round the ring at most.
pub mod_wrap : (x c : ℕ) → x < c + c → x % c ≡ (if ltb x c then x else x - c)
mod_wrap x c h = elim (dec_lt x c) [
  | yes p ↦ ground (arith, mod-eq_of_lt p)
  | no p ↦ ground (
    arith,
    mod-eq-sub-mod {n = x} {m = c} (omega arith),
    mod-eq_of_lt {n = x - c} {m = c} (omega arith),
  )
]

pub make-IsValid : (cap : ℕ) → 0 < cap → IsValid (make cap)
unfolding make
make-IsValid cap h = record {
  room = h;
  storage = length-replicate cap 0;
  read_in = h;
  size_in = omega arith;
  write_at = omega (arith, mod_wrap 0 cap (omega arith));
}

module _ (s : StreamBuffer) (pos n : ℕ) (v : IsValid s) (hp : pos < s.capacity) where
  length-copy_out : n ≤ s.capacity → length (copy_out s pos n) ≡ n
  unfolding copy_out
  length-copy_out hn =
      let first = min n (s.capacity - pos) in
      ground (
        arith,
        v,
        length-take first (drop pos s.buffer),
        length-drop pos s.buffer,
        length-take (n - first) s.buffer,
        length-append (take first (drop pos s.buffer)) (take (n - first) s.buffer),
      )

  get_or-copy_out :
      (i : ℕ)
      → n ≤ s.capacity
      → i < n
      → get_or (copy_out s pos n) i 0 ≡ get_or s.buffer ((pos + i) % s.capacity) 0
  unfolding copy_out
  get_or-copy_out i hn hi =
      let first = min n (s.capacity - pos) in
      let once = take first (drop pos s.buffer) in
      ground (
        arith,
        v,
        mod_wrap (pos + i) s.capacity,
        length-take first (drop pos s.buffer),
        length-drop pos s.buffer,
        get_or-append once (take (n - first) s.buffer) i,
        get_or-take first (drop pos s.buffer) i,
        get_or-drop pos s.buffer i,
        get_or-take (n - first) s.buffer (i - first),
      )

  -- Copying out reads the ring at `n` places from `pos` on.
  pub copy_out-tabulate :
      n ≤ s.capacity
      → copy_out s pos n ≡ tabulate n (λ i. get_or s.buffer ((pos + i) % s.capacity) 0)
  copy_out-tabulate hn =
      sym (tabulate-get_or n (copy_out s pos n) (length-copy_out hn))
      ∙ tabulate-congr n (λ i. get_or (copy_out s pos n) i 0)
          (λ i. get_or s.buffer ((pos + i) % s.capacity) 0) (λ i hi. get_or-copy_out i hn hi)
