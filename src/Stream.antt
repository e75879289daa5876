-- ===== src/Stream.antt =====
-- include/neustack/common/ring_buffer.hpp, class StreamBuffer: the byte ring behind the send and
-- receive buffers of a connection. A pointer with a length is the list of the bytes it points at.
-- Sizes of objects in memory do not reach 2^64, so the sums of size_t do not wrap.
pub mod Window
pub mod Contents
pub mod Storing
pub mod Refine
use neu_stack.Common.{
  ℕ, ◌+◌, ◌-◌, ◌%◌, ◌≤◌, ◌<◌, min, Bool, List, [], ◌++◌, length, take, drop, replicate, ltb, leb,
  ◌==◌, if◌then◌else◌,
}

pub record StreamBuffer : Type 0 where
  pub buffer : List ℕ
  pub capacity : ℕ
  pub read_pos : ℕ
  pub write_pos : ℕ
  pub size : ℕ

-- memcpy of `xs` into `buf` from index `pos` on.
pub blit : List ℕ → ℕ → List ℕ → List ℕ
blit buf pos xs = take pos buf ++ (xs ++ drop (pos + length xs) buf)

unfoldable pub make : ℕ → StreamBuffer
make cap = record {
  buffer = replicate cap 0;
  capacity = cap;
  read_pos = 0;
  write_pos = 0;
  size = 0;
}

abbrev pub available : StreamBuffer → ℕ
available s = s.capacity - s.size

abbrev pub empty : StreamBuffer → Bool
empty s = s.size == 0

abbrev pub full : StreamBuffer → Bool
full s = s.size == s.capacity

-- The two memcpy calls of `write`: `n` bytes of `data`, the second part from the start again.
pub copy_in : StreamBuffer → List ℕ → ℕ → List ℕ
copy_in s data' n =
    let first = min n (s.capacity - s.write_pos) in
    let once = blit s.buffer s.write_pos (take first data') in
    if ltb first n then blit once 0 (take (n - first) (drop first data')) else once

unfoldable pub write : StreamBuffer → List ℕ → ℕ × StreamBuffer
write s data' =
    let n = min (length data') (available s) in
    if n == 0 then (0, s) else (
      n,
      record s {
        buffer = copy_in s data' n;
        write_pos = (s.write_pos + n) % s.capacity;
        size = s.size + n;
      },
    )

-- The two memcpy calls of `peek` and `peek_at`: `n` bytes from index `pos`, going round.
pub copy_out : StreamBuffer → ℕ → ℕ → List ℕ
copy_out s pos n =
    let first = min n (s.capacity - pos) in
    let once = take first (drop pos s.buffer) in
    if ltb first n then once ++ take (n - first) s.buffer else once

-- The bytes that arrive at `dest`; their number is the function's result.
unfoldable pub peek : StreamBuffer → ℕ → List ℕ
peek s len = let n = min len s.size in if n == 0 then [] else copy_out s s.read_pos n

unfoldable pub consume : StreamBuffer → ℕ → ℕ × StreamBuffer
consume s len =
    let n = min len s.size in
    (n, record s { read_pos = (s.read_pos + n) % s.capacity; size = s.size - n })

unfoldable pub read : StreamBuffer → ℕ → List ℕ × StreamBuffer
read s len = let bytes = peek s len in (bytes, (consume s (length bytes)).1)

unfoldable pub peek_contiguous : StreamBuffer → List ℕ
peek_contiguous s =
    if s.size == 0
    then []
    else take (min s.size (s.capacity - s.read_pos)) (drop s.read_pos s.buffer)

-- The room that `write_contiguous` offers: where it starts, and how long it is.
pub write_contiguous : StreamBuffer → ℕ × ℕ
write_contiguous s =
    if available s == 0 then (0, 0) else (s.write_pos, min (available s) (s.capacity - s.write_pos))

pub commit_write : StreamBuffer → ℕ → StreamBuffer
commit_write s len =
    let n = min len (available s) in
    record s { write_pos = (s.write_pos + n) % s.capacity; size = s.size + n }

pub peek_at : StreamBuffer → ℕ → ℕ → List ℕ
peek_at s offset len =
    if leb s.size offset
    then []
    else copy_out s ((s.read_pos + offset) % s.capacity) (min len (s.size - offset))

pub clear : StreamBuffer → StreamBuffer
clear s = record s { read_pos = 0; write_pos = 0; size = 0 }
