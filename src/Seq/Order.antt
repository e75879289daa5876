-- ===== src/Seq/Order.antt =====
-- include/neustack/transport/tcp_seq.hpp: the comparisons as an order.
use neu_stack.Common.{ℕ, ◌^◌, ◌<◌, ◌≡◌, true, ◌&&◌, arith, leb, ltb}
use neu_stack.Seq.{u32, add32, seq_lt, seq_le, seq_gt, seq_ge, seq_in_range}

-- `add32 a d` is after `a` for every distance `d` from 1 to 2^31, and for no other below 2^32.
pub seq_lt-add32 : (a d : ℕ) → a < u32 → d < u32 → seq_lt a (add32 a d) ≡ ltb 0 d && leb d (2 ^ 31)
unfolding seq_lt
seq_lt-add32 a d ha hd = ground arith

-- `a` lies `d` before `b` when `d` steps from `a` lead to `b`.
abbrev pub Ahead : ℕ → ℕ → ℕ → Type 0
Ahead a d b = (a < u32) × (d < 2 ^ 31) × (b ≡ add32 a d)

pub seq_gt-Ahead : (a d b : ℕ) → Ahead a d b → seq_gt b a ≡ ltb 0 d
unfolding seq_gt
seq_gt-Ahead a d b h = ground arith

pub seq_lt-Ahead : (a d b : ℕ) → Ahead a d b → seq_lt a b ≡ ltb 0 d
unfolding seq_lt
seq_lt-Ahead a d b h = ground arith

pub seq_le-Ahead : (a d b : ℕ) → Ahead a d b → seq_le a b ≡ true
unfolding seq_le
seq_le-Ahead a d b h = ground arith

-- Two positions at distances below 2^31 from one base compare as the distances do.
pub compare_from_base :
    (base i j : ℕ)
    → base < u32
    → i < 2 ^ 31
    → j < 2 ^ 31
    → (seq_lt (add32 base i) (add32 base j) ≡ ltb i j)
      × (seq_le (add32 base i) (add32 base j) ≡ leb i j)
      × (seq_gt (add32 base i) (add32 base j) ≡ ltb j i)
      × (seq_ge (add32 base i) (add32 base j) ≡ leb j i)
unfolding seq_lt seq_le seq_gt seq_ge
compare_from_base base i j hb hi hj = (ground arith, ground arith, ground arith, ground arith)

-- A window of fewer than 2^31 numbers contains, of the numbers fewer than 2^31 steps after its
-- start, exactly those fewer than its size after it.
pub seq_in_range-window :
    (start size k : ℕ)
    → start < u32
    → size < 2 ^ 31
    → k < 2 ^ 31
    → seq_in_range (add32 start k) start (add32 start size) ≡ ltb k size
unfolding seq_in_range
seq_in_range-window start size k hs hz hk = ground arith
