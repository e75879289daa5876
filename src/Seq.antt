-- ===== src/Seq.antt =====
-- include/neustack/transport/tcp_seq.hpp: sequence numbers modulo 2^32. `static_cast<int32_t>(w)`
-- is negative exactly when the word `w` is at least 2^31.
pub mod Order
use neu_stack.Common.{ℕ, ◌+◌, ◌-◌, ◌%◌, ◌^◌, Bool, not, ◌&&◌, ◌||◌, ltb, leb, ◌==◌}

abbrev pub u32 : ℕ
u32 = 2 ^ 32

-- uint32_t a + b and a - b, for words a and b.
abbrev pub add32 : ℕ → ℕ → ℕ
add32 a b = (a + b) % u32

abbrev pub sub32 : ℕ → ℕ → ℕ
sub32 a b = (a + u32 - b) % u32

abbrev int32_neg : ℕ → Bool
int32_neg w = leb (2 ^ 31) w

unfoldable pub seq_lt : ℕ → ℕ → Bool
seq_lt a b = int32_neg (sub32 a b)

unfoldable pub seq_le : ℕ → ℕ → Bool
seq_le a b = int32_neg (sub32 a b) || (sub32 a b == 0)

unfoldable pub seq_gt : ℕ → ℕ → Bool
seq_gt a b = not (int32_neg (sub32 a b)) && not (sub32 a b == 0)

unfoldable pub seq_ge : ℕ → ℕ → Bool
seq_ge a b = not (int32_neg (sub32 a b))

unfoldable pub seq_in_range : ℕ → ℕ → ℕ → Bool
unfolding seq_ge seq_lt
seq_in_range seq start end = seq_ge seq start && seq_lt seq end
