-- ===== src/Checksum/Fold.antt =====
-- src/common/checksum.cpp: the arithmetic of folding the carries of a sum.
use neu_stack.Common.{
  ℕ, zero, suc, ◌+◌, ◌-◌, ◌*◌, ◌/◌, ◌%◌, ◌^◌, ◌≤◌, ◌<◌, ◌≡◌, refl, List, [], ◌∷◌, length, take,
  drop, get_or, ◌==◌, if◌then◌else◌, arith,
}
use neu_stack.Seq.{u32, add32}
use neu_stack.Checksum.{checksum_accumulate, fold_carries, fold, checksum_finalize}

-- The loop has ended after two rounds: nothing is left above the low 16 bits.
pub fold-lt : (sum : ℕ) → sum < u32 → fold sum < 2 ^ 16
unfolding fold_carries
fold-lt sum h = ground arith

-- For a 32-bit sum, any fuel above two rounds gives what two rounds give.
pub fold_enough : (extra sum : ℕ) → sum < u32 → fold_carries (suc (suc extra)) sum ≡ fold sum
unfolding fold_carries
fold_enough zero sum h = refl
fold_enough (suc extra) sum h = ground arith

-- The folded sum is the one's-complement residue: zero for zero only, otherwise from 1 to 65535.
pub fold_residue :
    (sum : ℕ) → sum < u32 → fold sum ≡ (if sum == 0 then 0 else (sum - 1) % 65535 + 1)
unfolding fold_carries
fold_residue sum h = ground arith

-- The sum of the 16-bit words, without the wrap of uint32_t.
unfoldable pub word_sum : List ℕ → ℕ
word_sum [] = 0
word_sum (a ∷ []) = a * 256
word_sum (a ∷ b ∷ rest) = (a * 256 + b) + word_sum rest

-- Accumulating bytes onto a 32-bit sum adds the sum of their 16-bit words, the last one padded with
-- zero, modulo 2^32.
pub checksum_accumulate-word_sum :
    (sum : ℕ) (bytes : List ℕ)
    → sum < u32
    → checksum_accumulate sum bytes ≡ (sum + word_sum bytes) % u32
unfolding checksum_accumulate word_sum
checksum_accumulate-word_sum sum [] h = omega arith
checksum_accumulate-word_sum sum (a ∷ []) h = omega arith
checksum_accumulate-word_sum sum (a ∷ b ∷ rest) h =
    omega (arith, checksum_accumulate-word_sum (add32 sum (a * 256 + b)) rest (omega arith))

-- Every element is a byte.
abbrev pub AreBytes : List ℕ → Type 0
AreBytes [] = Unit {0}
AreBytes (a ∷ rest) = (a < 256) × AreBytes rest

pub word_sum-le :
    (bytes : List ℕ) → AreBytes bytes → word_sum bytes ≤ (length bytes + 1) / 2 * 65535
unfolding word_sum
word_sum-le [] h = omega arith
word_sum-le (a ∷ []) h = omega arith
word_sum-le (a ∷ b ∷ rest) h = omega (arith, word_sum-le rest h.1.1)

-- A sum with its own checksum added has the checksum zero, if the two stay below 2^32.
pub checksum_finalize-completed :
    (sum : ℕ) → sum + 65535 < u32 → checksum_finalize (sum + checksum_finalize sum) ≡ 0
unfolding checksum_finalize
checksum_finalize-completed sum h =
    ground (arith, fold_residue sum, fold_residue (sum + (65535 - fold sum)))

-- A sum that is zero is completed by 65535 as by itself.
pub checksum_finalize-ones :
    (sum : ℕ) → sum + 65535 < u32 → checksum_finalize sum ≡ 0 → checksum_finalize (sum + 65535) ≡ 0
unfolding checksum_finalize
checksum_finalize-ones sum h e = ground (arith, e, fold_residue sum, fold_residue (sum + 65535))

pub checksum_finalize-le : (sum : ℕ) → checksum_finalize sum ≤ 65535
unfolding checksum_finalize
checksum_finalize-le sum = omega arith

-- The completed sum folds to 65535.
pub checksum_finalize-folds :
    (sum : ℕ) → sum + 65535 < u32 → fold (sum + checksum_finalize sum) ≡ 2 ^ 16 - 1
checksum_finalize-folds sum h =
    let e = checksum_finalize-completed sum h in
    let below = fold-lt (sum + checksum_finalize sum) (omega (arith, checksum_finalize-le sum)) in
    unfold checksum_finalize in omega (arith, e, below)

pub AreBytes-take : (n : ℕ) (bytes : List ℕ) → AreBytes bytes → AreBytes (take n bytes)
AreBytes-take zero bytes h = tt
AreBytes-take (suc n) [] h = tt
AreBytes-take (suc n) (a ∷ rest) h = (h.0, AreBytes-take n rest h.1)

pub AreBytes-drop : (n : ℕ) (bytes : List ℕ) → AreBytes bytes → AreBytes (drop n bytes)
AreBytes-drop zero bytes h = h
AreBytes-drop (suc n) [] h = tt
AreBytes-drop (suc n) (a ∷ rest) h = AreBytes-drop n rest h.1

pub get_or-byte : (bytes : List ℕ) (i : ℕ) → AreBytes bytes → get_or bytes i 0 < 256
get_or-byte [] i h = omega arith
get_or-byte (a ∷ rest) zero h = h.0
get_or-byte (a ∷ rest) (suc i) h = get_or-byte rest i h.1
