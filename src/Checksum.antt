-- ===== src/Checksum.antt =====
-- src/common/checksum.cpp: the Internet checksum (RFC 1071). `(p[0] << 8) | p[1]` is written as a
-- sum, since the two bytes share no bit. The value that `checksum_finalize` returns is in host
-- order here; the swap of htons is the order in which its two bytes are stored.
pub mod Fold
use neu_stack.Common.{
  ℕ, zero, suc, ◌+◌, ◌-◌, ◌*◌, ◌/◌, ◌%◌, ◌^◌, Bool, List, [], ◌∷◌, ◌==◌, if◌then◌else◌,
}
use neu_stack.Seq.{add32}

unfoldable pub checksum_accumulate : ℕ → List ℕ → ℕ
checksum_accumulate sum [] = sum
checksum_accumulate sum (a ∷ []) = add32 sum (a * 256)
checksum_accumulate sum (a ∷ b ∷ rest) = checksum_accumulate (add32 sum (a * 256 + b)) rest

-- `while (sum >> 16) sum = (sum & 0xFFFF) + (sum >> 16);` on fuel.
unfoldable pub fold_carries : ℕ → ℕ → ℕ
fold_carries zero sum = sum
fold_carries (suc fuel) sum =
    let rest = fold_carries fuel (sum % 2 ^ 16 + sum / 2 ^ 16) in
    if sum / 2 ^ 16 == 0 then sum else rest

-- Two rounds are enough for every uint32_t.
abbrev pub fold : ℕ → ℕ
fold = fold_carries 2

unfoldable pub checksum_finalize : ℕ → ℕ
checksum_finalize sum = (2 ^ 16 - 1) - fold sum

unfoldable pub compute_checksum : List ℕ → ℕ
compute_checksum bytes = checksum_finalize (checksum_accumulate 0 bytes)

unfoldable pub verify_checksum : List ℕ → Bool
verify_checksum bytes = fold (checksum_accumulate 0 bytes) == 2 ^ 16 - 1
