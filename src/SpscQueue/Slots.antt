-- ===== src/SpscQueue/Slots.antt =====
-- The slots of positions, and lists by their elements.
use neu_stack.Common.{
  ℕ, zero, suc, ◌+◌, ◌-◌, ◌*◌, ◌/◌, ◌%◌, ◌^◌, ◌<◌, ◌≡◌, ◌≢◌, refl, ap, sym, ◌∙◌, Option, none, some,
  List, [], ◌∷◌, ◌++◌, length, take, arith,
}
use native.Mathlib.Decide.{dec_le}
use native.Mathlib.Nat.{
  mod-lt, mod-add-mod, mod-eq_of_lt, mod-eq-sub-mod, div-add-mod, mul-add-mod_self_left, mul_assoc,
}

-- Two positions less than n apart have different slots.
pub slots-apart : (n j d : ℕ) → 0 < d → d < n → j % n ≢ (j + d) % n
slots-apart n j d hd hn e =
    let x = j % n in
    let below : x < n = mod-lt j (omega arith) in
    let sum : (x + d) % n ≡ (j + d) % n = mod-add-mod j n d in
    elim (dec_le n (x + d)) [
      | yes over ↦
          let wrapped : (x + d) % n ≡ x + d - n =
            mod-eq-sub-mod over ∙ mod-eq_of_lt (omega arith) in
          omega (arith, e, sum, wrapped)
      | no under ↦
          let same : (x + d) % n ≡ x + d = mod-eq_of_lt (omega arith) in omega (arith, e, sum, same)
    ]

-- A position that has wrapped round has the slot that it had without.
pub slot-wrap : (n m w : ℕ) → n * m ≡ 2 ^ 64 → w % 2 ^ 64 % n ≡ w % n
slot-wrap n m w e =
    let q = w / 2 ^ 64 in
    let split : 2 ^ 64 * q + w % 2 ^ 64 ≡ w = div-add-mod w (2 ^ 64) in
    let whole : n * (m * q) ≡ 2 ^ 64 * q = sym (mul_assoc n m q) ∙ ap (λ k. k * q) e in
    sym (mul-add-mod_self_left n (m * q) (w % 2 ^ 64))
    ∙ ap (λ k. (k + w % 2 ^ 64) % n) whole
    ∙ ap (λ k. k % n) split

module _ {A : Type 0} where
  -- The element at an index.
  abbrev pub at : List A → ℕ → Option A
  at [] i = none
  at (x ∷ xs) zero = some x
  at (x ∷ xs) (suc i) = at xs i

  pub at-append : (xs ys : List A) (i : ℕ) → i < length xs → at (xs ++ ys) i ≡ at xs i
  at-append [] ys i h = absurd (omega arith)
  at-append (x ∷ xs) ys zero h = refl
  at-append (x ∷ xs) ys (suc i) h = at-append xs ys i (omega arith)

  pub at-last : (xs : List A) (x : A) → at (xs ++ (x ∷ [])) (length xs) ≡ some x
  at-last [] x = refl
  at-last (y ∷ xs) x = at-last xs x

  pub take-suc :
      (n : ℕ) (xs : List A) (x : A) → at xs n ≡ some x → take (suc n) xs ≡ take n xs ++ (x ∷ [])
  take-suc n [] x h = absurd (ground (arith, h))
  take-suc zero (y ∷ xs) x h = ground (arith, h)
  take-suc (suc n) (y ∷ xs) x h = ap (◌∷◌ y) (take-suc n xs x h)

  pub at-kept : (xs ys : List A) (i : ℕ) (x : A) → at xs i ≡ some x → at (xs ++ ys) i ≡ some x
  at-kept [] ys i x h = absurd (ground (arith, h))
  at-kept (y ∷ xs) ys zero x h = h
  at-kept (y ∷ xs) ys (suc i) x h = at-kept xs ys i x h
