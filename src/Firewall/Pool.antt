-- ===== src/Firewall/Pool.antt =====
-- include/neustack/common/memory_pool.hpp: FixedPool, a pool of N slots. A slot is its index, and
-- the free list is the list of indexes that `_free_head` and the nodes after it form.
use neu_stack.Common.{
  ℕ, zero, suc, ◌+◌, ◌-◌, ◌<◌, ◌≡◌, refl, ap, Option, none, some, List, [], ◌∷◌, ◌++◌, length,
  length-append, ltb, ◌==◌, if◌then◌else◌, arith,
}

pub record Pool : Type 0 where
  pub free : List ℕ
  pub in_use_count : ℕ

-- The slots from an index on, so many.
pub slots_from : ℕ → ℕ → List ℕ
slots_from start zero = []
slots_from start (suc n) = start ∷ slots_from (suc start) n

-- reset: the head points to slot 0.
pub reset : ℕ → Pool
reset n = record { free = slots_from 0 n; in_use_count = 0 }

-- acquire and acquire_ptr; `none` is the null pointer.
unfoldable pub acquire : Pool → Option ℕ × Pool
acquire pool = elim pool.free [
  | [] ↦ (none, pool)
  | slot ∷ rest ↦ (some slot, record { free = rest; in_use_count = pool.in_use_count + 1 })
]

-- release, and the deleter of a Ptr.
unfoldable pub release : ℕ → Pool → Pool
release slot pool = record { free = slot ∷ pool.free; in_use_count = pool.in_use_count - 1 }

-- available
abbrev pub available : ℕ → Pool → ℕ
available n pool = n - pool.in_use_count

-- How often a slot stands in a list.
unfoldable pub count : ℕ → List ℕ → ℕ
count slot [] = 0
count slot (s ∷ rest) = (if s == slot then 1 else 0) + count slot rest

-- Of the pool and the slots that are held, each of the n slots is in exactly one place, once.
pub record IsPool (n : ℕ) (pool : Pool) (held : List ℕ) : Type 0 where
  pub once : (slot : ℕ) → count slot pool.free + count slot held ≡ (if ltb slot n then 1 else 0)
  pub counted : pool.in_use_count ≡ length held
  pub all : length pool.free + length held ≡ n

count-slots_from :
    (slot start n : ℕ)
    → count slot (slots_from start n)
      ≡ (if ltb slot start then 0 else if ltb slot (start + n) then 1 else 0)
unfolding count slots_from
count-slots_from slot start zero = ground arith
count-slots_from slot start (suc n) = ground (arith, count-slots_from slot (suc start) n)

length-slots_from : (start n : ℕ) → length (slots_from start n) ≡ n
unfolding slots_from
length-slots_from start zero = refl
length-slots_from start (suc n) = ap suc (length-slots_from (suc start) n)

pub reset-IsPool : (n : ℕ) → IsPool n (reset n) []
unfolding reset count
reset-IsPool n = record {
  once = λ slot. ground (arith, count-slots_from slot 0 n);
  counted = refl;
  all = omega (arith, length-slots_from 0 n);
}

-- What `acquire` gives: nothing when all n slots are held, else a slot that is one of the n and
-- that no one holds, and that is held from then on.
abbrev pub Acquired : ℕ → List ℕ → Pool → Option ℕ × Pool → Type 0
Acquired n held pool (none, pool') = (length held ≡ n) × (pool' ≡ pool)
Acquired n held pool (some slot, pool') =
    (slot < n) × (count slot held ≡ 0) × IsPool n pool' (slot ∷ held)

acquired :
    (n : ℕ) (free : List ℕ) (used : ℕ) (held : List ℕ)
    → let pool : Pool = record { free = free; in_use_count = used } in
      IsPool n pool held → Acquired n held pool (acquire pool)
unfolding acquire count
acquired n [] used held ok = (omega (arith, ok.all), refl)
acquired n (slot ∷ rest) used held ok =
    let here = ok.once slot in
    (
      ground (arith, here),
      ground (arith, here),
      record {
        once = λ s. ground (arith, ok.once s);
        counted = omega (arith, ok.counted);
        all = omega (arith, ok.all);
      },
    )

-- A slot that is given out is one of the n, is held by no one else, and is then held; nothing is
-- given out only when all n are held.
pub acquire-IsPool :
    (n : ℕ) (pool : Pool) (held : List ℕ) → IsPool n pool held → Acquired n held pool (acquire pool)
acquire-IsPool n pool held ok = acquired n pool.free pool.in_use_count held ok

count-append : (slot : ℕ) (xs ys : List ℕ) → count slot (xs ++ ys) ≡ count slot xs + count slot ys
unfolding count
count-append slot [] ys = omega arith
count-append slot (x ∷ xs) ys = omega (arith, count-append slot xs ys)

-- What is held and released can be given out again.
pub release-IsPool :
    (n slot : ℕ) (pool : Pool) (before after : List ℕ)
    → IsPool n pool (before ++ (slot ∷ after))
    → IsPool n (release slot pool) (before ++ after)
unfolding release count
release-IsPool n slot pool before after ok =
    let old = length-append before (slot ∷ after) in
    let new = length-append before after in
    record {
      once = λ s.
          omega
            (arith, ok.once s, count-append s before (slot ∷ after), count-append s before after);
      counted = omega (arith, ok.counted, old, new);
      all = omega (arith, ok.all, old, new);
    }

-- Released at once, a slot leaves the pool as it was.
pub release-acquire :
    (pool : Pool) (slot : ℕ) → (acquire pool).0 ≡ some slot → release slot (acquire pool).1 ≡ pool
unfolding acquire release
release-acquire pool slot got = undo pool.free pool.in_use_count slot got
  where
    undo :
        (free : List ℕ) (used slot : ℕ)
        → let pool : Pool = record { free = free; in_use_count = used } in
          (acquire pool).0 ≡ some slot → release slot (acquire pool).1 ≡ pool
    undo [] used slot got = absurd (ground (arith, got))
    undo (s ∷ rest) used slot got = ground (arith, got)
