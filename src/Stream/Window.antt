-- ===== src/Stream/Window.antt =====
-- Lists of bytes by their elements: what the copies of StreamBuffer leave at each index.
use neu_stack.Common.{
  ℕ, zero, suc, ◌+◌, ◌-◌, ◌≤◌, ◌<◌, ◌≡◌, refl, ap, ◌∙◌, List, [], ◌∷◌, ◌++◌, length, length-append,
  length-take, length-drop, get_or, take, drop, ltb, if◌then◌else◌, arith,
}
use mathlib.Core.Path.{ap₂}
use neu_stack.Stream.{blit}

-- The list of `f 0`, ..., `f (n - 1)`.
pub tabulate : ℕ → (ℕ → ℕ) → List ℕ
tabulate zero f = []
tabulate (suc n) f = f 0 ∷ tabulate n (λ i. f (suc i))

pub length-tabulate : (n : ℕ) (f : ℕ → ℕ) → length (tabulate n f) ≡ n
unfolding tabulate
length-tabulate zero f = refl
length-tabulate (suc n) f = ap suc (length-tabulate n (λ i. f (suc i)))

pub tabulate-congr :
    (n : ℕ) (f g : ℕ → ℕ) → ((i : ℕ) → i < n → f i ≡ g i) → tabulate n f ≡ tabulate n g
unfolding tabulate
tabulate-congr zero f g h = refl
tabulate-congr (suc n) f g h =
    ap₂ ◌∷◌ (h 0 (omega arith))
      (tabulate-congr n (λ i. f (suc i)) (λ i. g (suc i)) (λ i hi. h (suc i) (omega arith)))

pub tabulate-append :
    (m n : ℕ) (f : ℕ → ℕ) → tabulate (m + n) f ≡ tabulate m f ++ tabulate n (λ i. f (m + i))
unfolding tabulate
tabulate-append zero n f =
    let e : zero + n ≡ n = omega arith in
    rw e (tabulate-congr n f (λ i. f (zero + i)) (λ i hi. ap f (omega arith)))
tabulate-append (suc m) n f =
    let e : suc m + n ≡ suc (m + n) = omega arith in
    rw e (
      ap (◌∷◌ (f 0)) (
        tabulate-append m n (λ i. f (suc i))
        ∙ ap (◌++◌ (tabulate m (λ i. f (suc i)))) (
            tabulate-congr n (λ i. f (suc (m + i))) (λ i. f (suc m + i))
              (λ i hi. ap f (omega arith)))))

-- Every list is the table of its elements.
pub tabulate-get_or : (n : ℕ) (xs : List ℕ) → length xs ≡ n → tabulate n (λ i. get_or xs i 0) ≡ xs
unfolding tabulate
tabulate-get_or zero [] h = refl
tabulate-get_or zero (x ∷ xs) h = absurd (omega arith)
tabulate-get_or (suc n) [] h = absurd (omega arith)
tabulate-get_or (suc n) (x ∷ xs) h = ap (◌∷◌ x) (tabulate-get_or n xs (omega arith))

pub drop-tabulate :
    (m n : ℕ) (f : ℕ → ℕ) → m ≤ n → drop m (tabulate n f) ≡ tabulate (n - m) (λ i. f (m + i))
unfolding tabulate
drop-tabulate zero n f h =
    let e : n - zero ≡ n = omega arith in
    rw e (tabulate-congr n f (λ i. f (zero + i)) (λ i hi. ap f (omega arith)))
drop-tabulate (suc m) zero f h = absurd (omega arith)
drop-tabulate (suc m) (suc n) f h =
    let e : suc n - suc m ≡ n - m = omega arith in
    rw e (
      drop-tabulate m n (λ i. f (suc i)) (omega arith)
      ∙ tabulate-congr (n - m) (λ i. f (suc (m + i))) (λ i. f (suc m + i))
          (λ i hi. ap f (omega arith)))

pub take-tabulate : (m n : ℕ) (f : ℕ → ℕ) → m ≤ n → take m (tabulate n f) ≡ tabulate m f
unfolding tabulate
take-tabulate zero n f h = refl
take-tabulate (suc m) zero f h = absurd (omega arith)
take-tabulate (suc m) (suc n) f h =
    ap (◌∷◌ (f 0)) (take-tabulate m n (λ i. f (suc i)) (omega arith))

pub get_or-append :
    (xs ys : List ℕ) (i : ℕ)
    → get_or (xs ++ ys) i 0
      ≡ (if ltb i (length xs) then get_or xs i 0 else get_or ys (i - length xs) 0)
get_or-append [] ys i = ground (arith, ap (λ k. get_or ys k 0) (sub_zero i))
  where
    sub_zero : (i : ℕ) → i ≡ i - 0
    sub_zero i = omega arith
get_or-append (x ∷ xs) ys zero = ground arith
get_or-append (x ∷ xs) ys (suc i) =
    let e : suc i - suc (length xs) ≡ i - length xs = omega arith in
    rw e (ground (arith, get_or-append xs ys i))

pub get_or-take :
    (n : ℕ) (xs : List ℕ) (i : ℕ) → get_or (take n xs) i 0 ≡ (if ltb i n then get_or xs i 0 else 0)
get_or-take zero xs i = ground arith
get_or-take (suc n) [] i = ground arith
get_or-take (suc n) (x ∷ xs) zero = ground arith
get_or-take (suc n) (x ∷ xs) (suc i) = ground (arith, get_or-take n xs i)

pub get_or-drop : (n : ℕ) (xs : List ℕ) (i : ℕ) → get_or (drop n xs) i 0 ≡ get_or xs (n + i) 0
get_or-drop zero xs i = ap (λ k. get_or xs k 0) (omega arith)
get_or-drop (suc n) [] i = refl
get_or-drop (suc n) (x ∷ xs) i =
    let e : suc n + i ≡ suc (n + i) = omega arith in rw e (get_or-drop n xs i)

pub length-blit :
    (buf : List ℕ) (pos : ℕ) (xs : List ℕ)
    → pos + length xs ≤ length buf
    → length (blit buf pos xs) ≡ length buf
unfolding blit
length-blit buf pos xs h = omega (
  arith,
  length-append (take pos buf) (xs ++ drop (pos + length xs) buf),
  length-append xs (drop (pos + length xs) buf),
  length-take pos buf,
  length-drop (pos + length xs) buf,
)

-- memcpy writes its bytes at `pos`, and nothing else.
pub get_or-blit :
    (buf : List ℕ) (pos : ℕ) (xs : List ℕ) (j : ℕ)
    → pos + length xs ≤ length buf
    → get_or (blit buf pos xs) j 0 ≡ (
        if ltb j pos
        then get_or buf j 0
        else if ltb j (pos + length xs)
        then get_or xs (j - pos) 0
        else get_or buf j 0)
unfolding blit
get_or-blit buf pos xs j h =
    let same : length (take pos buf) ≡ pos = omega (arith, length-take pos buf) in
    ground (
      arith,
      same,
      get_or-append (take pos buf) (xs ++ drop (pos + length xs) buf) j,
      get_or-append xs (drop (pos + length xs) buf) (j - pos),
      get_or-take pos buf j,
      get_or-drop (pos + length xs) buf (j - pos - length xs),
    )
