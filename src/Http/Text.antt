-- ===== src/Http/Text.antt =====
-- What the HTTP code uses of std::string, and the helpers of
-- include/neustack/common/string_utils.hpp.
use Prim.Native.Char.{code}
use Prim.Native.String.{String}
use neu_stack.Common.{
  ℕ, zero, suc, ◌+◌, ◌-◌, ◌*◌, ◌/◌, ◌%◌, ◌^◌, Bool, true, false, ◌&&◌, ◌||◌, Option, none, some,
  List, [], ◌∷◌, ◌++◌, length, ltb, leb, ◌==◌, if◌then◌else◌,
}

abbrev pub Bytes : Type 0
Bytes = List ℕ

abbrev pub size : Bytes → ℕ
size s = length s

-- The bytes of a literal.
abbrev pub codes : String → Bytes
codes String.[] = []
codes (String.◌∷◌ c s) = code c ∷ codes s

-- `==` of std::string
abbrev pub bytes_eq : Bytes → Bytes → Bool
bytes_eq [] [] = true
bytes_eq [] (y ∷ ys) = false
bytes_eq (x ∷ xs) [] = false
bytes_eq (x ∷ xs) (y ∷ ys) = x == y && bytes_eq xs ys

-- std::tolower in the C locale
abbrev pub to_lower : ℕ → ℕ
to_lower c = if leb 65 c && leb c 90 then c + 32 else c

-- iequals
unfoldable pub iequals : Bytes → Bytes → Bool
iequals [] [] = true
iequals [] (y ∷ ys) = false
iequals (x ∷ xs) [] = false
iequals (x ∷ xs) (y ∷ ys) = to_lower x == to_lower y && iequals xs ys

-- `find(c)`: the first place of a byte.
unfoldable pub find_byte : ℕ → Bytes → Option ℕ
find_byte c [] = none
find_byte c (x ∷ xs) =
    if x == c then some 0 else elim (find_byte c xs) [ none ↦ none | some k ↦ some (suc k) ]

-- Whether a text begins with a word.
abbrev pub begins_with : Bytes → Bytes → Bool
begins_with [] s = true
begins_with (w ∷ ws) [] = false
begins_with (w ∷ ws) (x ∷ xs) = x == w && begins_with ws xs

-- `find(word) != npos`
unfoldable pub contains_word : Bytes → Bytes → Bool
contains_word word [] = begins_with word []
contains_word word (x ∷ xs) = begins_with word (x ∷ xs) || contains_word word xs

-- `find("\r\n")`
unfoldable pub find_crlf : Bytes → Option ℕ
find_crlf [] = none
find_crlf (x ∷ []) = none
find_crlf (x ∷ (y ∷ rest)) =
    if x == 13 && y == 10
    then some 0
    else elim (find_crlf (y ∷ rest)) [ none ↦ none | some k ↦ some (suc k) ]

-- find_header_ignore_case, on the entries in the order of the iteration.
unfoldable pub find_header_ignore_case : {V : Type 0} → Bytes → List (Bytes × V) → Option V
find_header_ignore_case key [] = none
find_header_ignore_case key ((k, v) ∷ rest) =
    if iequals k key then some v else find_header_ignore_case key rest

abbrev pub is_digit : ℕ → Bool
is_digit c = leb 48 c && leb c 57

-- isspace in the C locale
abbrev pub is_space : ℕ → Bool
is_space c = c == 32 || (leb 9 c && leb c 13)

abbrev pub skip_spaces : Bytes → Bytes
skip_spaces [] = []
skip_spaces (c ∷ rest) = if is_space c then skip_spaces rest else c ∷ rest

-- The number that the leading digits stand for, on top of those read.
abbrev pub read_digits : ℕ → Bytes → ℕ
read_digits n [] = n
read_digits n (c ∷ rest) = if is_digit c then read_digits (n * 10 + (c - 48)) rest else n

-- The digits of strtol and strtoul; `none` where there is none.
abbrev pub read_number : Bytes → Option ℕ
read_number [] = none
read_number (c ∷ rest) = if is_digit c then some (read_digits 0 (c ∷ rest)) else none

-- A sign and the digits: whether it is negative, and the magnitude.
abbrev pub read_signed : Bytes → Option (Bool × ℕ)
read_signed [] = none
read_signed (c ∷ rest) =
    if c == 45
    then elim (read_number rest) [ none ↦ none | some n ↦ some (true, n) ]
    else elim (read_number (if c == 43 then rest else c ∷ rest)) [
      | none ↦ none
      | some n ↦ some (false, n)
    ]

-- stoul_safe, where unsigned long has 64 bits: strtoul negates modulo 2^64, and the default is 0.
unfoldable pub stoul_safe : Bytes → ℕ
stoul_safe s = elim (read_signed (skip_spaces s)) [
  | none ↦ 0
  | some (negative, n) ↦ if leb (2 ^ 64) n then 0 else if negative then (2 ^ 64 - n) % 2 ^ 64 else n
]

-- `n` and `-n` of an int
pub data Integer : Type 0 where
  positive : ℕ → Integer
  negative : ℕ → Integer

-- stoi_safe with the default 0
unfoldable pub stoi_safe : Bytes → Integer
stoi_safe s = elim (read_signed (skip_spaces s)) [
  | none ↦ positive 0
  | some (true, n) ↦ if ltb (2 ^ 31) n then positive 0 else negative n
  | some (false, n) ↦ if leb (2 ^ 31) n then positive 0 else positive n
]

-- std::to_string of an unsigned number, on as many rounds as it may have digits.
unfoldable pub digits_of : ℕ → ℕ → Bytes
digits_of zero n = []
digits_of (suc fuel) n =
    let rest = digits_of fuel (n / 10) in
    if ltb n 10 then (48 + n) ∷ [] else rest ++ ((48 + n % 10) ∷ [])

abbrev pub print_nat : ℕ → Bytes
print_nat n = digits_of (suc n) n
