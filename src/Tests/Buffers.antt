-- ===== src/Tests/Buffers.antt =====
-- The theorems on StreamBuffer, applied to a buffer whose bytes go round its end.
use neu_stack.Common.{◌≡◌, refl, ◌++◌, [], ◌∷◌, take, drop, arith}
use neu_stack.Stream.{StreamBuffer, write, read}
use neu_stack.Stream.Refine.{write_refines, read_refines}
use neu_stack.Stream.Contents.{IsValid, contents}

-- Four bytes in a buffer of five that starts at its fourth place.
abbrev round : StreamBuffer
round = record {
  buffer = 3 ∷ 4 ∷ 0 ∷ 1 ∷ 2 ∷ [];
  capacity = 5;
  read_pos = 3;
  write_pos = 2;
  size = 4;
}

round-IsValid : IsValid round
round-IsValid = record {
  room = omega arith;
  storage = refl;
  read_in = omega arith;
  size_in = omega arith;
  write_at = refl;
}

write_refines_example :
    ((write round (5 ∷ 6 ∷ [])).0 ≡ 1)
    × (contents (write round (5 ∷ 6 ∷ [])).1 ≡ contents round ++ (5 ∷ []))
    × IsValid (write round (5 ∷ 6 ∷ [])).1
write_refines_example = write_refines round (5 ∷ 6 ∷ []) round-IsValid

read_refines_example :
    ((read round 3).0 ≡ take 3 (contents round))
    × (contents (read round 3).1 ≡ drop 3 (contents round))
    × IsValid (read round 3).1
read_refines_example = read_refines round 3 round-IsValid
