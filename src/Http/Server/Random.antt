-- ===== src/Http/Server/Random.antt =====
-- include/neustack/app/http_server.hpp: RandomDataGenerator, the chunks that it gives. The words of
-- its generator are written to memory lowest byte first.
use Prim.Native.Nat.{bit_xor}
use neu_stack.Common.{
  ℕ, zero, suc, ◌+◌, ◌-◌, ◌*◌, ◌/◌, ◌%◌, ◌^◌, ◌≤◌, ◌<◌, min, ◌≡◌, refl, ◌∙◌, Bool, List, [], ◌∷◌,
  ◌++◌, length, take, ltb, leb, ◌==◌, if◌then◌else◌, arith, inl, inr, Bool-cases, length-append,
  length-take,
}
use neu_stack.Http.Text.{Bytes, codes}
use neu_stack.Http.Parser.Rounds.{concat}
use neu_stack.Http.Server.Stream.{Generator}

record RandomData : Type 0 where
  total_bytes : ℕ
  sent_bytes : ℕ
  state : ℕ

abbrev new_random : ℕ → RandomData
new_random total = record { total_bytes = total; sent_bytes = 0; state = 0xDEADBEEF }

-- The three assignments to `_state`.
abbrev xorshift : ℕ → ℕ
xorshift x =
    let a = bit_xor x (x * 2 ^ 13 % 2 ^ 32) in
    let b = bit_xor a (a / 2 ^ 17) in bit_xor b (b * 2 ^ 5 % 2 ^ 32)

abbrev word_bytes : ℕ → Bytes
word_bytes x = x % 256 ∷ x / 256 % 256 ∷ x / 2 ^ 16 % 256 ∷ x / 2 ^ 24 % 256 ∷ []

-- The loop that fills a chunk of `left` bytes, four at a time: the bytes, and the state behind
-- them.
unfoldable fill : ℕ → ℕ → ℕ → Bytes × ℕ
fill zero left x = ([], x)
fill (suc fuel) left x =
    let rest = fill fuel (left - 4) (xorshift x) in
    if left == 0 then ([], x) else (take (min left 4) (word_bytes (xorshift x)) ++ rest.0, rest.1)

abbrev has_more : RandomData → Bool
has_more g = ltb g.sent_bytes g.total_bytes

-- RandomDataGenerator::next_chunk
unfoldable next_chunk : ℕ → RandomData → Bytes × RandomData
next_chunk chunk_size g =
    let to_generate = min chunk_size (g.total_bytes - g.sent_bytes) in
    let filled = fill to_generate to_generate g.state in
    if leb g.total_bytes g.sent_bytes
    then ([], g)
    else (filled.0, record g { sent_bytes = g.sent_bytes + to_generate; state = filled.1 })

-- The chunks of calls of next_chunk for as long as there are more.
unfoldable all_chunks : ℕ → ℕ → RandomData → List Bytes
all_chunks zero chunk_size g = []
all_chunks (suc fuel) chunk_size g =
    let rest = all_chunks fuel chunk_size (next_chunk chunk_size g).1 in
    if has_more g then (next_chunk chunk_size g).0 ∷ rest else []

length-fill : (fuel left x : ℕ) → left ≤ fuel → length (fill fuel left x).0 ≡ left
unfolding fill
length-fill zero left x enough = omega (arith, enough)
length-fill (suc fuel) left x enough =
    let rest = length-fill fuel (left - 4) (xorshift x) (omega (arith, enough)) in
    elim (Bool-cases (left == 0)) [
      | inl none_left ↦ rw none_left (ground (arith, none_left))
      | inr some_left ↦ rw some_left (
          length-append (take (min left 4) (word_bytes (xorshift x)))
            (fill fuel (left - 4) (xorshift x)).0
          ∙ ground (arith, some_left, rest, length-take (min left 4) (word_bytes (xorshift x))))
    ]

-- A chunk is as long as asked for, or as there are bytes left, which it counts.
record IsChunk (chunk_size : ℕ) (g : RandomData) (r : Bytes × RandomData) : Type 0 where
  size : length r.0 ≡ min chunk_size (g.total_bytes - g.sent_bytes)
  total : r.1.total_bytes ≡ g.total_bytes
  counted : r.1.sent_bytes ≡ g.sent_bytes + length r.0

next_chunk-IsChunk :
    (chunk_size : ℕ) (g : RandomData) → IsChunk chunk_size g (next_chunk chunk_size g)
unfolding next_chunk
next_chunk-IsChunk chunk_size g =
    let n = min chunk_size (g.total_bytes - g.sent_bytes) in
    let size = length-fill n n g.state (omega arith) in
    elim (Bool-cases (leb g.total_bytes g.sent_bytes)) [
      | inl over ↦
          rw over record { size = ground (arith, over); total = refl; counted = omega arith }
      | inr more ↦ rw more record { size = size; total = refl; counted = omega (arith, size) }
    ]

-- All chunks together are as many bytes as were still to be sent.
all_chunks-total :
    (fuel chunk_size : ℕ) (g : RandomData)
    → 0 < chunk_size
    → g.total_bytes - g.sent_bytes ≤ fuel
    → length (concat (all_chunks fuel chunk_size g)) ≡ g.total_bytes - g.sent_bytes
unfolding all_chunks
all_chunks-total zero chunk_size g room enough = omega (arith, enough)
all_chunks-total (suc fuel) chunk_size g room enough =
    let r = next_chunk chunk_size g in
    let law = next_chunk-IsChunk chunk_size g in
    elim (Bool-cases (has_more g)) [
      | inl more ↦
          let left : r.1.total_bytes - r.1.sent_bytes ≤ fuel =
            ground (arith, more, law.size, law.total, law.counted, room, enough) in
          let rest = all_chunks-total fuel chunk_size r.1 room left in
          rw more (
            length-append r.0 (concat (all_chunks fuel chunk_size r.1))
            ∙ omega (arith, rest, law.size, law.total, law.counted))
      | inr over ↦ rw over (ground (arith, over))
    ]

-- What the server streams for a RandomDataGenerator of `total` bytes.
abbrev random_response : ℕ → Generator
random_response total = record {
  chunks = all_chunks total 32768 (new_random total);
  total_size = total;
  type = codes "application/octet-stream";
}

-- The Content-Length of such a response is right: its chunks together have as many bytes.
random_response-total_size :
    (total : ℕ)
    → length (concat (random_response total).chunks) ≡ (random_response total).total_size
random_response-total_size total =
    let whole = all_chunks-total total 32768 (new_random total) (omega arith) (omega arith) in
    omega (arith, whole)
