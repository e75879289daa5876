-- ===== src/MetricsBuffer.antt =====
-- include/neustack/common/ring_buffer.hpp: MetricsBuffer, the ring of samples in which new samples
-- overwrite old ones, with its calls one after the other. N, here `n`, is a power of two, so
-- `& (N - 1)` is `% n`; the array is a function of the slot.
pub mod Recent
use neu_stack.Common.{
  ℕ, zero, suc, ◌+◌, ◌-◌, ◌%◌, ◌^◌, Bool, List, [], ◌∷◌, ◌++◌, ◌==◌, min, if◌then◌else◌,
}

pub record MetricsBuffer (A : Type 0) : Type 0 where
  pub buffer : ℕ → A
  pub write_pos : ℕ

-- The calls that change the buffer.
pub data Call (A : Type 0) : Type 0 where
  push_call : A → Call A
  clear_call : Call A

-- The constructor; the array holds anything.
abbrev pub empty_metrics : {A : Type 0} → (ℕ → A) → MetricsBuffer A
empty_metrics buffer = record { buffer = buffer; write_pos = 0 }

module _ {A : Type 0} (n : ℕ) where
  -- `_buffer[pos & (N - 1)] = sample`
  abbrev pub write_slot : ℕ → A → (ℕ → A) → ℕ → A
  write_slot pos sample buffer i = if i == pos % n then sample else buffer i

  unfoldable pub push : A → MetricsBuffer A → MetricsBuffer A
  push sample b = record {
    buffer = write_slot b.write_pos sample b.buffer;
    write_pos = (b.write_pos + 1) % 2 ^ 64;
  }

  -- `default` is `T{}`.
  unfoldable pub latest : A → MetricsBuffer A → A
  latest default b = if b.write_pos == 0 then default else b.buffer ((b.write_pos - 1) % n)

  -- The loop of recent, over as many positions as it has left.
  unfoldable pub read_slots : ℕ → ℕ → (ℕ → A) → List A
  read_slots zero i buffer = []
  read_slots (suc left) i buffer = buffer (i % n) ∷ read_slots left (i + 1) buffer

  unfoldable pub recent : ℕ → MetricsBuffer A → List A
  recent k b =
      let taken = min k (min b.write_pos n) in read_slots taken (b.write_pos - taken) b.buffer

  abbrev pub all : MetricsBuffer A → List A
  all b = recent n b

  unfoldable pub count : MetricsBuffer A → ℕ
  count b = min b.write_pos n

  abbrev pub total_pushed : MetricsBuffer A → ℕ
  total_pushed b = b.write_pos

  abbrev pub is_empty : MetricsBuffer A → Bool
  is_empty b = b.write_pos == 0

  unfoldable pub clear : MetricsBuffer A → MetricsBuffer A
  clear b = record b { write_pos = 0 }

  -- The calls in their order.
  unfoldable pub run_calls : List (Call A) → MetricsBuffer A → MetricsBuffer A
  run_calls [] b = b
  run_calls (push_call sample ∷ rest) b = run_calls rest (push sample b)
  run_calls (clear_call ∷ rest) b = run_calls rest (clear b)
