-- ===== src/SpscQueue.antt =====
-- include/neustack/common/spsc_queue.hpp: SPSCQueue, the queue between one producing and one
-- consuming thread. A step is one load or store of an atomic position or one access of the array,
-- and the steps of the two threads interleave in any order; acquire and release make each thread
-- see the accesses that the other made before its store. N, here `n`, is a power of two, so `& (N -
-- 1)` is `% n`.
pub mod Slots
pub mod Fifo
use neu_stack.Common.{
  ℕ, ◌+◌, ◌-◌, ◌%◌, ◌^◌, Bool, true, false, Option, none, some, List, [], ◌∷◌, ◌++◌, leb, ◌==◌,
  if◌then◌else◌,
}

-- Where try_push stands: before it, behind its two loads (what it read of `_read_pos`), and behind
-- the store of the item.
pub data Producer (A : Type 0) : Type 0 where
  not_pushing : Producer A
  loaded : A → ℕ → Producer A
  stored : A → Producer A

-- Where try_pop stands: before it, behind its two loads (what it read of `_write_pos`), and behind
-- the read of the item.
pub data Consumer (A : Type 0) : Type 0 where
  not_popping : Consumer A
  seen : ℕ → Consumer A
  taken : A → Consumer A

-- The queue, the two threads, and the items that calls of try_push and try_pop have returned true
-- for, the oldest first.
pub record SpscQueue (A : Type 0) : Type 0 where
  pub buffer : ℕ → A
  pub read_pos : ℕ
  pub write_pos : ℕ
  pub producer : Producer A
  pub consumer : Consumer A
  pub pushed : List A
  pub popped : List A

-- A step of one of the threads; the item is that of a call that begins.
pub data Event (A : Type 0) : Type 0 where
  push_event : A → Event A
  pop_event : Event A

-- `write - read >= N`, of size_t.
abbrev pub is_full : ℕ → ℕ → ℕ → Bool
is_full n write read = leb n ((write + 2 ^ 64 - read) % 2 ^ 64)

module _ {A : Type 0} (n : ℕ) where
  -- `_buffer[pos & (N - 1)] = item`
  abbrev pub put : ℕ → A → (ℕ → A) → ℕ → A
  put pos item buffer i = if i == pos % n then item else buffer i

  -- The next step of try_push, from where it stands.
  unfoldable pub push_from : A → Producer A → SpscQueue A → SpscQueue A
  push_from item not_pushing q = record q { producer = loaded item q.read_pos }
  push_from item (loaded x read) q =
      if is_full n q.write_pos read
      then record q { producer = not_pushing }
      else record q { producer = stored x; buffer = put q.write_pos x q.buffer }
  push_from item (stored x) q = record q {
    producer = not_pushing;
    write_pos = (q.write_pos + 1) % 2 ^ 64;
    pushed = q.pushed ++ (x ∷ []);
  }

  abbrev pub push_step : A → SpscQueue A → SpscQueue A
  push_step item q = push_from item q.producer q

  -- The next step of try_pop, from where it stands.
  unfoldable pub pop_from : Consumer A → SpscQueue A → SpscQueue A
  pop_from not_popping q = record q { consumer = seen q.write_pos }
  pop_from (seen write) q =
      if q.read_pos == write
      then record q { consumer = not_popping }
      else record q { consumer = taken (q.buffer (q.read_pos % n)) }
  pop_from (taken x) q = record q {
    consumer = not_popping;
    read_pos = (q.read_pos + 1) % 2 ^ 64;
    popped = q.popped ++ (x ∷ []);
  }

  abbrev pub pop_step : SpscQueue A → SpscQueue A
  pop_step q = pop_from q.consumer q

  -- The steps in the order in which they happen.
  unfoldable pub run : List (Event A) → SpscQueue A → SpscQueue A
  run [] q = q
  run (push_event item ∷ rest) q = run rest (push_step item q)
  run (pop_event ∷ rest) q = run rest (pop_step q)

-- The constructor; the array holds anything.
abbrev pub empty_queue : {A : Type 0} → (ℕ → A) → SpscQueue A
empty_queue buffer = record {
  buffer = buffer;
  read_pos = 0;
  write_pos = 0;
  producer = not_pushing;
  consumer = not_popping;
  pushed = [];
  popped = [];
}
