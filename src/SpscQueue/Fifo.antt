-- ===== src/SpscQueue/Fifo.antt =====
-- include/neustack/common/spsc_queue.hpp: the order of the items in every interleaving of the
-- threads.
use neu_stack.Common.{
  ℕ, suc, ◌+◌, ◌-◌, ◌*◌, ◌%◌, ◌^◌, ◌≤◌, ◌<◌, ◌≡◌, refl, ap, sym, ◌∙◌, inl, inr, true, false, some,
  List, [], ◌∷◌, ◌++◌, ◌==◌, length, length-append, take, take_append_le, arith, Bool-cases,
}
use mathlib.Core.Path.{subst}
use native.Mathlib.Decide.{dec_le}
use neu_stack.SpscQueue.Slots.{slots-apart, slot-wrap, at, at-append, at-last, take-suc, at-kept}
use neu_stack.SpscQueue.{
  Producer, not_pushing, loaded, stored, Consumer, not_popping, seen, taken, SpscQueue, Event,
  push_event, pop_event, put, is_full, push_from, push_step, pop_from, pop_step, run, empty_queue,
}

-- Where the consumer stands: it has read an old `_write_pos`, or it has taken the next item.
abbrev ConsumerFits : {A : Type 0} → List A → List A → Consumer A → Type 0
ConsumerFits pushed popped not_popping = Unit {0}
ConsumerFits pushed popped (seen write) =
    (w : ℕ) × (write ≡ w % 2 ^ 64) × (length popped ≤ w) × (w ≤ length pushed)
ConsumerFits pushed popped (taken x) =
    (at pushed (length popped) ≡ some x) × (length popped < length pushed)

module _ {A : Type 0} (n : ℕ) where
  -- Where the producer stands: it has read an old `_read_pos` from which there is room, or it has
  -- written the slot behind the last item.
  abbrev ProducerFits : (ℕ → A) → List A → List A → Producer A → Type 0
  ProducerFits buffer pushed popped not_pushing = Unit {0}
  ProducerFits buffer pushed popped (loaded x read) =
      (r : ℕ) × (read ≡ r % 2 ^ 64) × (r ≤ length popped) × (length pushed ≤ r + n)
  ProducerFits buffer pushed popped (stored x) =
      (length pushed < length popped + n) × (buffer (length pushed % n) ≡ x)

  -- The slots between the two positions hold the items that are not popped yet.
  abbrev Holds : (ℕ → A) → List A → List A → Type 0
  Holds buffer pushed popped =
      (j : ℕ) → length popped ≤ j → j < length pushed → at pushed j ≡ some (buffer (j % n))

  -- The positions count the items, and what is popped is the first of what is pushed.
  pub record IsFifo (q : SpscQueue A) : Type 0 where
    pub write_pos : q.write_pos ≡ length q.pushed % 2 ^ 64
    pub read_pos : q.read_pos ≡ length q.popped % 2 ^ 64
    pub ordered : length q.popped ≤ length q.pushed
    pub bounded : length q.pushed ≤ length q.popped + n
    pub popped : q.popped ≡ take (length q.popped) q.pushed
    pub slots : Holds q.buffer q.pushed q.popped
    pub producer : ProducerFits q.buffer q.pushed q.popped q.producer
    pub consumer : ConsumerFits q.pushed q.popped q.consumer

ConsumerFits-push :
    {A : Type 0} (pushed popped : List A) (x : A) (c : Consumer A)
    → ConsumerFits pushed popped c
    → ConsumerFits (pushed ++ (x ∷ [])) popped c
ConsumerFits-push pushed popped x not_popping fits = tt
ConsumerFits-push pushed popped x (seen write) (w, e, low, high) =
    (w, e, low, omega (arith, high, length-append pushed (x ∷ [])))
ConsumerFits-push pushed popped x (taken y) (next, less) = (
  at-kept pushed (x ∷ []) (length popped) y next,
  omega (arith, less, length-append pushed (x ∷ [])),
)

ProducerFits-pop :
    {A : Type 0} (n : ℕ) (buffer : ℕ → A) (pushed popped : List A) (x : A) (p : Producer A)
    → ProducerFits n buffer pushed popped p
    → ProducerFits n buffer pushed (popped ++ (x ∷ [])) p
ProducerFits-pop n buffer pushed popped x not_pushing fits = tt
ProducerFits-pop n buffer pushed popped x (loaded y read) (r, e, low, high) =
    (r, e, omega (arith, low, length-append popped (x ∷ [])), high)
ProducerFits-pop n buffer pushed popped x (stored y) (less, slot) =
    (omega (arith, less, length-append popped (x ∷ [])), slot)

module _ {A : Type 0} (n m : ℕ) (size : n * m ≡ 2 ^ 64) (small : n < 2 ^ 64) where
  -- The slot that is written is none of those that the queue holds.
  put-Holds :
      (buffer : ℕ → A) (pushed popped : List A) (x : A)
      → length pushed < length popped + n
      → Holds n buffer pushed popped
      → Holds n (put n (length pushed % 2 ^ 64) x buffer) pushed popped
  put-Holds buffer pushed popped x room holds j low high =
      let w = length pushed in
      let wrap = slot-wrap n m w size in
      let apart = slots-apart n j (w - j) (omega (arith, high)) (omega (arith, room, low, high)) in
      let back : j + (w - j) ≡ w = omega (arith, high) in
      let same : (j + (w - j)) % n ≡ w % 2 ^ 64 % n = ap (λ k. k % n) back ∙ sym wrap in
      let other : (j % n == w % 2 ^ 64 % n) ≡ false = ground (arith, apart, same) in
      rw other (holds j low high)

  put-own : (buffer : ℕ → A) (w : ℕ) (x : A) → put n (w % 2 ^ 64) x buffer (w % n) ≡ x
  put-own buffer w x =
      let own : (w % n == w % 2 ^ 64 % n) ≡ true = ground (arith, slot-wrap n m w size) in
      rw own refl

  -- The item that is published is in the slot behind the others.
  Holds-push :
      (buffer : ℕ → A) (pushed popped : List A) (x : A)
      → buffer (length pushed % n) ≡ x
      → Holds n buffer pushed popped
      → Holds n buffer (pushed ++ (x ∷ [])) popped
  Holds-push buffer pushed popped x slot holds j low high = elim (dec_le (suc j) (length pushed)) [
    | yes before ↦ at-append pushed (x ∷ []) j before ∙ holds j low before
    | no behind ↦
        let last : length pushed ≡ j = omega (arith, behind, high, length-append pushed (x ∷ [])) in
        rw (← last) (at-last pushed x ∙ ap some (sym slot))
  ]

  push_from-IsFifo :
      (item : A) (p : Producer A) (q : SpscQueue A)
      → IsFifo n q
      → ProducerFits n q.buffer q.pushed q.popped p
      → IsFifo n (push_from n item p q)
  unfolding push_from
  push_from-IsFifo item not_pushing q ok fits = record {
    write_pos = ok.write_pos;
    read_pos = ok.read_pos;
    ordered = ok.ordered;
    bounded = ok.bounded;
    popped = ok.popped;
    slots = ok.slots;
    producer = (length q.popped, ok.read_pos, omega arith, ok.bounded);
    consumer = ok.consumer;
  }
  push_from-IsFifo item (loaded x read) q ok (r, old, low, high) =
      elim (Bool-cases (is_full n q.write_pos read)) [
        | inl full ↦ rw full record {
          write_pos = ok.write_pos;
          read_pos = ok.read_pos;
          ordered = ok.ordered;
          bounded = ok.bounded;
          popped = ok.popped;
          slots = ok.slots;
          producer = tt;
          consumer = ok.consumer;
        }
        | inr free ↦
            let room : length q.pushed < length q.popped + n =
              ground (arith, ok.write_pos, old, low, high, ok.ordered, small, free) in
            rw free record {
              write_pos = ok.write_pos;
              read_pos = ok.read_pos;
              ordered = ok.ordered;
              bounded = ok.bounded;
              popped = ok.popped;
              slots =
                  subst (λ p. Holds n (put n p x q.buffer) q.pushed q.popped) (sym ok.write_pos)
                    (put-Holds q.buffer q.pushed q.popped x room ok.slots);
              producer = (
                room,
                subst (λ p. put n p x q.buffer (length q.pushed % n) ≡ x) (sym ok.write_pos)
                    (put-own q.buffer (length q.pushed) x),
              );
              consumer = ok.consumer;
            }
      ]
  push_from-IsFifo item (stored x) q ok (room, slot) =
      let more = length-append q.pushed (x ∷ []) in
      record {
        write_pos = omega (arith, ok.write_pos, more);
        read_pos = ok.read_pos;
        ordered = omega (arith, ok.ordered, more);
        bounded = omega (arith, room, more);
        popped = ok.popped ∙ sym (take_append_le (length q.popped) q.pushed (x ∷ []) ok.ordered);
        slots = Holds-push q.buffer q.pushed q.popped x slot ok.slots;
        producer = tt;
        consumer = ConsumerFits-push q.pushed q.popped x q.consumer ok.consumer;
      }

  pop_from-IsFifo :
      (c : Consumer A) (q : SpscQueue A)
      → IsFifo n q
      → ConsumerFits q.pushed q.popped c
      → IsFifo n (pop_from n c q)
  unfolding pop_from
  pop_from-IsFifo not_popping q ok fits = record {
    write_pos = ok.write_pos;
    read_pos = ok.read_pos;
    ordered = ok.ordered;
    bounded = ok.bounded;
    popped = ok.popped;
    slots = ok.slots;
    producer = ok.producer;
    consumer = (length q.pushed, ok.write_pos, ok.ordered, omega arith);
  }
  pop_from-IsFifo (seen write) q ok (w, old, low, high) = elim (Bool-cases (q.read_pos == write)) [
    | inl none_left ↦ rw none_left record {
      write_pos = ok.write_pos;
      read_pos = ok.read_pos;
      ordered = ok.ordered;
      bounded = ok.bounded;
      popped = ok.popped;
      slots = ok.slots;
      producer = ok.producer;
      consumer = tt;
    }
    | inr one ↦
        let there : length q.popped < length q.pushed =
          ground (arith, ok.read_pos, old, low, high, one) in
        rw one record {
          write_pos = ok.write_pos;
          read_pos = ok.read_pos;
          ordered = ok.ordered;
          bounded = ok.bounded;
          popped = ok.popped;
          slots = ok.slots;
          producer = ok.producer;
          consumer = (
            subst (λ p. at q.pushed (length q.popped) ≡ some (q.buffer (p % n))) (sym ok.read_pos)
                (ok.slots (length q.popped) (omega arith) there
                  ∙ ap (λ i. some (q.buffer i)) (sym (slot-wrap n m (length q.popped) size))),
            there,
          );
        }
  ]
  pop_from-IsFifo (taken x) q ok (next, less) =
      let more = length-append q.popped (x ∷ []) in
      let grown : suc (length q.popped) ≡ length (q.popped ++ (x ∷ [])) = omega (arith, more) in
      record {
        write_pos = ok.write_pos;
        read_pos = omega (arith, ok.read_pos, more);
        ordered = omega (arith, less, more);
        bounded = omega (arith, ok.bounded, more);
        popped =
            ap (λ xs. xs ++ (x ∷ [])) ok.popped
            ∙ sym (take-suc (length q.popped) q.pushed x next)
            ∙ ap (λ k. take k q.pushed) grown;
        slots = λ j low high. ok.slots j (omega (arith, low, more)) high;
        producer = ProducerFits-pop n q.buffer q.pushed q.popped x q.producer ok.producer;
        consumer = tt;
      }

  run-IsFifo : (events : List (Event A)) (q : SpscQueue A) → IsFifo n q → IsFifo n (run n events q)
  unfolding run
  run-IsFifo [] q ok = ok
  run-IsFifo (push_event item ∷ rest) q ok =
      run-IsFifo rest (push_step n item q) (push_from-IsFifo item q.producer q ok ok.producer)
  run-IsFifo (pop_event ∷ rest) q ok =
      run-IsFifo rest (pop_step n q) (pop_from-IsFifo q.consumer q ok ok.consumer)

  empty_queue-IsFifo : (buffer : ℕ → A) → IsFifo n (empty_queue buffer)
  empty_queue-IsFifo buffer = record {
    write_pos = refl;
    read_pos = refl;
    ordered = omega arith;
    bounded = omega arith;
    popped = refl;
    slots = λ j low high. absurd (omega (arith, high));
    producer = tt;
    consumer = tt;
  }

-- In every interleaving of the steps of one pushing and one popping thread, however often the two
-- positions have wrapped round: what has been popped is the first of what has been pushed, in the
-- same order, and at most N items are in between, if N divides 2^64 and is less.
pub run-fifo :
    {A : Type 0} (n m : ℕ) (buffer : ℕ → A) (events : List (Event A))
    → n * m ≡ 2 ^ 64
    → n < 2 ^ 64
    → let q = run n events (empty_queue buffer) in
      (q.popped ≡ take (length q.popped) q.pushed)
      × (length q.popped ≤ length q.pushed)
      × (length q.pushed ≤ length q.popped + n)
run-fifo n m buffer events size small =
    let ok =
      run-IsFifo n m size small events (empty_queue buffer)
        (empty_queue-IsFifo n m size small buffer) in
    (ok.popped, ok.ordered, ok.bounded)
