-- ===== src/Tcp/Queue.antt =====
-- src/transport/tcp_connection.cpp: the retransmission queue as a chain of numbers, and what an
-- acknowledgement takes off it.
use neu_stack.Common.{
  ℕ, ◌-◌, ◌^◌, ◌≤◌, ◌<◌, ◌≡◌, refl, List, [], ◌∷◌, length, length-drop, drop, ltb, leb, ◌==◌,
  if◌then◌else◌, arith, Bool-cases, inl, inr,
}
use mathlib.Core.Path.{subst₂}
use neu_stack.Seq.{u32, add32, sub32, seq_lt, seq_le}
use neu_stack.Seq.Order.{compare_from_base, seq_lt-Ahead}
use neu_stack.Tcp.{RetransmitEntry, Tcb}
use neu_stack.Tcp.Send.{max_tcp_size}
use neu_stack.Tcp.Ack.{remove_acked, move_edge, truncate, measure, update_rtt, smooth}

-- The sequence numbers of an entry: one for each byte, or the one of a SYN or FIN.
abbrev pub span : RetransmitEntry → ℕ
span e = if length e.bytes == 0 then 1 else length e.bytes

-- The entries follow one another from `start` on and take `total` numbers.
abbrev pub Chain : ℕ → List RetransmitEntry → ℕ → Type 0
Chain start [] total = total ≡ 0
Chain start (e ∷ rest) total =
    (e.seq_start ≡ start)
    × (e.seq_end ≡ add32 start (span e))
    × (span e ≤ max_tcp_size)
    × (span e ≤ total)
    × Chain (add32 start (span e)) rest (total - span e)

abbrev pub in_flight : Tcb → ℕ
in_flight t = sub32 t.snd_nxt t.snd_una

pub record InFlight (t : Tcb) : Type 0 where
  pub una : t.snd_una < u32
  pub nxt : t.snd_nxt < u32
  pub half : in_flight t < 2 ^ 31
  pub chain : Chain t.snd_una t.retransmit_queue (in_flight t)

-- Truncation keeps an entry that is partly acknowledged a part of the chain.
truncate-Chain :
    (start total k : ℕ) (e : RetransmitEntry) (rest : List RetransmitEntry)
    → start < u32
    → total < 2 ^ 31
    → 0 < k
    → k < span e
    → Chain start (e ∷ rest) total
    → Chain (add32 start k) (truncate (add32 start k) e ∷ rest) (total - k)
unfolding truncate
truncate-Chain start total k e rest hs ht hk hspan c =
    let confirmed : sub32 (add32 start k) e.seq_start ≡ k = omega (arith, c.0) in
    let shorter : length (drop k e.bytes) ≡ length e.bytes - k = length-drop k e.bytes in
    let left : span (truncate (add32 start k) e) ≡ span e - k =
      ground (arith, confirmed, shorter, c.2) in
    (
      refl,
      omega (arith, left, c.1),
      omega (arith, left, c.2),
      omega (arith, left, c.3),
      subst₂ (λ a b. Chain a rest b) (omega (arith, left)) (omega (arith, left)) c.4,
    )

-- The loop of process_ack leaves exactly the numbers after the first `k`, all of a queue that
-- starts at `start`.
pub remove_acked-Chain :
    (now start total k : ℕ) (queue : List RetransmitEntry) (t : Tcb)
    → start < u32
    → total < 2 ^ 31
    → k ≤ total
    → Chain start queue total
    → Chain (add32 start k) (remove_acked now (add32 start k) queue t).retransmit_queue (total - k)
unfolding remove_acked
remove_acked-Chain now start total k [] t hs ht hk c = omega arith
remove_acked-Chain now start total k (e ∷ rest) t hs ht hk c =
    let n = span e in
    let ends = compare_from_base start n k hs (omega (arith, c.3)) (omega arith) in
    let le_end : seq_le e.seq_end (add32 start k) ≡ leb n k = rw (c.1) (ends.1) in
    let lt_start : seq_lt e.seq_start (add32 start k) ≡ ltb 0 k =
      rw (c.0) (seq_lt-Ahead start k (add32 start k) (hs, omega arith, refl)) in
    elim (Bool-cases (leb n k)) [
      | inl all ↦
          let n-le : n ≤ k = ground arith in
          rw (le_end, all)
            (subst₂ (λ a b. Chain a (remove_acked now a rest (measure now e t)).retransmit_queue b)
              (omega arith) (omega arith)
              (remove_acked-Chain now (add32 start n) (total - n) (k - n) rest (measure now e t)
                (omega arith) (omega arith) (omega arith) c.4))
      | inr part ↦
          let n-gt : k < n = ground arith in
          rw (le_end, part, lt_start)
            (elim (Bool-cases (ltb 0 k)) [
              | inl some_acked ↦
                  rw some_acked (truncate-Chain start total k e rest hs ht (ground arith) n-gt c)
              | inr none_acked ↦
                  let zero_k : k ≡ 0 = ground arith in
                  rw none_acked (subst₂ (λ a b. Chain a (e ∷ rest) b) (omega arith) (omega arith) c)
            ])
    ]

pub remove_acked-keeps :
    (now ack : ℕ) (queue : List RetransmitEntry) (t : Tcb)
    → ((remove_acked now ack queue t).snd_una ≡ t.snd_una)
      × ((remove_acked now ack queue t).snd_nxt ≡ t.snd_nxt)
unfolding remove_acked measure update_rtt smooth
remove_acked-keeps now ack [] t = (refl, refl)
remove_acked-keeps now ack (e ∷ rest) t =
    ground (arith, remove_acked-keeps now ack rest (measure now e t))

pub move_edge-fields :
    (ack : ℕ) (t : Tcb)
    → ((move_edge ack t).snd_una ≡ ack)
      × ((move_edge ack t).snd_nxt ≡ t.snd_nxt)
      × ((move_edge ack t).retransmit_queue ≡ t.retransmit_queue)
unfolding move_edge
move_edge-fields ack t = ground arith
