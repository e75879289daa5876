-- ===== src/Tcp/Flight.antt =====
-- src/transport/tcp_connection.cpp: the retransmission queue against the sequence numbers in
-- flight.
use neu_stack.Common.{
  ℕ, ◌+◌, ◌-◌, ◌^◌, ◌≤◌, ◌<◌, ◌≡◌, ap, sym, ◌∙◌, true, false, ◌||◌, List, [], ◌∷◌, ◌++◌, length,
  if◌then◌else◌, arith, Bool-cases, inl, inr, ◌⊎◌,
}
use mathlib.Core.Path.{subst, subst₂}
use neu_stack.Seq.{u32, add32}
use neu_stack.Segment.{has_flag, syn_flag, fin_flag}
use neu_stack.Tcp.{RetransmitEntry, Tcb}
use neu_stack.Tcp.World.{Conn, Env}
use neu_stack.Tcp.Send.{send_segment, max_tcp_size, seq_used, needs_retransmit, advance}
use neu_stack.Tcp.Ack.{accept_ack, move_edge}
use neu_stack.Tcp.Queue.{
  Chain, InFlight, in_flight, move_edge-fields, remove_acked-Chain, remove_acked-keeps, span,
}

-- For a queue that covers what is in flight, an acknowledgement of the first `k` numbers moves the
-- left edge by `k`, leaves the right one, and leaves the retransmission queue covering exactly the
-- numbers between them.
pub accept_ack-InFlight :
    (now k : ℕ) (t : Tcb)
    → InFlight t
    → k ≤ in_flight t
    → let t' = accept_ack now (add32 t.snd_una k) t in
      (t'.snd_una ≡ add32 t.snd_una k)
      × (t'.snd_nxt ≡ t.snd_nxt)
      × (in_flight t' + k ≡ in_flight t)
      × InFlight t'
unfolding accept_ack
accept_ack-InFlight now k t v hk = (
  una,
  nxt,
  left,
  record {
    una = omega (arith, una);
    nxt = omega (arith, nxt, v);
    half = omega (arith, left, v);
    chain =
        subst₂ (λ a b. Chain a t'.retransmit_queue b) (sym una) rest
          (remove_acked-Chain now t.snd_una (in_flight t) k (move_edge ack t).retransmit_queue
            (move_edge ack t) v.una v.half hk
            (subst (λ q. Chain t.snd_una q (in_flight t)) (sym moved.2) v.chain));
  },
)
  where
    ack : ℕ
    ack = add32 t.snd_una k

    t' : Tcb
    t' = accept_ack now ack t

    moved :
        ((move_edge ack t).snd_una ≡ ack)
        × ((move_edge ack t).snd_nxt ≡ t.snd_nxt)
        × ((move_edge ack t).retransmit_queue ≡ t.retransmit_queue)
    moved = move_edge-fields ack t

    una : t'.snd_una ≡ ack
    una =
        (remove_acked-keeps now ack (move_edge ack t).retransmit_queue (move_edge ack t)).0
        ∙ moved.0

    nxt : t'.snd_nxt ≡ t.snd_nxt
    nxt =
        (remove_acked-keeps now ack (move_edge ack t).retransmit_queue (move_edge ack t)).1
        ∙ moved.1

    rest : in_flight t - k ≡ in_flight t'
    rest = omega (arith, una, nxt, v, hk)

    left : in_flight t' + k ≡ in_flight t
    left = omega (arith, una, nxt, v, hk)

-- An entry behind a chain makes it longer.
Chain-append :
    (start total : ℕ) (queue : List RetransmitEntry) (e : RetransmitEntry)
    → start < u32
    → Chain start queue total
    → e.seq_start ≡ add32 start total
    → e.seq_end ≡ add32 start (total + span e)
    → span e ≤ max_tcp_size
    → Chain start (queue ++ (e ∷ [])) (total + span e)
Chain-append start total [] e hs c first last fit =
    (omega arith, omega arith, fit, omega arith, omega arith)
Chain-append start total (x ∷ queue) e hs c first last fit = (
  c.0,
  c.1,
  c.2,
  omega (arith, c.3),
  subst (λ n. Chain (add32 start (span x)) (queue ++ (e ∷ [])) n) more
      (Chain-append (add32 start (span x)) (total - span x) queue e (omega arith) c.4
        (omega (arith, first, c.3)) (omega (arith, last, c.3)) fit),
)
  where
    more : total - span x + span e ≡ total + span e - span x
    more = omega (arith, c.3)

-- A segment of data alone, of a SYN alone where nothing is in flight, of a FIN alone, or of
-- nothing.
abbrev pub IsPlain : ℕ → List ℕ → Tcb → Type 0
IsPlain flags bytes t =
    ((has_flag flags syn_flag ≡ false) × (has_flag flags fin_flag ≡ false))
    ⊎ (((has_flag flags syn_flag ≡ true)
          × (has_flag flags fin_flag ≡ false)
          × (bytes ≡ [])
          × (in_flight t ≡ 0))
        ⊎ ((has_flag flags syn_flag ≡ false) × (has_flag flags fin_flag ≡ true) × (bytes ≡ [])))

-- The numbers that a segment takes.
abbrev pub taken : ℕ → List ℕ → ℕ
taken flags bytes = if has_flag flags syn_flag || has_flag flags fin_flag then 1 else length bytes

-- The entry that a segment leaves in the queue.
abbrev pub new_entry : ℕ → List ℕ → Conn → RetransmitEntry
new_entry flags bytes c = record {
  seq_start = seq_used c.tcb flags;
  seq_end = advance flags (length bytes) c.tcb.snd_nxt;
  bytes = bytes;
  send_time = c.world.now;
  timeout = c.world.now + c.tcb.rto_us;
  retransmit_count = 0;
}

module _ (env : Env) (flags : ℕ) (bytes : List ℕ) (c : Conn)
    (fit : length bytes ≤ max_tcp_size) where
  send_segment-una : (send_segment env flags bytes c).tcb.snd_una ≡ c.tcb.snd_una
  unfolding send_segment
  send_segment-una = ground arith

  pub send_segment-nxt :
      (send_segment env flags bytes c).tcb.snd_nxt ≡ advance flags (length bytes) c.tcb.snd_nxt
  unfolding send_segment
  send_segment-nxt = ground arith

  pub send_segment-queue : (send_segment env flags bytes c).tcb.retransmit_queue ≡ (
      if needs_retransmit flags bytes
      then c.tcb.retransmit_queue ++ (new_entry flags bytes c ∷ [])
      else c.tcb.retransmit_queue)
  unfolding send_segment
  send_segment-queue = ground arith

advance-taken :
    (flags : ℕ) (bytes : List ℕ) (t : Tcb)
    → t.snd_nxt < u32
    → IsPlain flags bytes t
    → advance flags (length bytes) t.snd_nxt ≡ add32 t.snd_nxt (taken flags bytes)
unfolding advance
advance-taken flags bytes t h (inl p) = ground arith
advance-taken flags bytes t h (inr (inl p)) = ground (arith, ap length p.2)
advance-taken flags bytes t h (inr (inr p)) = ground (arith, ap length p.2)

-- A segment that needs no retransmission takes no number.
taken_none :
    (flags : ℕ) (bytes : List ℕ) (t : Tcb)
    → IsPlain flags bytes t
    → needs_retransmit flags bytes ≡ false
    → taken flags bytes ≡ 0
taken_none flags bytes t (inl p) h = ground arith
taken_none flags bytes t (inr (inl p)) h = ground arith
taken_none flags bytes t (inr (inr p)) h = ground arith

taken-span :
    (flags : ℕ) (bytes : List ℕ) (c : Conn)
    → IsPlain flags bytes c.tcb
    → needs_retransmit flags bytes ≡ true
    → span (new_entry flags bytes c) ≡ taken flags bytes
taken-span flags bytes c (inl p) h = ground arith
taken-span flags bytes c (inr (inl p)) h = ground (arith, ap length p.2)
taken-span flags bytes c (inr (inr p)) h = ground (arith, ap length p.2)

seq_used-end :
    (flags : ℕ) (bytes : List ℕ) (t : Tcb)
    → InFlight t
    → IsPlain flags bytes t
    → seq_used t flags ≡ add32 t.snd_una (in_flight t)
seq_used-end flags bytes t v (inl p) = rw (p.0) (omega (arith, v))
seq_used-end flags bytes t v (inr (inl p)) = rw (p.0) (omega (arith, v, p.3))
seq_used-end flags bytes t v (inr (inr p)) = rw (p.0) (omega (arith, v))

new_queue-Chain :
    (flags : ℕ) (bytes : List ℕ) (c : Conn)
    → InFlight c.tcb
    → IsPlain flags bytes c.tcb
    → length bytes ≤ max_tcp_size
    → Chain c.tcb.snd_una
        (if needs_retransmit flags bytes
          then c.tcb.retransmit_queue ++ (new_entry flags bytes c ∷ [])
          else c.tcb.retransmit_queue)
        (in_flight c.tcb + taken flags bytes)
new_queue-Chain flags bytes c v plain fit = elim (Bool-cases (needs_retransmit flags bytes)) [
  | inl yes_one ↦
      let size = taken-span flags bytes c plain yes_one in
      rw yes_one (
        subst
          (λ n.
            Chain t.snd_una (t.retransmit_queue ++ (new_entry flags bytes c ∷ []))
              (in_flight t + n))
          size
          (Chain-append t.snd_una (in_flight t) t.retransmit_queue (new_entry flags bytes c) v.una
            v.chain (seq_used-end flags bytes t v plain)
            (advance-taken flags bytes t v.nxt plain ∙ omega (arith, v, size))
            (ground (arith, fit))))
  | inr none_new ↦
      let same : in_flight t ≡ in_flight t + taken flags bytes =
        omega (arith, taken_none flags bytes t plain none_new) in
      rw none_new (subst (λ n. Chain t.snd_una t.retransmit_queue n) same v.chain)
]
  where
    t : Tcb
    t = c.tcb

-- For a queue that covers what is in flight, sending a segment of at most 1460 bytes that is data
-- alone, a FIN alone, a SYN alone with nothing in flight, or nothing, and that keeps fewer than
-- 2^31 numbers in flight, moves the right edge by the numbers that it takes, leaves the left one,
-- and leaves the retransmission queue covering what is in flight; a segment that takes none changes
-- neither.
pub send_segment-InFlight :
    (env : Env) (flags : ℕ) (bytes : List ℕ) (c : Conn)
    → InFlight c.tcb
    → IsPlain flags bytes c.tcb
    → length bytes ≤ max_tcp_size
    → in_flight c.tcb + taken flags bytes < 2 ^ 31
    → let t' = (send_segment env flags bytes c).tcb in
      (t'.snd_una ≡ c.tcb.snd_una)
      × (t'.snd_nxt ≡ add32 c.tcb.snd_nxt (taken flags bytes))
      × InFlight t'
send_segment-InFlight env flags bytes c v plain fit half = (
  una,
  nxt,
  record {
    una = omega (arith, una, v);
    nxt = omega (arith, nxt, v);
    half = omega (arith, more, half);
    chain =
        subst₂ (λ a b. Chain a t'.retransmit_queue b) (sym una) (sym more)
          (subst (λ q. Chain c.tcb.snd_una q (in_flight c.tcb + taken flags bytes))
            (sym (send_segment-queue env flags bytes c fit))
            (new_queue-Chain flags bytes c v plain fit));
  },
)
  where
    t' : Tcb
    t' = (send_segment env flags bytes c).tcb

    una : t'.snd_una ≡ c.tcb.snd_una
    una = send_segment-una env flags bytes c fit

    nxt : t'.snd_nxt ≡ add32 c.tcb.snd_nxt (taken flags bytes)
    nxt = send_segment-nxt env flags bytes c fit ∙ advance-taken flags bytes c.tcb v.nxt plain

    more : in_flight t' ≡ in_flight c.tcb + taken flags bytes
    more = omega (arith, una, nxt, v, half)
