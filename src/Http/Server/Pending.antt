-- ===== src/Http/Server/Pending.antt =====
-- src/app/http_server.cpp: what flush_pending and drain_pending do with the bytes that are pending.
use neu_stack.Common.{
  ℕ, zero, suc, ◌+◌, ◌-◌, ◌≤◌, ◌≡◌, refl, ap, sym, ◌∙◌, inl, inr, Bool, true, false, Option, none,
  some, [], ◌++◌, length, take, drop, take-append-drop, drop-drop, drop_all, ltb, ◌==◌,
  if◌then◌else◌, arith, Bool-cases,
}
use mathlib.Core.List.{append_assoc}
use mathlib.Core.Path.{subst}
use neu_stack.Http.Text.{Bytes}
use neu_stack.Http.Parser.Rounds.{concat}
use neu_stack.Http.Server.Stream.{
  Generator, Connection, accepted, conn_send, send_pending, drain_pending, chunked_header,
}

-- What has been sent, and what is pending.
abbrev pub handed : Connection → Bytes
handed c = c.sent ++ drop c.pending_offset c.pending_data

-- What a generator still has to send.
abbrev pub to_stream : Bool → Bool → Option Generator → Bytes
to_stream keep_alive header_sent none = []
to_stream keep_alive header_sent (some g) =
    (if header_sent then [] else chunked_header keep_alive g) ++ concat g.chunks

-- All bytes of the responses so far: sent, pending and still to come.
abbrev pub all_bytes : Connection → Bytes
all_bytes c = handed c ++ to_stream c.keep_alive c.header_sent c.generator

module _ (bytes : Bytes) (c : Connection) where
  pub conn_send-sent :
      (conn_send bytes c).1.sent ++ drop (conn_send bytes c).0 bytes ≡ c.sent ++ bytes
  unfolding conn_send
  conn_send-sent =
      let n = accepted c.room bytes in
      append_assoc c.sent (take n bytes) (drop n bytes)
      ∙ ap (λ b. c.sent ++ b) (take-append-drop n bytes)

-- The rounds of the loop over the pending data.
module _ (fuel : ℕ) (c : Connection) where
  abbrev rest_of : Bytes
  rest_of = drop c.pending_offset c.pending_data

  abbrev moved : Connection
  moved = record ((conn_send rest_of c).1) {
    pending_offset = c.pending_offset + (conn_send rest_of c).0;
  }

  pending_done :
      ltb c.pending_offset (length c.pending_data) ≡ false → send_pending (suc fuel) c ≡ (true, c)
  unfolding send_pending
  pending_done e = rw (e, send_pending)

  pending_stuck :
      ltb c.pending_offset (length c.pending_data) ≡ true
      → ((conn_send rest_of c).0 == 0) ≡ true
      → send_pending (suc fuel) c ≡ (false, (conn_send rest_of c).1)
  unfolding send_pending
  pending_stuck e z = rw (e, send_pending, z)

  pending_moves :
      ltb c.pending_offset (length c.pending_data) ≡ true
      → ((conn_send rest_of c).0 == 0) ≡ false
      → send_pending (suc fuel) c ≡ send_pending fuel moved
  unfolding send_pending
  pending_moves e z = rw (e, send_pending, z)

  stuck-handed : (conn_send rest_of c).0 ≡ 0 → handed (conn_send rest_of c).1 ≡ handed c
  unfolding conn_send
  stuck-handed z =
      subst (λ k. (conn_send rest_of c).1.sent ++ drop k rest_of ≡ c.sent ++ rest_of) z
        (conn_send-sent rest_of c)

  moved-handed : handed moved ≡ handed c
  unfolding conn_send
  moved-handed =
      let n = (conn_send rest_of c).0 in
      ap (λ b. (conn_send rest_of c).1.sent ++ b)
        (sym (drop-drop n c.pending_offset c.pending_data))
      ∙ conn_send-sent rest_of c

  moved-length :
      ltb c.pending_offset (length c.pending_data) ≡ true
      → ((conn_send rest_of c).0 == 0) ≡ false
      → length c.pending_data - c.pending_offset ≤ suc fuel
      → length moved.pending_data - moved.pending_offset ≤ fuel
  unfolding conn_send
  moved-length e z h = ground (arith, e, z, h)

send_pending-handed : (fuel : ℕ) (c : Connection) → handed (send_pending fuel c).1 ≡ handed c
unfolding send_pending
send_pending-handed zero c = refl
send_pending-handed (suc fuel) c =
    elim (Bool-cases (ltb c.pending_offset (length c.pending_data))) [
      | inl e ↦ elim (Bool-cases ((conn_send (rest_of fuel c) c).0 == 0)) [
        | inl z ↦ rw (pending_stuck fuel c e z) (stuck-handed fuel c (ground (arith, z)))
        | inr z ↦
            rw (pending_moves fuel c e z)
              (send_pending-handed fuel (moved fuel c) ∙ moved-handed fuel c)
      ]
      | inr e ↦ rw (pending_done fuel c e)
    ]

-- With a round for each byte the loop ends behind the data, unless send takes nothing.
send_pending-done :
    (fuel : ℕ) (c : Connection)
    → length c.pending_data - c.pending_offset ≤ fuel
    → (send_pending fuel c).0 ≡ true
    → drop (send_pending fuel c).1.pending_offset (send_pending fuel c).1.pending_data ≡ []
unfolding send_pending
send_pending-done zero c h done = drop_all c.pending_offset c.pending_data (omega (arith, h))
send_pending-done (suc fuel) c h done =
    elim (Bool-cases (ltb c.pending_offset (length c.pending_data))) [
      | inl e ↦ elim (Bool-cases ((conn_send (rest_of fuel c) c).0 == 0)) [
        | inl z ↦ absurd (ground (arith, pending_stuck fuel c e z, done))
        | inr z ↦
            let step = pending_moves fuel c e z in
            rw step
              (send_pending-done fuel (moved fuel c) (moved-length fuel c e z h) (rw (← step) done))
      ]
      | inr e ↦
          rw (pending_done fuel c e) (drop_all c.pending_offset c.pending_data (ground (arith, e)))
    ]

-- What the loops leave alone.
pub record Leaves (c c' : Connection) : Type 0 where
  pub keep_alive : c'.keep_alive ≡ c.keep_alive
  pub generator : c'.generator ≡ c.generator
  pub header_sent : c'.header_sent ≡ c.header_sent

Leaves-refl : (c : Connection) → Leaves c c
Leaves-refl c = record { keep_alive = refl; generator = refl; header_sent = refl }

Leaves-trans : {c c' c'' : Connection} → Leaves c c' → Leaves c' c'' → Leaves c c''
Leaves-trans h k = record {
  keep_alive = k.keep_alive ∙ h.keep_alive;
  generator = k.generator ∙ h.generator;
  header_sent = k.header_sent ∙ h.header_sent;
}

moved-Leaves : (fuel : ℕ) (c : Connection) → Leaves c (moved fuel c)
unfolding conn_send
moved-Leaves fuel c = record { keep_alive = refl; generator = refl; header_sent = refl }

sent-Leaves : (bytes : Bytes) (c : Connection) → Leaves c (conn_send bytes c).1
unfolding conn_send
sent-Leaves bytes c = record { keep_alive = refl; generator = refl; header_sent = refl }

send_pending-Leaves : (fuel : ℕ) (c : Connection) → Leaves c (send_pending fuel c).1
unfolding send_pending
send_pending-Leaves zero c = Leaves-refl c
send_pending-Leaves (suc fuel) c =
    elim (Bool-cases (ltb c.pending_offset (length c.pending_data))) [
      | inl e ↦ elim (Bool-cases ((conn_send (rest_of fuel c) c).0 == 0)) [
        | inl z ↦ rw (pending_stuck fuel c e z) (sent-Leaves (rest_of fuel c) c)
        | inr z ↦
            rw (pending_moves fuel c e z)
              (Leaves-trans (moved-Leaves fuel c) (send_pending-Leaves fuel (moved fuel c)))
      ]
      | inr e ↦ rw (pending_done fuel c e) (Leaves-refl c)
    ]

-- What drain_pending does, by whether it has sent all that is pending.
pub record Drained (c : Connection) (r : Bool × Connection) : Type 0 where
  pub bytes : handed r.1 ≡ handed c
  pub leaves : Leaves c r.1
  pub empty : r.0 ≡ true → (r.1.pending_data ≡ []) × (r.1.pending_offset ≡ 0)

pub drain_pending-Drained : (c : Connection) → Drained c (drain_pending c)
unfolding drain_pending
drain_pending-Drained c =
    let n = length c.pending_data in
    let c' = (send_pending n c).1 in
    let kept = send_pending-handed n c in
    let alone = send_pending-Leaves n c in
    elim (Bool-cases (send_pending n c).0) [
      | inl e ↦
          let out = send_pending-done n c (omega arith) e in
          rw e record {
            bytes = ap (λ b. c'.sent ++ b) (sym out) ∙ kept;
            leaves = record {
              keep_alive = alone.keep_alive;
              generator = alone.generator;
              header_sent = alone.header_sent;
            };
            empty = λ h. (refl, refl);
          }
      | inr e ↦
          rw e record { bytes = kept; leaves = alone; empty = λ h. absurd (ground (arith, h)) }
    ]
