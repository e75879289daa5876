-- ===== src/Net/Udp/Search.antt =====
-- src/transport/udp.cpp: the search for an ephemeral port.
use neu_stack.Common.{
  ℕ, zero, suc, ◌+◌, ◌-◌, ◌^◌, ◌≤◌, ◌<◌, ◌≡◌, ◌≢◌, ◌⊎◌, inl, inr, false, none, some, List, ◌==◌,
  arith, Option-cases, Bool-cases,
}
use mathlib.Core.Path.{subst}
use neu_stack.Common.Maps.{find_key}
use neu_stack.Net.Host.{Host}
use neu_stack.Net.Udp.{advance_port, search_port, allocate_ephemeral_port}

-- A port has a callback.
abbrev pub Bound : ℕ → List (ℕ × ℕ) → Type 0
Bound port sockets = (cb : ℕ) × (find_key ◌==◌ port sockets ≡ some cb)

abbrev pub Unbound : ℕ → List (ℕ × ℕ) → Type 0
Unbound port sockets = find_key ◌==◌ port sockets ≡ none

-- The first `n` ports from one on have a callback.
abbrev pub AllBound : ℕ → ℕ → List (ℕ × ℕ) → Type 0
AllBound port zero sockets = Unit {0}
AllBound port (suc n) sockets = Bound port sockets × AllBound (port + 1) n sockets

-- A port that the search may give: free, not 0, and the first of the free ones from `next` on.
pub record IsFirst (next : ℕ) (sockets : List (ℕ × ℕ)) (port : ℕ) : Type 0 where
  pub above : next ≤ port
  pub some_port : port ≢ 0
  pub free : Unbound port sockets
  pub first : AllBound next (port - next) sockets

IsFirst-next :
    (next port cb : ℕ) (sockets : List (ℕ × ℕ))
    → find_key ◌==◌ next sockets ≡ some cb
    → IsFirst (next + 1) sockets port
    → IsFirst next sockets port
IsFirst-next next port cb sockets bound later = record {
  above = omega (arith, later.above);
  some_port = later.some_port;
  free = later.free;
  first =
      (let e : suc (port - (next + 1)) ≡ port - next = omega (arith, later.above) in
        subst (λ n. AllBound next n sockets) e ((cb, bound), later.first));
}

same_or_before : (m n : ℕ) → m ≤ n → (m ≡ n) ⊎ (m < n)
same_or_before m n h = elim (Bool-cases (m == n)) [
  | inl e ↦ inl (ground (arith, e))
  | inr e ↦ inr (ground (arith, e, h))
]

search_port-IsFirst :
    (fuel start next free : ℕ) (sockets : List (ℕ × ℕ))
    → 0 < start
    → start ≤ next
    → next ≤ free
    → free < 2 ^ 16
    → free < next + fuel
    → Unbound free sockets
    → IsFirst next sockets (search_port fuel start next sockets).0
unfolding search_port
search_port-IsFirst zero start next free sockets hs hn hf small enough unbound =
    absurd (omega (arith, enough, hf))
search_port-IsFirst (suc fuel) start next free sockets hs hn hf small enough unbound =
    elim (Option-cases (find_key ◌==◌ next sockets)) [
      | inl e ↦
          let here : IsFirst next sockets next = record {
            above = omega arith;
            some_port = omega (arith, hs, hn);
            free = e;
            first =
                (let none_between : 0 ≡ next - next = omega arith in
                  subst (λ n. AllBound next n sockets) none_between tt);
          } in
          rw (e, search_port) here
      | inr (cb, e) ↦ elim (same_or_before next free hf) [
        | inl same ↦
            absurd (ground (arith, subst (λ p. find_key ◌==◌ p sockets ≡ some cb) same e, unbound))
        | inr before ↦
            let after : advance_port next ≡ next + 1 = omega (arith, before, small) in
            let far : (advance_port next == start) ≡ false = ground (arith, after, hn) in
            let later =
              search_port-IsFirst fuel start (next + 1) free sockets hs (omega (arith, hn))
                (omega (arith, before)) small (omega (arith, enough)) unbound in
            rw (e, search_port, far, after) (IsFirst-next next _ cb sockets e later)
      ]
    ]

-- If the counter stands at a port from 1 to 65535, and this port or one after it has no callback, the
-- search, within 2^16 rounds, gives the first such port: not 0, which would say that there is none.
pub allocate_ephemeral_port-IsFirst :
    (h : Host) (free : ℕ)
    → 0 < h.next_ephemeral_port
    → h.next_ephemeral_port ≤ free
    → free < 2 ^ 16
    → Unbound free h.sockets
    → IsFirst h.next_ephemeral_port h.sockets (allocate_ephemeral_port h).0
unfolding allocate_ephemeral_port
allocate_ephemeral_port-IsFirst h free positive from small unbound =
    let start = h.next_ephemeral_port in
    search_port-IsFirst (2 ^ 16) start start free h.sockets positive (omega arith) from small
      (omega (arith, small)) unbound
