-- ===== src/Net/Udp/Ports.antt =====
-- The ports that `bind` gives.
use neu_stack.Common.{
  ℕ, suc, ◌≡◌, ◌≢◌, refl, sym, ap, ◌∙◌, inl, inr, some, List, ◌==◌, arith, Option-cases, ==-refl,
  Bool-cases,
}
use mathlib.Core.Path.{subst}
use neu_stack.Common.Maps.{find_key, put_key, find_key-put_key, find_key-put_key-other}
use neu_stack.Net.Host.{Host}
use neu_stack.Net.Udp.{advance_port, search_port, allocate_ephemeral_port, bind_to, bind}
use neu_stack.Net.Udp.Search.{Unbound}

module _ (sockets : List (ℕ × ℕ)) (port cb : ℕ) where
  -- The entry of one port, and all others as they were.
  abbrev pub Entered : List (ℕ × ℕ) → Type 0
  Entered sockets' =
      (find_key ◌==◌ port sockets' ≡ some cb)
      × ((other : ℕ) → other ≢ port → find_key ◌==◌ other sockets' ≡ find_key ◌==◌ other sockets)

  put_key-Entered : Entered (put_key ◌==◌ port cb sockets)
  put_key-Entered = (
    find_key-put_key ◌==◌ port cb sockets (==-refl port),
    λ other apart.
        find_key-put_key-other ◌==◌ port other cb sockets (ground (arith, apart))
          (λ j e. ground (arith, apart, e)),
  )

-- The first component is a port that was free and has been entered.
abbrev Opened : List (ℕ × ℕ) → ℕ → ℕ × Host → Type 0
Opened sockets cb r = Unbound r.0 sockets × Entered sockets r.0 cb r.1.sockets

bind_to-Opened :
    (port cb : ℕ) (h : Host) → (bind_to port cb h).0 ≢ 0 → Opened h.sockets cb (bind_to port cb h)
bind_to-Opened port cb h success = elim (Option-cases (find_key ◌==◌ port h.sockets)) [
  | inl e ↦
      let done : bind_to port cb h ≡ (port, record h { sockets = put_key ◌==◌ port cb h.sockets }) =
        unfold bind_to in ground (arith, e) in
      rw done (e, put_key-Entered h.sockets port cb)
  | inr (other, e) ↦ absurd (unfold bind_to in ground (arith, e, success))
]

bind-Opened :
    (port cb : ℕ) (h : Host)
    → (bind port (some cb) h).0 ≢ 0
    → Opened h.sockets cb (bind port (some cb) h)
bind-Opened port cb h success = elim (Bool-cases (port == 0)) [
  | inr asked ↦
      let same : bind port (some cb) h ≡ bind_to port cb h = unfold bind in ground (arith, asked) in
      subst (Opened h.sockets cb) (sym same)
        (bind_to-Opened port cb h (λ e. success (ap (λ r. r.0) same ∙ e)))
  | inl any ↦
      let (chosen, h') = allocate_ephemeral_port h in
      elim (Bool-cases (chosen == 0)) [
        | inl nothing ↦ absurd (success (unfold bind in ground (arith, any, nothing)))
        | inr some_port ↦
            let same : bind port (some cb) h ≡ bind_to chosen cb h' =
              unfold bind in ground (arith, any, some_port) in
            let kept : h'.sockets ≡ h.sockets = unfold allocate_ephemeral_port in refl in
            subst (Opened h.sockets cb) (sym same) (
              subst (λ s. Opened s cb (bind_to chosen cb h')) kept
                (bind_to-Opened chosen cb h' (λ e. success (ap (λ r. r.0) same ∙ e))))
      ]
]

-- If `bind` gives a port, asked for or chosen, then that port had no callback, has the given one
-- now, and the callbacks of all other ports are what they were.
pub bind-enters :
    (port cb : ℕ) (h : Host)
    → (bind port (some cb) h).0 ≢ 0
    → let (p, h') = bind port (some cb) h in Unbound p h.sockets × Entered h.sockets p cb h'.sockets
bind-enters port cb h success = bind-Opened port cb h success

-- The port at the counter is taken if it is free.
search_port-free :
    (fuel start next : ℕ) (sockets : List (ℕ × ℕ))
    → Unbound next sockets
    → search_port (suc fuel) start next sockets ≡ (next, advance_port next)
unfolding search_port
search_port-free fuel start next sockets e = ground (arith, e)

allocate_ephemeral_port-free :
    (h : Host)
    → Unbound h.next_ephemeral_port h.sockets
    → allocate_ephemeral_port h ≡ (
      h.next_ephemeral_port,
      record h { next_ephemeral_port = advance_port h.next_ephemeral_port },
    )
unfolding allocate_ephemeral_port
allocate_ephemeral_port-free h e =
    let start = h.next_ephemeral_port in
    ap (λ r. (r.0, record h { next_ephemeral_port = r.1 }))
      (search_port-free 65535 start start h.sockets e)

bind-first :
    (cb : ℕ) (h : Host)
    → h.next_ephemeral_port ≡ 65535
    → Unbound 65535 h.sockets
    → bind 0 (some cb) h
      ≡ (65535, record h { next_ephemeral_port = 0; sockets = put_key ◌==◌ 65535 cb h.sockets })
unfolding bind bind_to
bind-first cb h at_end free =
    let here : Unbound h.next_ephemeral_port h.sockets = rw at_end free in
    ground (arith, at_end, free, allocate_ephemeral_port-free h here)

bind-second :
    (cb : ℕ) (h : Host)
    → h.next_ephemeral_port ≡ 0
    → Unbound 0 h.sockets
    → bind 0 (some cb) h ≡ (0, record h { next_ephemeral_port = 1 })
unfolding bind bind_to
bind-second cb h at_zero free =
    let here : Unbound h.next_ephemeral_port h.sockets = rw at_zero free in
    ground (arith, at_zero, allocate_ephemeral_port-free h here)

-- The counter of the ephemeral ports goes from 65535 to 0: if it stands at 65535 and neither that
-- port nor 0 has a callback, then of two calls of `bind` for a free port the first gives 65535 and
-- the second fails, however many ephemeral ports are free.
pub bind-wraps :
    (cb cb' : ℕ) (h : Host)
    → h.next_ephemeral_port ≡ 65535
    → Unbound 65535 h.sockets
    → Unbound 0 h.sockets
    → let (first, h') = bind 0 (some cb) h in
      let (second, h'') = bind 0 (some cb') h' in
      (first ≡ 65535) × (second ≡ 0) × (h''.sockets ≡ h'.sockets)
bind-wraps cb cb' h at_end free zero_free =
    let h' : Host = record h {
      next_ephemeral_port = 0;
      sockets = put_key ◌==◌ 65535 cb h.sockets;
    } in
    let still : Unbound 0 h'.sockets =
      (put_key-Entered h.sockets 65535 cb).1 0 (omega arith) ∙ zero_free in
    rw (bind-first cb h at_end free, bind-second cb' h' refl still) (refl, refl, refl)
