-- ===== src/Dns/Walk.antt =====
-- src/app/dns_client.cpp: the walk of decode_name through the labels of a name.
use neu_stack.Common.{
  ℕ, zero, suc, ◌+◌, ◌-◌, ◌*◌, ◌≤◌, ◌<◌, ◌≡◌, ◌≢◌, refl, ap, sym, ◌∙◌, ◌⊎◌, inl, inr, none, length,
  leb, ◌==◌, arith, Bool-cases,
}
use native.Mathlib.Nat.{suc-mul}
use neu_stack.Http.Text.{Bytes}
use neu_stack.Dns.{
  NameState, NameRound, stop, again, name_start, at, follow, read_label, name_round, name_loop,
  name_rounds,
}

pub NameRound-cases :
    (r : NameRound) → ((t : NameState) × (r ≡ stop t)) ⊎ ((t : NameState) × (r ≡ again t))
NameRound-cases (stop t) = inl (t, refl)
NameRound-cases (again t) = inr (t, refl)

module _ (outside : ℕ) (data' : Bytes) where
  -- The rounds that are left: the jumps that are left, and the bytes behind the offset.
  abbrev rounds_left : NameState → ℕ
  rounds_left s = (10 - s.jumps) * (length data' + 1) + (length data' - s.offset)

  jump_left : (j m : ℕ) → j < 10 → (10 - j) * m ≡ (10 - (j + 1)) * m + m
  jump_left j m h =
      let e : 10 - j ≡ suc (10 - (j + 1)) = omega (arith, h) in rw e (suc-mul (10 - (j + 1)) m)

  follow-again :
      (s t : NameState)
      → follow outside data' s ≡ again t
      → (t.jumps ≡ s.jumps + 1) × (s.jumps + 1 ≤ 10)
  unfolding follow
  follow-again s t h = ground (arith, h)

  read_label-again :
      (size : ℕ) (s t : NameState)
      → read_label outside data' size s ≡ again t
      → (t.jumps ≡ s.jumps) × (t.offset ≡ s.offset + 1 + size) × (t.offset ≤ length data')
  unfolding read_label
  read_label-again size s t h = ground (arith, h)

  name_round-again :
      (s t : NameState)
      → s.offset < length data'
      → s.jumps ≤ 10
      → name_round outside data' s ≡ again t
      → (t.jumps ≤ 10) × (rounds_left t < rounds_left s)
  unfolding name_round
  name_round-again s t inside few h = elim (Bool-cases (leb 0xC0 (at outside data' s.offset))) [
    | inl e ↦
        let law = follow-again s t (sym (rw e) ∙ h) in
        let more_left = jump_left s.jumps (length data' + 1) (omega (arith, law.1)) in
        let less : (10 - t.jumps) * (length data' + 1) ≡ (10 - (s.jumps + 1)) * (length data' + 1) =
          ap (λ j. (10 - j) * (length data' + 1)) law.0 in
        (omega (arith, law), omega (arith, more_left, less, inside))
    | inr e ↦ elim (Bool-cases (at outside data' s.offset == 0)) [
      | inl z ↦ absurd (ground (arith, e, z, h))
      | inr z ↦
          let law = read_label-again (at outside data' s.offset) s t (sym (rw (e, z)) ∙ h) in
          let same : (10 - t.jumps) * (length data' + 1) ≡ (10 - s.jumps) * (length data' + 1) =
            ap (λ j. (10 - j) * (length data' + 1)) law.0 in
          (omega (arith, law, few), omega (arith, law, same, inside))
    ]
  ]

  name_loop-some :
      (fuel : ℕ) (s : NameState)
      → s.jumps ≤ 10
      → rounds_left s < fuel
      → name_loop outside data' fuel s ≢ none
  unfolding name_loop
  name_loop-some zero s few h = absurd (omega (arith, h))
  name_loop-some (suc fuel) s few h = elim (Bool-cases (leb (length data') s.offset)) [
    | inl done ↦ λ e. absurd (ground (arith, e, done))
    | inr running ↦
        let inside : s.offset < length data' = ground (arith, running) in
        elim (NameRound-cases (name_round outside data' s)) [
          | inl (t, r) ↦ λ e. absurd (ground (arith, e, running, r))
          | inr (t, r) ↦
              let law = name_round-again s t inside few r in
              let ih = name_loop-some fuel t law.0 (omega (arith, law.1, h)) in
              λ e. ih (sym (rw (running, name_loop, r)) ∙ e)
        ]
  ]

  -- The rounds of decode_name suffice from every offset: it never gives up.
  pub name_rounds_enough :
      (offset : ℕ) → name_loop outside data' (name_rounds outside data') (name_start offset) ≢ none
  name_rounds_enough offset =
      name_loop-some (name_rounds outside data') (name_start offset) (omega arith) (omega arith)
