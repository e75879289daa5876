-- ===== src/Firewall/Ai/Shadow.antt =====
-- src/firewall/firewall_ai.cpp: when run_inference leaves the shadow mode and enters it again.
use neu_stack.Common.{
  ℕ, ◌≤◌, ◌≡◌, ◌⊎◌, inl, inr, ap, ◌∙◌, Bool, true, false, not, ◌&&◌, Option, none, some, List, [],
  ◌∷◌, arith, inc32, leb, Bool-cases,
}
use mathlib.Core.Path.{subst}
use neu_stack.Firewall.Ai.{
  Ai, Inference, in_cooldown, escalate, deescalate, adapt_mode, run_inference,
}
use neu_stack.Firewall.Ai.History.{
  IsCooled, IsCounted, Remembers, alerted, alerted-IsCounted, alerted-kept, changed_at,
  in_cooldown-IsCooled, judged, quiet, run_inference-IsCounted, run_inference-Outcome,
  run_inference-Remembers, seen, streak,
}

-- Why the mode has changed: the cooldown of the change before is over, and there are as many results
-- in a row as the change takes.
pub record IsJustified (now_ms : ℕ) (ai : Ai) (last : Option ℕ) (history : List Bool) : Type 0 where
  pub cooled : IsCooled now_ms ai.config.escalate_cooldown_ms last
  pub enough :
      ((ai.config.shadow_mode ≡ true) × (ai.config.escalate_consecutive ≤ streak true history))
      ⊎ ((ai.config.shadow_mode ≡ false)
          × (ai.config.deescalate_normal_count ≤ streak false history))

adapt_mode-IsJustified :
    (is_anomaly : Bool) (now_ms : ℕ) (ai : Ai) (last : Option ℕ) (history : List Bool)
    → IsCounted ai history
    → Remembers ai last
    → ((adapt_mode is_anomaly now_ms ai).config.shadow_mode ≡ ai.config.shadow_mode)
      ⊎ IsJustified now_ms ai last (is_anomaly ∷ history)
unfolding adapt_mode
adapt_mode-IsJustified true now_ms ai last history ok known =
    let count = inc32 ai.consecutive_anomaly in
    elim (Bool-cases (
      ai.config.shadow_mode
      && (not (in_cooldown now_ms ai) && leb ai.config.escalate_consecutive count))) [
        | inr stay ↦ inl (ground (arith, stay))
        | inl change ↦ inr record {
          cooled = in_cooldown-IsCooled now_ms ai last known (ground (arith, change));
          enough = inl (ground (arith, change), ground (arith, change, ok.anomaly));
        }
      ]
adapt_mode-IsJustified false now_ms ai last history ok known =
    let count = inc32 ai.consecutive_normal in
    elim (Bool-cases (
      not ai.config.shadow_mode
      && (not (in_cooldown now_ms ai) && leb ai.config.deescalate_normal_count count))) [
        | inr stay ↦ inl (ground (arith, stay))
        | inl change ↦ inr record {
          cooled = in_cooldown-IsCooled now_ms ai last known (ground (arith, change));
          enough = inr (ground (arith, change), ground (arith, change, ok.normal));
        }
      ]

alerted-IsJustified :
    (inf : Inference) (score : ℕ) (is_anomaly : Bool) (ai : Ai) (last : Option ℕ)
    (history : List Bool)
    → IsJustified inf.now_ms (alerted inf score is_anomaly ai) last history
    → IsJustified inf.now_ms ai last history
alerted-IsJustified inf score is_anomaly ai last history j =
    let (config, anomaly, normal, time) = alerted-kept inf score is_anomaly ai in
    record {
      cooled = subst (λ c. IsCooled inf.now_ms c.escalate_cooldown_ms last) config j.cooled;
      enough =
          subst
            (λ c.
              ((c.shadow_mode ≡ true) × (c.escalate_consecutive ≤ streak true history))
              ⊎ ((c.shadow_mode ≡ false) × (c.deescalate_normal_count ≤ streak false history)))
            config j.enough;
    }

alerted-Remembers :
    (inf : Inference) (score : ℕ) (is_anomaly : Bool) (ai : Ai) (last : Option ℕ)
    → Remembers ai last
    → Remembers (alerted inf score is_anomaly ai) last
alerted-Remembers inf score is_anomaly ai none known =
    let (config, anomaly, normal, time) = alerted-kept inf score is_anomaly ai in time ∙ known
alerted-Remembers inf score is_anomaly ai (some t) known =
    let (config, anomaly, normal, time) = alerted-kept inf score is_anomaly ai in time ∙ known

-- A run of calls from a state: the results seen, the last one first, when the mode was changed last,
-- and the state reached.
pub data Run (start : Ai) : List Bool → Option ℕ → Ai → Type 0 where
  begun : Run start [] none start
  inferred :
      {history : List Bool} {last : Option ℕ} {ai : Ai} (inf : Inference)
      → Run start history last ai
      → Run start (seen inf ai history) (changed_at inf ai last) (run_inference inf ai)

adapt_mode-auto :
    (is_anomaly : Bool) (now_ms : ℕ) (ai : Ai)
    → (adapt_mode is_anomaly now_ms ai).config.auto_escalate ≡ ai.config.auto_escalate
unfolding adapt_mode escalate deescalate
adapt_mode-auto true now_ms ai = ground arith
adapt_mode-auto false now_ms ai = ground arith

run_inference-auto :
    (inf : Inference) (ai : Ai)
    → ai.config.auto_escalate ≡ true
    → (run_inference inf ai).config.auto_escalate ≡ true
run_inference-auto inf ai on = elim (run_inference-Outcome inf ai [] on) [
  | quiet config anomaly normal time e ↦ rw config on
  | judged score is_anomaly done e ↦
      let (config, anomaly, normal, last) = alerted-kept inf score is_anomaly ai in
      rw done (
        adapt_mode-auto is_anomaly inf.now_ms (alerted inf score is_anomaly ai)
        ∙ ap (λ c. c.auto_escalate) config
        ∙ on)
]

Run-IsCounted :
    (start : Ai) (history : List Bool) (last : Option ℕ) (ai : Ai)
    → start.config.auto_escalate ≡ true
    → start.last_escalation_time_ms ≡ 0
    → IsCounted start []
    → Run start history last ai
    → (ai.config.auto_escalate ≡ true) × IsCounted ai history × Remembers ai last
Run-IsCounted start [] none ai on never ok begun = (on, ok, never)
Run-IsCounted start history last ai on never ok (inferred inf run) =
    let (auto, counted, known) = Run-IsCounted start _ _ _ on never ok run in
    (
      run_inference-auto inf _ auto,
      run_inference-IsCounted inf _ _ auto counted,
      run_inference-Remembers inf _ _ auto known,
    )

-- In a run of calls that starts with auto-escalation on, both counters at 0 and no change of the
-- mode, a call of run_inference changes the mode only when the configured cooldown has gone by since
-- the call that changed it last, if one did after time 0, and only if the last results of the model,
-- this one included, are anomalies for at least the configured number (to leave the shadow mode) or
-- normal for at least the configured number (to enter it again).
pub run_inference-IsJustified :
    (start : Ai) (history : List Bool) (last : Option ℕ) (ai : Ai) (inf : Inference)
    → start.config.auto_escalate ≡ true
    → start.consecutive_anomaly ≡ 0
    → start.consecutive_normal ≡ 0
    → start.last_escalation_time_ms ≡ 0
    → Run start history last ai
    → ((run_inference inf ai).config.shadow_mode ≡ ai.config.shadow_mode)
      ⊎ IsJustified inf.now_ms ai last (seen inf ai history)
run_inference-IsJustified start history last ai inf on none_anomalous none_normal never run =
    let fresh : IsCounted start [] = record {
      anomaly = omega (arith, none_anomalous);
      normal = omega (arith, none_normal);
    } in
    let (auto, counted, known) = Run-IsCounted start history last ai on never fresh run in
    elim (run_inference-Outcome inf ai history auto) [
      | quiet config anomaly normal time e ↦ inl (ap (λ c. c.shadow_mode) config)
      | judged score is_anomaly done e ↦
          let ai' = alerted inf score is_anomaly ai in
          let counted' = alerted-IsCounted inf score is_anomaly ai history counted in
          let known' = alerted-Remembers inf score is_anomaly ai last known in
          let (config, anomaly, normal, time) = alerted-kept inf score is_anomaly ai in
          elim (adapt_mode-IsJustified is_anomaly inf.now_ms ai' last history counted' known') [
            | inl same ↦
                inl (ap (λ r. r.config.shadow_mode) done ∙ same ∙ ap (λ c. c.shadow_mode) config)
            | inr j ↦
                inr
                  (rw e (alerted-IsJustified inf score is_anomaly ai last (is_anomaly ∷ history) j))
          ]
    ]
