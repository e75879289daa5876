-- ===== src/Firewall/Ai/History.antt =====
-- src/firewall/firewall_ai.cpp: what the calls of run_inference have seen, and what the counters and the
-- time of the last change keep of it.
use neu_stack.Common.{
  ℕ, suc, ◌+◌, ◌-◌, ◌%◌, ◌^◌, ◌≤◌, ◌≡◌, ◌⊎◌, inl, inr, refl, ap, ◌∙◌, Bool, true, false, not, ◌&&◌,
  Option, none, some, List, [], ◌∷◌, arith, if◌then◌else◌, Option-cases, Bool-cases,
}
use neu_stack.Firewall.Ai.{
  Ai, Inference, count_result, raise_alert, in_cooldown, escalate, deescalate, adapt_mode,
  run_inference,
}

abbrev pub same_mode : Bool → Bool → Bool
same_mode true true = true
same_mode true false = false
same_mode false true = false
same_mode false false = true

-- What the calls have seen, the last one first: the results of the model. A call that has none, for
-- want of packets or of an answer, adds nothing.
abbrev pub seen : Inference → Ai → List Bool → List Bool
seen inf ai history =
    if ai.loaded
    then (if inf.idle
        then history
        else elim inf.result [ none ↦ history | some (score, is_anomaly) ↦ is_anomaly ∷ history ])
    else history

-- How many results like this one the history begins with.
abbrev pub streak : Bool → List Bool → ℕ
streak b [] = 0
streak true (true ∷ rest) = suc (streak true rest)
streak true (false ∷ rest) = 0
streak false (false ∷ rest) = suc (streak false rest)
streak false (true ∷ rest) = 0

-- When the mode was changed last, if it was: a call after which the mode is another one changes it.
abbrev pub changed_at : Inference → Ai → Option ℕ → Option ℕ
changed_at inf ai last =
    if same_mode (run_inference inf ai).config.shadow_mode ai.config.shadow_mode
    then last
    else some inf.now_ms

-- The cooldown of the change before, if there was one, is over. The clock counts in 64 bits; a change
-- at time 0 has no cooldown.
abbrev pub IsCooled : ℕ → ℕ → Option ℕ → Type 0
IsCooled now_ms cooldown none = Unit {0}
IsCooled now_ms cooldown (some time) = (time ≡ 0) ⊎ (cooldown ≤ (now_ms + 2 ^ 64 - time) % 2 ^ 64)

-- The detector remembers when the mode was changed last.
abbrev pub Remembers : Ai → Option ℕ → Type 0
Remembers ai none = ai.last_escalation_time_ms ≡ 0
Remembers ai (some time) = ai.last_escalation_time_ms ≡ time

pub in_cooldown-IsCooled :
    (now_ms : ℕ) (ai : Ai) (last : Option ℕ)
    → Remembers ai last
    → in_cooldown now_ms ai ≡ false
    → IsCooled now_ms ai.config.escalate_cooldown_ms last
unfolding in_cooldown
in_cooldown-IsCooled now_ms ai none known cooled = tt
in_cooldown-IsCooled now_ms ai (some time) known cooled = ground (arith, known, cooled)

-- The counters never claim more than the history has.
pub record IsCounted (ai : Ai) (history : List Bool) : Type 0 where
  pub anomaly : ai.consecutive_anomaly ≤ streak true history
  pub normal : ai.consecutive_normal ≤ streak false history

-- A call that counts a result does so in `adapt_mode`.
adapt_mode-IsCounted :
    (is_anomaly : Bool) (now_ms : ℕ) (ai : Ai) (history : List Bool)
    → IsCounted ai history
    → IsCounted (adapt_mode is_anomaly now_ms ai) (is_anomaly ∷ history)
unfolding adapt_mode escalate deescalate
adapt_mode-IsCounted true now_ms ai history ok = record {
  anomaly = ground (arith, ok.anomaly);
  normal = ground arith;
}
adapt_mode-IsCounted false now_ms ai history ok = record {
  anomaly = ground arith;
  normal = ground (arith, ok.normal);
}

-- The state in which `adapt_mode` finds the detector.
abbrev pub alerted : Inference → ℕ → Bool → Ai → Ai
alerted inf score is_anomaly ai =
    let counted = count_result inf.above score is_anomaly ai in
    if is_anomaly then raise_alert score inf.alert_ms counted else counted

-- What a call leaves alone or hands to `adapt_mode`.
pub data Outcome (inf : Inference) (ai : Ai) (history : List Bool) : Type 0 where
  quiet :
      (run_inference inf ai).config ≡ ai.config
      → (run_inference inf ai).consecutive_anomaly ≡ ai.consecutive_anomaly
      → (run_inference inf ai).consecutive_normal ≡ ai.consecutive_normal
      → (run_inference inf ai).last_escalation_time_ms ≡ ai.last_escalation_time_ms
      → seen inf ai history ≡ history
      → Outcome inf ai history
  judged :
      (score : ℕ) (is_anomaly : Bool)
      → run_inference inf ai ≡ adapt_mode is_anomaly inf.now_ms (alerted inf score is_anomaly ai)
      → seen inf ai history ≡ is_anomaly ∷ history
      → Outcome inf ai history

pub run_inference-Outcome :
    (inf : Inference) (ai : Ai) (history : List Bool)
    → ai.config.auto_escalate ≡ true
    → Outcome inf ai history
unfolding run_inference
run_inference-Outcome inf ai history on = elim (Bool-cases (ai.loaded && not inf.idle)) [
  | inr off ↦
      quiet (ground (arith, off)) (ground (arith, off)) (ground (arith, off)) (ground (arith, off))
        (ground (arith, off))
  | inl go ↦ elim (Option-cases inf.result) [
    | inl e ↦
        quiet (ground (arith, go, e)) (ground (arith, go, e)) (ground (arith, go, e))
          (ground (arith, go, e)) (ground (arith, go, e))
    | inr (r, e) ↦ judged r.0 r.1 (ground (arith, go, e, on)) (ground (arith, go, e))
  ]
]

module _ (inf : Inference) (score : ℕ) (is_anomaly : Bool) (ai : Ai) where
  -- The alert leaves the mode and what decides on it alone.
  pub alerted-kept :
      let ai' = alerted inf score is_anomaly ai in
      (ai'.config ≡ ai.config)
      × (ai'.consecutive_anomaly ≡ ai.consecutive_anomaly)
      × (ai'.consecutive_normal ≡ ai.consecutive_normal)
      × (ai'.last_escalation_time_ms ≡ ai.last_escalation_time_ms)
  unfolding raise_alert count_result
  alerted-kept = (ground arith, ground arith, ground arith, ground arith)

  pub alerted-IsCounted :
      (history : List Bool)
      → IsCounted ai history
      → IsCounted (alerted inf score is_anomaly ai) history
  alerted-IsCounted history ok =
      let (config, anomaly, normal, last) = alerted-kept in
      record { anomaly = rw anomaly ok.anomaly; normal = rw normal ok.normal }

-- adapt_mode writes the time down exactly when it changes the mode.
adapt_mode-time :
    (is_anomaly : Bool) (now_ms : ℕ) (ai : Ai)
    → (adapt_mode is_anomaly now_ms ai).last_escalation_time_ms ≡ (
        if same_mode (adapt_mode is_anomaly now_ms ai).config.shadow_mode ai.config.shadow_mode
        then ai.last_escalation_time_ms
        else now_ms)
unfolding adapt_mode escalate deescalate
adapt_mode-time true now_ms ai = ground arith
adapt_mode-time false now_ms ai = ground arith

Remembers-if :
    (b : Bool) (ai ai' : Ai) (now_ms : ℕ) (last : Option ℕ)
    → Remembers ai last
    → ai'.last_escalation_time_ms ≡ (if b then ai.last_escalation_time_ms else now_ms)
    → Remembers ai' (if b then last else some now_ms)
Remembers-if true ai ai' now_ms none known e = e ∙ known
Remembers-if true ai ai' now_ms (some time) known e = e ∙ known
Remembers-if false ai ai' now_ms last known e = e

same_mode_refl : (b : Bool) → same_mode b b ≡ true
same_mode_refl true = refl
same_mode_refl false = refl

pub run_inference-Remembers :
    (inf : Inference) (ai : Ai) (last : Option ℕ)
    → ai.config.auto_escalate ≡ true
    → Remembers ai last
    → Remembers (run_inference inf ai) (changed_at inf ai last)
run_inference-Remembers inf ai last on known =
    let ai' = run_inference inf ai in
    Remembers-if (same_mode ai'.config.shadow_mode ai.config.shadow_mode) ai ai' inf.now_ms last
      known
      (elim (run_inference-Outcome inf ai [] on) [
        | quiet config anomaly normal time e ↦
            rw (time, ap (λ c. c.shadow_mode) config, same_mode_refl ai.config.shadow_mode)
        | judged score is_anomaly done e ↦
            let (config, anomaly, normal, time) = alerted-kept inf score is_anomaly ai in
            rw done (
              adapt_mode-time is_anomaly inf.now_ms (alerted inf score is_anomaly ai)
              ∙ rw (config, time) refl)
      ])

-- A call of run_inference keeps the counters within the streaks of the history.
pub run_inference-IsCounted :
    (inf : Inference) (ai : Ai) (history : List Bool)
    → ai.config.auto_escalate ≡ true
    → IsCounted ai history
    → IsCounted (run_inference inf ai) (seen inf ai history)
run_inference-IsCounted inf ai history on ok = elim (run_inference-Outcome inf ai history on) [
  | quiet config anomaly normal time e ↦
      rw e (record { anomaly = rw anomaly ok.anomaly; normal = rw normal ok.normal })
  | judged score is_anomaly done e ↦
      rw (e, done)
        (adapt_mode-IsCounted is_anomaly inf.now_ms (alerted inf score is_anomaly ai) history
          (alerted-IsCounted inf score is_anomaly ai history ok))
]
