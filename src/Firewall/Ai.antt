-- ===== src/Firewall/Ai.antt =====
-- include/neustack/firewall/firewall_ai.hpp and src/firewall/firewall_ai.cpp: the anomaly detector
-- of the firewall, as it is built with AI. The model and the metrics are outside: `Inference` is
-- what they give to one call of run_inference. A float is the ℕ of its bits.
pub mod History
pub mod Shadow
use neu_stack.Common.{
  ℕ, ◌+◌, ◌-◌, ◌%◌, ◌^◌, inc32, inc64, Bool, true, false, not, ◌&&◌, ◌||◌, Option, none, some, List,
  [], ◌∷◌, ltb, leb, ◌==◌, if◌then◌else◌,
}
use neu_stack.Firewall.{
  Action, drop_packet, alert, Reason, ai_anomaly, Decision, plain, pass_decision, PacketEvent,
}

-- FirewallAIStats
pub record AiStats : Type 0 where
  pub inferences_total : ℕ
  pub anomalies_detected : ℕ
  pub alerts_triggered : ℕ
  pub drops_by_ai : ℕ
  pub last_anomaly_score : ℕ
  pub max_anomaly_score : ℕ
  pub last_anomaly_time_ms : ℕ
  pub escalations : ℕ
  pub deescalations : ℕ

-- FirewallAIConfig, without the path and the threshold of the model.
pub record AiConfig : Type 0 where
  pub shadow_mode : Bool
  pub auto_escalate : Bool
  pub escalate_consecutive : ℕ
  pub deescalate_normal_count : ℕ
  pub escalate_cooldown_ms : ℕ
  pub inference_interval_ms : ℕ

-- The calls made of the security metrics.
pub data MetricCall : Type 0 where
  record_call : ℕ → ℕ → MetricCall
  tick_call alert_call : MetricCall

-- class FirewallAI, with the calls of the metrics and of the alert callback, the last one first.
pub record Ai : Type 0 where
  pub config : AiConfig
  pub loaded : Bool
  pub cached_anomaly_score : ℕ
  pub cached_is_anomaly : Bool
  pub stats : AiStats
  pub consecutive_anomaly : ℕ
  pub consecutive_normal : ℕ
  pub last_escalation_time_ms : ℕ
  pub has_alert_callback : Bool
  pub metrics : List MetricCall
  pub alerts : List ℕ

-- One call of the model: are there fewer packets than one a second, what does it infer (the score
-- and whether it is an anomaly), and how does the score compare with the highest; and the two reads
-- of the clock.
pub record Inference : Type 0 where
  pub idle : Bool
  pub result : Option (ℕ × Bool)
  pub above : ℕ → ℕ → Bool
  pub alert_ms : ℕ
  pub now_ms : ℕ

-- FirewallAI::record_packet
unfoldable pub record_packet : PacketEvent → Ai → Ai
record_packet evt ai = record ai { metrics = record_call evt.total_len evt.tcp_flags ∷ ai.metrics }

-- FirewallAI::evaluate
unfoldable pub evaluate_ai : Ai → Decision
evaluate_ai ai =
    if not ai.loaded
    then pass_decision
    else if not ai.cached_is_anomaly
    then pass_decision
    else record {
      action = (if ai.config.shadow_mode then alert else drop_packet);
      reason = ai_anomaly;
      rule_id = 0;
      score = ai.cached_anomaly_score;
      rate_current = 0;
      rate_limit = 0;
    }

-- FirewallAI::tick
unfoldable pub tick : Ai → Ai
tick ai = record ai { metrics = tick_call ∷ ai.metrics }

-- `_cached_...` and the statistics of a result.
unfoldable pub count_result : (ℕ → ℕ → Bool) → ℕ → Bool → Ai → Ai
count_result above score is_anomaly ai =
    let s = ai.stats in
    record ai {
      cached_anomaly_score = score;
      cached_is_anomaly = is_anomaly;
      stats = record s {
        inferences_total = inc64 s.inferences_total;
        last_anomaly_score = score;
        max_anomaly_score =
            (if above score s.max_anomaly_score then score else s.max_anomaly_score);
      };
    }

-- What an anomaly adds.
unfoldable pub raise_alert : ℕ → ℕ → Ai → Ai
raise_alert score alert_ms ai =
    let s = ai.stats in
    let shadow = ai.config.shadow_mode in
    record ai {
      alerts = (if ai.has_alert_callback then score ∷ ai.alerts else ai.alerts);
      metrics = (if shadow then alert_call ∷ ai.metrics else ai.metrics);
      stats = record s {
        anomalies_detected = inc64 s.anomalies_detected;
        last_anomaly_time_ms = alert_ms;
        alerts_triggered = inc64 s.alerts_triggered;
        drops_by_ai = (if shadow then s.drops_by_ai else inc64 s.drops_by_ai);
      };
    }

-- `in_cooldown`
unfoldable pub in_cooldown : ℕ → Ai → Bool
in_cooldown now_ms ai =
    ltb 0 ai.last_escalation_time_ms
    && ltb ((now_ms + 2 ^ 64 - ai.last_escalation_time_ms) % 2 ^ 64) ai.config.escalate_cooldown_ms

-- Shadow mode is left.
unfoldable pub escalate : ℕ → Ai → Ai
escalate now_ms ai =
    let s = ai.stats in
    let c = ai.config in
    record ai {
      config = record c { shadow_mode = false };
      consecutive_anomaly = 0;
      last_escalation_time_ms = now_ms;
      stats = record s { escalations = inc64 s.escalations };
    }

-- Shadow mode is entered again.
unfoldable pub deescalate : ℕ → Ai → Ai
deescalate now_ms ai =
    let s = ai.stats in
    let c = ai.config in
    record ai {
      config = record c { shadow_mode = true };
      consecutive_normal = 0;
      last_escalation_time_ms = now_ms;
      stats = record s { deescalations = inc64 s.deescalations };
    }

-- The part of run_inference under `auto_escalate`.
unfoldable pub adapt_mode : Bool → ℕ → Ai → Ai
adapt_mode true now_ms ai =
    let ai' : Ai = record ai {
      consecutive_anomaly = inc32 ai.consecutive_anomaly;
      consecutive_normal = 0;
    } in
    if ai.config.shadow_mode
      && (not (in_cooldown now_ms ai) && leb ai.config.escalate_consecutive ai'.consecutive_anomaly)
    then escalate now_ms ai'
    else ai'
adapt_mode false now_ms ai =
    let ai' : Ai = record ai {
      consecutive_normal = inc32 ai.consecutive_normal;
      consecutive_anomaly = 0;
    } in
    if not ai.config.shadow_mode
      && (not (in_cooldown now_ms ai)
          && leb ai.config.deescalate_normal_count ai'.consecutive_normal)
    then deescalate now_ms ai'
    else ai'

-- FirewallAI::run_inference, without the score it returns.
unfoldable pub run_inference : Inference → Ai → Ai
run_inference inf ai =
    if not ai.loaded
    then ai
    else if inf.idle
    then record ai { cached_anomaly_score = 0; cached_is_anomaly = false }
    else elim inf.result [
      | none ↦ ai
      | some (score, is_anomaly) ↦
          let counted = count_result inf.above score is_anomaly ai in
          let alerted = (if is_anomaly then raise_alert score inf.alert_ms counted else counted) in
          if ai.config.auto_escalate then adapt_mode is_anomaly inf.now_ms alerted else alerted
    ]

-- FirewallAI::set_shadow_mode and set_inference_interval_ms
pub set_ai_shadow_mode : Bool → Ai → Ai
set_ai_shadow_mode shadow ai =
    let c = ai.config in record ai { config = record c { shadow_mode = shadow } }

pub set_inference_interval_ms : ℕ → Ai → Ai
set_inference_interval_ms ms ai =
    let c = ai.config in record ai { config = record c { inference_interval_ms = ms } }
