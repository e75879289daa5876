-- ===== src/Firewall/Engine/Verdict.antt =====
-- When `inspect` drops a packet.
use neu_stack.Common.{◌≡◌, ◌⊎◌, Bool, true, false, Option, none, some}
use neu_stack.Firewall.{Decision, should_drop}
use neu_stack.Firewall.Rules
use neu_stack.Firewall.Ai.{Ai}
use neu_stack.Firewall.Engine.{Engine}

-- The AI drops: a model is loaded, its last result is an anomaly, and the shadow mode is off.
pub record IsDropping (ai : Ai) : Type 0 where
  pub loaded : ai.loaded ≡ true
  pub anomaly : ai.cached_is_anomaly ≡ true
  pub no_shadow : ai.config.shadow_mode ≡ false

-- Why a packet is dropped: the rule engine says so, or the AI does.
abbrev pub IsBlocked : Option Ai → Decision → Type 0
IsBlocked none decision = should_drop decision ≡ true
IsBlocked (some ai) decision = (should_drop decision ≡ true) ⊎ IsDropping ai

-- The packet's fate: let through, dropped, or a read behind the end of its data.
abbrev pub verdict_of : Option (Bool × Engine) → Option Bool
verdict_of none = none
verdict_of (some (verdict, e)) = some verdict
