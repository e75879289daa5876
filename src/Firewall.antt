-- ===== src/Firewall.antt =====
-- include/neustack/firewall/firewall_decision.hpp, packet_event.hpp and rule.hpp: what the firewall
-- sees of a packet, what it decides, and a single rule.
pub mod Packet
pub mod Pool
pub mod Ai
pub mod Engine
pub mod Rules
use neu_stack.Common.{
  ℕ, ◌+◌, ◌^◌, bit_and, Bool, true, false, not, ◌&&◌, ◌||◌, ◌==◌, if◌then◌else◌, List,
}

-- FirewallDecision::Action
pub data Action : Type 0 where
  pass drop_packet alert log_only : Action

-- FirewallDecision::Reason
pub data Reason : Type 0 where
  no_reason rule_whitelist rule_blacklist rule_port rate_limited ai_anomaly malformed : Reason

-- struct FirewallDecision; `score` stands for the bits of a float, which are 0 for 0.0f.
pub record Decision : Type 0 where
  pub action : Action
  pub reason : Reason
  pub rule_id : ℕ
  pub score : ℕ
  pub rate_current : ℕ
  pub rate_limit : ℕ

-- A decision without a score and rates.
abbrev pub plain : Action → Reason → ℕ → Decision
plain action reason rule_id = record {
  action = action;
  reason = reason;
  rule_id = rule_id;
  score = 0;
  rate_current = 0;
  rate_limit = 0;
}

-- FirewallDecision::pass
abbrev pub pass_decision : Decision
pass_decision = plain pass no_reason 0

abbrev pub is_drop : Action → Bool
is_drop drop_packet = true
is_drop a = false

abbrev pub should_pass : Decision → Bool
should_pass d = not (is_drop d.action)

abbrev pub should_drop : Decision → Bool
should_drop d = is_drop d.action

abbrev pub is_alert : Decision → Bool
is_alert d = elim d.action [ alert ↦ true | _ ↦ false ]

-- struct PacketEvent, without the pointer to the packet.
pub record PacketEvent : Type 0 where
  pub src_ip : ℕ
  pub dst_ip : ℕ
  pub src_port : ℕ
  pub dst_port : ℕ
  pub protocol : ℕ
  pub tcp_flags : ℕ
  pub total_len : ℕ
  pub payload_len : ℕ
  pub timestamp_us : ℕ

-- struct Rule
pub record Rule : Type 0 where
  pub src_ip : ℕ
  pub src_mask : ℕ
  pub dst_ip : ℕ
  pub dst_mask : ℕ
  pub src_port : ℕ
  pub dst_port : ℕ
  pub protocol : ℕ
  pub id : ℕ
  pub priority : ℕ
  pub action : Action
  pub reason : Reason
  pub enabled : Bool

-- Rule::matches: a field that is 0 matches anything.
unfoldable pub matches : Rule → PacketEvent → Bool
matches r evt =
    if not r.enabled
    then false
    else if not (r.src_ip == 0)
        && not (bit_and evt.src_ip r.src_mask == bit_and r.src_ip r.src_mask)
    then false
    else if not (r.dst_ip == 0)
        && not (bit_and evt.dst_ip r.dst_mask == bit_and r.dst_ip r.dst_mask)
    then false
    else if not (r.src_port == 0) && not (evt.src_port == r.src_port)
    then false
    else if not (r.dst_port == 0) && not (evt.dst_port == r.dst_port)
    then false
    else not (not (r.protocol == 0) && not (evt.protocol == r.protocol))

-- Rule::blacklist_ip
abbrev pub blacklist_rule : ℕ → ℕ → ℕ → Rule
blacklist_rule id ip priority = record {
  src_ip = ip;
  src_mask = 0xFFFFFFFF;
  dst_ip = 0;
  dst_mask = 0;
  src_port = 0;
  dst_port = 0;
  protocol = 0;
  id = id;
  priority = priority;
  action = drop_packet;
  reason = rule_blacklist;
  enabled = true;
}

-- Rule::whitelist_ip
abbrev pub whitelist_rule : ℕ → ℕ → ℕ → Rule
whitelist_rule id ip priority = record {
  src_ip = ip;
  src_mask = 0xFFFFFFFF;
  dst_ip = 0;
  dst_mask = 0;
  src_port = 0;
  dst_port = 0;
  protocol = 0;
  id = id;
  priority = priority;
  action = pass;
  reason = rule_whitelist;
  enabled = true;
}

-- Rule::block_port
abbrev pub port_rule : ℕ → ℕ → ℕ → ℕ → Rule
port_rule id port proto priority = record {
  src_ip = 0;
  src_mask = 0;
  dst_ip = 0;
  dst_mask = 0;
  src_port = 0;
  dst_port = port;
  protocol = proto;
  id = id;
  priority = priority;
  action = drop_packet;
  reason = rule_port;
  enabled = true;
}
