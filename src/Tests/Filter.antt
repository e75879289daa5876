-- ===== src/Tests/Filter.antt =====
-- The theorems on the firewall, applied to packets from 10.0.0.2.
use neu_stack.Common.{
  none, ℕ, ◌≡◌, ◌≢◌, ◌↔◌, ◌⊎◌, refl, inl, true, false, some, List, [], ◌∷◌, ltb, arith,
}
use neu_stack.Checksum.{checksum_accumulate, fold_carries, verify_checksum}
use neu_stack.Limiter.Table.{Floats}
use neu_stack.Net.Ipv4.{read_packet, validate, parse}
use neu_stack.Firewall.{pass, drop_packet, PacketEvent, Rule, blacklist_rule, port_rule}
use neu_stack.Firewall.Rules.{
  RuleEngine, add_rule, add_whitelist_ip, remove_whitelist_ip, add_blacklist_ip, evaluate,
}
use neu_stack.Firewall.Rules.Sorted.{IsOrdered, add_step, RuleStep-IsOrdered}
use neu_stack.Tests.Sorting.{sort_rules, sort_rules-Sorts}
use neu_stack.Firewall.Rules.Addresses.{evaluate-lists}
use neu_stack.Firewall.Packet.{read_outside, event, parse_packet, fill_event_from_ipv4}
use neu_stack.Firewall.Packet.Same.{own_payload_len, parse_packet-fill_event_from_ipv4}
use neu_stack.Firewall.Packet.Reads.{IsTruncated, parse_packet-outside_iff}
use neu_stack.Firewall.Pool.{acquire}
use neu_stack.Firewall.Ai.{Ai, Inference, run_inference}
use neu_stack.Firewall.Ai.Shadow.{begun, IsJustified, run_inference-IsJustified}
use neu_stack.Firewall.Ai.History.{seen}
use neu_stack.Firewall.Engine.{Engine, release_event, inspect, inspect_parsed, count_malformed}
use neu_stack.Firewall.Engine.Kept.{IsKept, inspect-IsKept}

-- A UDP datagram from port 5000 to port 53.
abbrev datagram : List ℕ
datagram =
    69 ∷ 0 ∷ 0 ∷ 31 ∷ 0 ∷ 7 ∷ 64 ∷ 0 ∷ 64 ∷ 17 ∷ 38 ∷ 197 ∷ 10 ∷ 0 ∷ 0 ∷ 2 ∷ 10 ∷ 0 ∷ 0 ∷ 1 ∷ 19
    ∷ 136 ∷ 0 ∷ 53 ∷ 0 ∷ 11 ∷ 78 ∷ 175 ∷ 104 ∷ 105 ∷ 33 ∷ []

-- A packet whose length field falls short of its header.
abbrev short_packet : List ℕ
short_packet =
    69 ∷ 0 ∷ 0 ∷ 10 ∷ 0 ∷ 7 ∷ 64 ∷ 0 ∷ 64 ∷ 6 ∷ 38 ∷ 229 ∷ 10 ∷ 0 ∷ 0 ∷ 2 ∷ 10 ∷ 0 ∷ 0 ∷ 1 ∷ []

parse_packet-outside_iff_example :
    (parse_packet short_packet 5 ≡ read_outside) ↔ IsTruncated short_packet
parse_packet-outside_iff_example = parse_packet-outside_iff short_packet 5

datagram_parsed : parse datagram ≡ some (read_packet datagram)
unfolding parse validate verify_checksum checksum_accumulate fold_carries
datagram_parsed = refl

parse_packet-fill_event_from_ipv4_example :
    parse_packet datagram 5
    ≡ event (record (fill_event_from_ipv4 (read_packet datagram) 5) {
      payload_len = own_payload_len datagram;
    })
parse_packet-fill_event_from_ipv4_example =
    parse_packet-fill_event_from_ipv4 datagram (read_packet datagram) 5 (omega arith)
      datagram_parsed (inl no_tcp)
  where
    no_tcp : (read_packet datagram).protocol ≢ 6
    no_tcp = unfold read_packet in omega arith

-- A detector in shadow mode that leaves it on the first anomaly.
abbrev watchful : Ai
watchful = record {
  config = record {
    shadow_mode = true;
    auto_escalate = true;
    escalate_consecutive = 1;
    deescalate_normal_count = 30;
    escalate_cooldown_ms = 60_000;
    inference_interval_ms = 1000;
  };
  loaded = true;
  cached_anomaly_score = 0;
  cached_is_anomaly = false;
  stats = record {
    inferences_total = 0;
    anomalies_detected = 0;
    alerts_triggered = 0;
    drops_by_ai = 0;
    last_anomaly_score = 0;
    max_anomaly_score = 0;
    last_anomaly_time_ms = 0;
    escalations = 0;
    deescalations = 0;
  };
  consecutive_anomaly = 0;
  consecutive_normal = 0;
  last_escalation_time_ms = 0;
  has_alert_callback = true;
  metrics = [];
  alerts = [];
}

abbrev anomaly : Inference
anomaly = record {
  idle = false;
  result = some (9, true);
  above = λ a b. ltb b a;
  alert_ms = 5000;
  now_ms = 5001;
}

run_inference-IsJustified_example :
    ((run_inference anomaly watchful).config.shadow_mode ≡ true)
    ⊎ IsJustified 5001 watchful none (seen anomaly watchful [])
run_inference-IsJustified_example =
    run_inference-IsJustified watchful [] none watchful anomaly refl refl refl refl begun

-- Two rules: port 53 is open, the rest of the address is closed.
abbrev dns_rule : Rule
dns_rule = let r = port_rule 1 53 17 10 in record r { action = pass }

abbrev rule_engine : RuleEngine
rule_engine = record {
  rules = dns_rule ∷ blacklist_rule 2 33_554_442 20 ∷ [];
  whitelist_ips = [];
  blacklist_ips = [];
  rate_limiter = record {
    config = record { packets_per_second = 1000; burst_size = 100; enabled = false };
    lru = [];
  };
  stats = record {
    whitelist_hits = 0;
    blacklist_hits = 0;
    rate_limit_drops = 0;
    rule_matches = 0;
    default_passes = 0;
  };
}

abbrev floats : Floats
floats = record { estimate = λ elapsed old. old; to_u32 = λ x. x }

rules-IsOrdered : IsOrdered rule_engine.rules
rules-IsOrdered = record { sorted = omega arith; bounded = omega arith }

-- The event of the datagram.
abbrev query : PacketEvent
query = record {
  src_ip = 33_554_442;
  dst_ip = 16_777_226;
  src_port = 5000;
  dst_port = 53;
  protocol = 17;
  tcp_flags = 0;
  total_len = 31;
  payload_len = 3;
  timestamp_us = 5;
}

evaluate-lists_example :
    let white = add_whitelist_ip 33_554_442 (add_blacklist_ip 33_554_442 rule_engine) in
    let black = remove_whitelist_ip 33_554_442 (add_blacklist_ip 33_554_442 rule_engine) in
    ((evaluate floats query 6 white).0.action ≡ pass)
    × ((evaluate floats query 6 black).0.action ≡ drop_packet)
evaluate-lists_example = evaluate-lists floats query 6 rule_engine

RuleStep-IsOrdered_example :
    IsOrdered (add_rule sort_rules (port_rule 3 80 6 5) rule_engine).1.rules
RuleStep-IsOrdered_example =
    RuleStep-IsOrdered sort_rules rule_engine
      (add_rule sort_rules (port_rule 3 80 6 5) rule_engine).1 sort_rules-Sorts
      (add_step (port_rule 3 80 6 5)) rules-IsOrdered

-- An enabled firewall with two slots in each pool.
abbrev engine : Engine
engine = record {
  enabled = true;
  shadow_mode = true;
  rule_engine = rule_engine;
  ai = some watchful;
  last_tick_ms = 0;
  last_inference_ms = 0;
  event_pool = record { free = 0 ∷ 1 ∷ []; in_use_count = 0 };
  decision_pool = record { free = 0 ∷ 1 ∷ []; in_use_count = 0 };
  stats = record {
    packets_inspected = 0;
    packets_passed = 0;
    packets_dropped = 0;
    packets_alerted = 0;
    pool_acquire_failed = 0;
  };
  has_decision_callback = false;
  decisions = [];
}

-- Nothing, which is no packet, is dropped.
malformed :
    inspect floats [] 5 6 engine
    ≡ some (
      false,
      release_event 0 (
          count_malformed
            (record engine { event_pool = record { free = 1 ∷ []; in_use_count = 1 } })),
    )
unfolding inspect inspect_parsed parse_packet acquire
malformed = refl

inspect-IsKept_example : IsKept engine (
    release_event 0
      (count_malformed (record engine { event_pool = record { free = 1 ∷ []; in_use_count = 1 } })))
inspect-IsKept_example =
    inspect-IsKept floats [] 5 6 engine false
      (release_event 0 (
        count_malformed
          (record engine { event_pool = record { free = 1 ∷ []; in_use_count = 1 } })))
      refl malformed
