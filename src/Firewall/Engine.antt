-- ===== src/Firewall/Engine.antt =====
-- include/neustack/firewall/firewall_engine.hpp and src/firewall/firewall_engine.cpp: what the
-- firewall does with a packet. A time in milliseconds or microseconds is a read of the clock.
pub mod Kept
pub mod Verdict
use neu_stack.Common.{
  ℕ, ◌+◌, ◌-◌, inc64, Bool, true, false, not, ◌&&◌, ◌||◌, Option, none, some, List, [], ◌∷◌, ltb,
  leb, if◌then◌else◌,
}
use neu_stack.Limiter.Table.{Floats}
use neu_stack.Net.Ipv4.{Ipv4Packet}
use neu_stack.Firewall.{
  Action, pass, drop_packet, alert, log_only, Decision, should_pass, should_drop, is_alert,
  PacketEvent,
}
use neu_stack.Firewall.Rules
use neu_stack.Firewall.Rules.{RuleEngine}
use neu_stack.Firewall.Packet.{
  Parsed, rejected, read_outside, event, parse_packet, fill_event_from_ipv4,
}
use neu_stack.Firewall.Pool.{Pool, acquire, release}
use neu_stack.Firewall.Ai.{Ai, Inference, record_packet, evaluate_ai, tick, run_inference}

-- FirewallStats
pub record EngineStats : Type 0 where
  pub packets_inspected : ℕ
  pub packets_passed : ℕ
  pub packets_dropped : ℕ
  pub packets_alerted : ℕ
  pub pool_acquire_failed : ℕ

-- class FirewallEngine: of its config the two switches, and the calls of the decision callback, the
-- last one first.
pub record Engine : Type 0 where
  pub enabled : Bool
  pub shadow_mode : Bool
  pub rule_engine : RuleEngine
  pub ai : Option Ai
  pub last_tick_ms : ℕ
  pub last_inference_ms : ℕ
  pub event_pool : Pool
  pub decision_pool : Pool
  pub stats : EngineStats
  pub has_decision_callback : Bool
  pub decisions : List (PacketEvent × Decision)

-- EVENT_POOL_SIZE and DECISION_POOL_SIZE
abbrev pub pool_size : ℕ
pool_size = 4096

-- `if (_ai) _ai->record_packet(*evt_ptr);`
abbrev pub record_in_ai : PacketEvent → Engine → Engine
record_in_ai evt e = record e {
  ai = elim e.ai [ none ↦ none | some ai ↦ some (record_packet evt ai) ];
}

-- The steps of evaluate behind the rule engine: what the AI finds counts if the rules do not drop.
unfoldable pub overrule : Option Ai → Decision → Decision
overrule none decision = decision
overrule (some ai) decision =
    let found = evaluate_ai ai in
    if should_drop decision
    then decision
    else if ai.loaded && (is_alert found || should_drop found)
    then found
    else decision

-- FirewallEngine::evaluate
abbrev pub evaluate_event : Floats → PacketEvent → ℕ → Engine → Decision × Engine
evaluate_event floats evt now_us e =
    let (decision, rules) = Rules.evaluate floats evt now_us e.rule_engine in
    (overrule e.ai decision, record e { rule_engine = rules })

-- The counters of record_decision.
unfoldable pub count_decision : Action → EngineStats → EngineStats
count_decision action s =
    let s' : EngineStats = record s { packets_inspected = inc64 s.packets_inspected } in
    elim action [
      | pass ↦ record s' { packets_passed = inc64 s.packets_passed }
      | log_only ↦ record s' { packets_passed = inc64 s.packets_passed }
      | drop_packet ↦ record s' { packets_dropped = inc64 s.packets_dropped }
      | alert ↦ record s' {
        packets_alerted = inc64 s.packets_alerted;
        packets_passed = inc64 s.packets_passed;
      }
    ]

-- record_decision
unfoldable pub record_decision : PacketEvent → Decision → Engine → Engine
record_decision evt decision e = record e {
  stats = count_decision decision.action e.stats;
  decisions = (if e.has_decision_callback then (evt, decision) ∷ e.decisions else e.decisions);
}

-- `_stats.pool_acquire_failed++`
unfoldable pub count_failed : Engine → Engine
count_failed e =
    let s = e.stats in
    record e { stats = record s { pool_acquire_failed = inc64 s.pool_acquire_failed } }

-- A packet that parse_packet has rejected.
unfoldable pub count_malformed : Engine → Engine
count_malformed e =
    let s = e.stats in
    record e {
      stats = record s {
        packets_inspected = inc64 s.packets_inspected;
        packets_dropped = inc64 s.packets_dropped;
      };
    }

-- From the decision's slot on; the deleter of `dec_ptr` gives the slot back.
unfoldable pub decide : Floats → PacketEvent → ℕ → Engine → Bool × Engine
decide floats evt now_us e =
    let (got, pool) = acquire e.decision_pool in
    elim got [
      | none ↦ (true, count_failed e)
      | some slot ↦
          let (decision, e') =
            evaluate_event floats evt now_us (record e { decision_pool = pool }) in
          let e'' = record_decision evt decision e' in
          (should_pass decision, record e'' { decision_pool = release slot e''.decision_pool })
    ]

-- The deleter of `evt_ptr`.
abbrev pub release_event : ℕ → Engine → Engine
release_event slot e = record e { event_pool = release slot e.event_pool }

-- inspect of a disabled firewall: only the AI sees the packet.
unfoldable pub watch : Parsed → Engine → Option Engine
watch parsed e = elim e.ai [
  | none ↦ some e
  | some ai ↦
      let (got, pool) = acquire e.event_pool in
      elim got [
        | none ↦ some e
        | some slot ↦
            let e' : Engine = record e { event_pool = pool } in
            elim parsed [
              | read_outside ↦ none
              | rejected ↦ some (release_event slot e')
              | event evt ↦ some (release_event slot (record_in_ai evt e'))
            ]
      ]
]

-- inspect of an enabled firewall.
unfoldable pub inspect_parsed : Floats → Parsed → ℕ → Engine → Option (Bool × Engine)
inspect_parsed floats parsed now_us e =
    let (got, pool) = acquire e.event_pool in
    elim got [
      | none ↦ some (true, count_failed e)
      | some slot ↦
          let e' : Engine = record e { event_pool = pool } in
          elim parsed [
            | read_outside ↦ none
            | rejected ↦ some (false, release_event slot (count_malformed e'))
            | event evt ↦
                let (verdict, e'') = decide floats evt now_us (record_in_ai evt e') in
                some (verdict, release_event slot e'')
          ]
    ]

-- inspect(data, len): is the packet let through? `none` is a read behind the end of the data.
unfoldable pub inspect : Floats → List ℕ → ℕ → ℕ → Engine → Option (Bool × Engine)
inspect floats data' parse_us now_us e =
    if not e.enabled
    then elim (watch (parse_packet data' parse_us) e) [ none ↦ none | some e' ↦ some (true, e') ]
    else inspect_parsed floats (parse_packet data' parse_us) now_us e

-- inspect(pkt)
unfoldable pub inspect_packet : Floats → Ipv4Packet → ℕ → ℕ → Engine → Option (Bool × Engine)
inspect_packet floats pkt parse_us now_us e =
    let parsed = event (fill_event_from_ipv4 pkt parse_us) in
    if not e.enabled
    then elim (watch parsed e) [ none ↦ none | some e' ↦ some (true, e') ]
    else inspect_parsed floats parsed now_us e

-- on_timer
unfoldable pub on_timer : Inference → ℕ → Engine → Engine
on_timer inf now_ms e = elim e.ai [
  | none ↦ e
  | some ai ↦
      let due = leb 1000 (now_ms - e.last_tick_ms) in
      let ticked = (if due then tick ai else ai) in
      let infers =
        ticked.loaded && leb ticked.config.inference_interval_ms (now_ms - e.last_inference_ms) in
      record e {
        ai = some (if infers then run_inference inf ticked else ticked);
        last_tick_ms = (if due then now_ms else e.last_tick_ms);
        last_inference_ms = (if infers then now_ms else e.last_inference_ms);
      }
]

-- set_enabled, set_shadow_mode, set_ai and disable_ai
pub set_enabled : Bool → Engine → Engine
set_enabled on e = record e { enabled = on }

pub set_shadow_mode : Bool → Engine → Engine
set_shadow_mode shadow e = record e { shadow_mode = shadow }

pub set_ai : Option Ai → Engine → Engine
set_ai ai e = record e { ai = ai }

pub disable_ai : Engine → Engine
disable_ai e = record e { ai = none }
