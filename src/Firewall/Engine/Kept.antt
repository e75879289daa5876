-- ===== src/Firewall/Engine/Kept.antt =====
-- What `inspect` leaves of the pools and the counters.
use neu_stack.Common.{
  ℕ, ◌+◌, ◌%◌, ◌^◌, ◌≡◌, refl, ap, sym, ◌∙◌, ◌⊎◌, inl, inr, Bool, true, false, Option, none, some,
  List, arith, Option-cases, Bool-cases,
}
use mathlib.Core.Path.{subst}
use neu_stack.Limiter.Table.{Floats}
use neu_stack.Firewall.{Action, pass, drop_packet, alert, log_only, PacketEvent}
use neu_stack.Firewall.Rules
use neu_stack.Firewall.Packet.{Parsed, rejected, read_outside, event, parse_packet}
use neu_stack.Firewall.Pool.{acquire, release, release-acquire}
use neu_stack.Firewall.Ai.{Ai}
use neu_stack.Firewall.Engine.{
  Engine, EngineStats, record_in_ai, overrule, record_decision, count_decision, count_failed,
  count_malformed, decide, watch, inspect_parsed, inspect, release_event,
}

-- Every inspected packet has been passed or dropped, but for the wrap of uint64_t.
abbrev pub IsBalanced : Engine → Type 0
IsBalanced e =
    (e.stats.packets_passed + e.stats.packets_dropped) % 2 ^ 64 ≡ e.stats.packets_inspected % 2 ^ 64

-- What every step keeps of the engine: its pools, and the balance of its counters.
pub record IsKept (before after : Engine) : Type 0 where
  pub event_pool : after.event_pool ≡ before.event_pool
  pub decision_pool : after.decision_pool ≡ before.decision_pool
  pub balance : IsBalanced after

count_decision-balance :
    (action : Action) (s : EngineStats)
    → (s.packets_passed + s.packets_dropped) % 2 ^ 64 ≡ s.packets_inspected % 2 ^ 64
    → let s' = count_decision action s in
      (s'.packets_passed + s'.packets_dropped) % 2 ^ 64 ≡ s'.packets_inspected % 2 ^ 64
unfolding count_decision
count_decision-balance pass s h = omega (arith, h)
count_decision-balance drop_packet s h = omega (arith, h)
count_decision-balance alert s h = omega (arith, h)
count_decision-balance log_only s h = omega (arith, h)

-- The same of a result; a read behind the end of the data leaves nothing to say.
abbrev AfterInspect : Engine → Option (Bool × Engine) → Type 0
AfterInspect e none = Unit {0}
AfterInspect e (some (verdict, e')) = IsKept e e'

module _ (floats : Floats) where
  decide-IsKept :
      (evt : PacketEvent) (now_us : ℕ) (e : Engine)
      → IsBalanced e
      → IsKept e (decide floats evt now_us e).1
  unfolding decide record_decision count_failed
  decide-IsKept evt now_us e h = elim (Option-cases (acquire e.decision_pool).0) [
    | inl got ↦ record {
      event_pool = ground (arith, got);
      decision_pool = ground (arith, got);
      balance = ground (arith, got, h);
    }
    | inr (slot, got) ↦ record {
      event_pool = ground (arith, got);
      decision_pool = ground (arith, got, release-acquire e.decision_pool slot got);
      balance =
          let decision = overrule e.ai (Rules.evaluate floats evt now_us e.rule_engine).0 in
          ground (arith, got, count_decision-balance decision.action e.stats h);
    }
  ]

  -- With a slot for the event.
  taken :
      (parsed : Parsed) (now_us : ℕ) (e : Engine) (slot : ℕ)
      → (acquire e.event_pool).0 ≡ some slot
      → IsBalanced e
      → AfterInspect e (inspect_parsed floats parsed now_us e)
  taken read_outside now_us e slot got h =
      let done : inspect_parsed floats read_outside now_us e ≡ none =
        unfold inspect_parsed in ground (arith, got) in
      subst (AfterInspect e) (sym done) tt
  taken rejected now_us e slot got h =
      let e' : Engine = count_malformed (record e { event_pool = (acquire e.event_pool).1 }) in
      let done : inspect_parsed floats rejected now_us e ≡ some (false, release_event slot e') =
        unfold inspect_parsed in ground (arith, got) in
      subst (AfterInspect e) (sym done) (
        unfold count_malformed in
        record {
          event_pool = release-acquire e.event_pool slot got;
          decision_pool = refl;
          balance = omega (arith, h);
        })
  taken (event evt) now_us e slot got h =
      let e' : Engine = record_in_ai evt (record e { event_pool = (acquire e.event_pool).1 }) in
      let next = decide floats evt now_us e' in
      let kept = decide-IsKept evt now_us e' h in
      let done : inspect_parsed floats (event evt) now_us e
          ≡ some (next.0, release_event slot next.1) =
        unfold inspect_parsed in ground (arith, got) in
      subst (AfterInspect e) (sym done) record {
        event_pool = ap (release slot) kept.event_pool ∙ release-acquire e.event_pool slot got;
        decision_pool = kept.decision_pool;
        balance = kept.balance;
      }

  -- The whole of an enabled firewall's inspection.
  inspect_parsed-AfterInspect :
      (parsed : Parsed) (now_us : ℕ) (e : Engine)
      → IsBalanced e
      → AfterInspect e (inspect_parsed floats parsed now_us e)
  inspect_parsed-AfterInspect parsed now_us e h = elim (Option-cases (acquire e.event_pool).0) [
    | inl got ↦
        let done : inspect_parsed floats parsed now_us e ≡ some (true, count_failed e) =
          unfold inspect_parsed in ground (arith, got) in
        subst (AfterInspect e) (sym done)
          (unfold count_failed in record { event_pool = refl; decision_pool = refl; balance = h })
    | inr (slot, got) ↦ taken parsed now_us e slot got h
  ]

-- The same of a disabled firewall.
abbrev Watched : Engine → Option Engine → Type 0
Watched e none = Unit {0}
Watched e (some e') = IsKept e e'

module _ (e : Engine) (h : IsBalanced e) where
  nothing-IsKept : IsKept e e
  nothing-IsKept = record { event_pool = refl; decision_pool = refl; balance = h }

  watch-seen :
      (parsed : Parsed) (ai : Ai) (slot : ℕ)
      → e.ai ≡ some ai
      → (acquire e.event_pool).0 ≡ some slot
      → Watched e (watch parsed e)
  watch-seen read_outside ai slot on got =
      let done : watch read_outside e ≡ none = unfold watch in ground (arith, on, got) in
      subst (Watched e) (sym done) tt
  watch-seen rejected ai slot on got =
      let e' : Engine = record e { event_pool = (acquire e.event_pool).1 } in
      let done : watch rejected e ≡ some (release_event slot e') =
        unfold watch in ground (arith, on, got) in
      subst (Watched e) (sym done) record {
        event_pool = release-acquire e.event_pool slot got;
        decision_pool = refl;
        balance = h;
      }
  watch-seen (event evt) ai slot on got =
      let e' : Engine = record_in_ai evt (record e { event_pool = (acquire e.event_pool).1 }) in
      let done : watch (event evt) e ≡ some (release_event slot e') =
        unfold watch in ground (arith, on, got) in
      subst (Watched e) (sym done) record {
        event_pool = release-acquire e.event_pool slot got;
        decision_pool = refl;
        balance = h;
      }

  watch-unseen :
      (parsed : Parsed)
      → (e.ai ≡ none) ⊎ ((acquire e.event_pool).0 ≡ none)
      → Watched e (watch parsed e)
  watch-unseen parsed off =
      let done : watch parsed e ≡ some e = unfold watch in ground (arith, off) in
      subst (Watched e) (sym done) nothing-IsKept

  watch-Watched : (parsed : Parsed) → Watched e (watch parsed e)
  watch-Watched parsed = elim (Option-cases e.ai) [
    | inl off ↦ watch-unseen parsed (inl off)
    | inr (ai, on) ↦ elim (Option-cases (acquire e.event_pool).0) [
      | inl got ↦ watch-unseen parsed (inr got)
      | inr (slot, got) ↦ watch-seen parsed ai slot on got
    ]
  ]

-- Whatever the packet, and whether the firewall is enabled or not: when `inspect` returns, each of
-- the two pools is what it was, slot by slot, so no slot is ever lost, and the packets passed and
-- dropped together are still the packets inspected.
pub inspect-IsKept :
    (floats : Floats) (data' : List ℕ) (parse_us now_us : ℕ) (e : Engine) (verdict : Bool)
    (e' : Engine)
    → IsBalanced e
    → inspect floats data' parse_us now_us e ≡ some (verdict, e')
    → IsKept e e'
inspect-IsKept floats data' parse_us now_us e verdict e' h done =
    let parsed = parse_packet data' parse_us in
    elim (Bool-cases e.enabled) [
      | inl on ↦
          let same : inspect_parsed floats parsed now_us e ≡ some (verdict, e') =
            unfold inspect in ground (arith, on, done) in
          subst (AfterInspect e) same (inspect_parsed-AfterInspect floats parsed now_us e h)
      | inr off ↦
          let same : watch parsed e ≡ some e' = unfold inspect in ground (arith, off, done) in
          subst (Watched e) same (watch-Watched e h parsed)
    ]
