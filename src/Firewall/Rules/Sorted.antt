-- ===== src/Firewall/Rules/Sorted.antt =====
-- include/neustack/firewall/rule_engine.hpp: the order in which the rules are kept.
use neu_stack.Common.{
  ℕ, suc, ◌≤◌, ◌≡◌, refl, ap, sym, inl, inr, Bool, Option, none, some, List, [], ◌∷◌, ◌++◌, leb,
  ◌==◌, length, length-append, arith, Bool-cases, Option-cases,
}
use mathlib.Core.Path.{subst}
use neu_stack.Firewall.{Rule}
use neu_stack.Firewall.Rules.{
  RuleEngine, max_rules, add_rule, without_id, remove_rule, enable_first, set_rule_enabled,
  clear_rules,
}

abbrev pub priorities : List Rule → List ℕ
priorities [] = []
priorities (r ∷ rest) = r.priority ∷ priorities rest

-- No priority is lower.
abbrev pub AllFrom : ℕ → List ℕ → Type 0
AllFrom p [] = Unit {0}
AllFrom p (q ∷ rest) = (p ≤ q) × AllFrom p rest

abbrev pub Ascends : List ℕ → Type 0
Ascends [] = Unit {0}
Ascends (p ∷ rest) = AllFrom p rest × Ascends rest

-- In the order of the priorities, and not more than the limit.
pub record IsOrdered (rules : List Rule) : Type 0 where
  pub sorted : Ascends (priorities rules)
  pub bounded : length rules ≤ max_rules

AllFrom-without_id :
    (id p : ℕ) (rules : List Rule)
    → AllFrom p (priorities rules)
    → AllFrom p (priorities (without_id id rules))
unfolding without_id
AllFrom-without_id id p [] all = tt
AllFrom-without_id id p (r ∷ rest) all = elim (Bool-cases (r.id == id)) [
  | inl e ↦ rw e (AllFrom-without_id id p rest all.1)
  | inr e ↦ rw e (all.0, AllFrom-without_id id p rest all.1)
]

Ascends-without_id :
    (id : ℕ) (rules : List Rule)
    → Ascends (priorities rules)
    → Ascends (priorities (without_id id rules))
unfolding without_id
Ascends-without_id id [] s = tt
Ascends-without_id id (r ∷ rest) s = elim (Bool-cases (r.id == id)) [
  | inl e ↦ rw e (Ascends-without_id id rest s.1)
  | inr e ↦ rw e (AllFrom-without_id id r.priority rest s.0, Ascends-without_id id rest s.1)
]

length-without_id : (id : ℕ) (rules : List Rule) → length (without_id id rules) ≤ length rules
unfolding without_id
length-without_id id [] = omega arith
length-without_id id (r ∷ rest) = ground (arith, length-without_id id rest)

-- A rule that is switched on or off keeps its place and its priority.
abbrev Toggled : List Rule → Option (List Rule) → Type 0
Toggled rules none = Unit {0}
Toggled rules (some rules') =
    (priorities rules' ≡ priorities rules) × (length rules' ≡ length rules)

enable_first-Toggled :
    (id : ℕ) (on : Bool) (rules : List Rule) → Toggled rules (enable_first id on rules)
unfolding enable_first
enable_first-Toggled id on [] = tt
enable_first-Toggled id on (r ∷ rest) = elim (Bool-cases (r.id == id)) [
  | inl here ↦ rw here (refl, refl)
  | inr there ↦ elim (Option-cases (enable_first id on rest)) [
    | inl e ↦ rw (there, e) tt
    | inr (rest', e) ↦
        let kept = subst (Toggled rest) e (enable_first-Toggled id on rest) in
        rw (there, e) (ap (◌∷◌ r.priority) kept.0, ap suc kept.1)
  ]
]

-- std::sort by priority: the result is in order, and has as many rules.
pub record Sorts (sort : List Rule → List Rule) : Type 0 where
  pub ascends : (rules : List Rule) → Ascends (priorities (sort rules))
  pub keeps_length : (rules : List Rule) → length (sort rules) ≡ length rules

-- The operations on the rules.
pub data RuleStep (sort : List Rule → List Rule) : RuleEngine → RuleEngine → Type 0 where
  add_step : {e : RuleEngine} (rule : Rule) → RuleStep sort e (add_rule sort rule e).1
  remove_step : {e : RuleEngine} (id : ℕ) → RuleStep sort e (remove_rule id e).1
  toggle_step : {e : RuleEngine} (id : ℕ) (on : Bool) → RuleStep sort e (set_rule_enabled id on e).1
  clear_step : {e : RuleEngine} → RuleStep sort e (clear_rules e)

add_rule-IsOrdered :
    (sort : List Rule → List Rule) (rule : Rule) (e : RuleEngine)
    → Sorts sort
    → IsOrdered e.rules
    → IsOrdered (add_rule sort rule e).1.rules
unfolding add_rule
add_rule-IsOrdered sort rule e sorts ok = elim (Bool-cases (leb max_rules (length e.rules))) [
  | inl full ↦ rw full ok
  | inr room ↦
      let added = e.rules ++ (rule ∷ []) in
      rw room record {
        sorted = sorts.ascends added;
        bounded = ground (arith, room, sorts.keeps_length added, length-append e.rules (rule ∷ []));
      }
]

remove_rule-IsOrdered :
    (id : ℕ) (e : RuleEngine) → IsOrdered e.rules → IsOrdered (remove_rule id e).1.rules
unfolding remove_rule
remove_rule-IsOrdered id e ok =
    elim (Bool-cases (length (without_id id e.rules) == length e.rules)) [
      | inl none_removed ↦ rw none_removed ok
      | inr removed ↦ rw removed record {
        sorted = Ascends-without_id id e.rules ok.sorted;
        bounded = omega (arith, ok.bounded, length-without_id id e.rules);
      }
    ]

set_rule_enabled-IsOrdered :
    (id : ℕ) (on : Bool) (e : RuleEngine)
    → IsOrdered e.rules
    → IsOrdered (set_rule_enabled id on e).1.rules
unfolding set_rule_enabled
set_rule_enabled-IsOrdered id on e ok = elim (Option-cases (enable_first id on e.rules)) [
  | inl missing ↦ rw (set_rule_enabled, missing) ok
  | inr (rules, found) ↦
      let kept = subst (Toggled e.rules) found (enable_first-Toggled id on e.rules) in
      rw (set_rule_enabled, found)
        record {
          sorted = subst Ascends (sym kept.0) ok.sorted;
          bounded = omega (arith, kept.1, ok.bounded);
        }
]

-- Every operation on the rules keeps them in the order of their priorities and not more than 1024,
-- if the sort puts them in that order and loses none.
pub RuleStep-IsOrdered :
    (sort : List Rule → List Rule) (e e' : RuleEngine)
    → Sorts sort
    → RuleStep sort e e'
    → IsOrdered e.rules
    → IsOrdered e'.rules
RuleStep-IsOrdered sort e _ sorts (add_step rule) ok = add_rule-IsOrdered sort rule e sorts ok
RuleStep-IsOrdered sort e _ sorts (remove_step id) ok = remove_rule-IsOrdered id e ok
RuleStep-IsOrdered sort e _ sorts (toggle_step id on) ok = set_rule_enabled-IsOrdered id on e ok
RuleStep-IsOrdered sort e _ sorts clear_step ok =
    unfold clear_rules in record { sorted = tt; bounded = omega arith }
