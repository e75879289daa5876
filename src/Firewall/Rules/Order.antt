-- ===== src/Firewall/Rules/Order.antt =====
-- include/neustack/firewall/rule_engine.hpp: which of the rules decides on a packet.
use neu_stack.Common.{◌≤◌, ◌≡◌, ◌⊎◌, true, false, List, [], ◌∷◌}
use neu_stack.Firewall.{Decision, plain, pass_decision, PacketEvent, Rule, matches}

-- No rule of the list both matches and comes before, by its priority.
abbrev pub IsLeast : PacketEvent → Rule → List Rule → Type 0
IsLeast evt r [] = Unit {0}
IsLeast evt r (r' ∷ rest) =
    ((matches r' evt ≡ false) ⊎ (r.priority ≤ r'.priority)) × IsLeast evt r rest

-- No rule of the list matches.
abbrev pub NoneMatches : PacketEvent → List Rule → Type 0
NoneMatches evt [] = Unit {0}
NoneMatches evt (r ∷ rest) = (matches r evt ≡ false) × NoneMatches evt rest

-- What decides on a packet whose address is in no list and that is within its rate.
pub data Decided (evt : PacketEvent) (rules : List Rule) (d : Decision) : Type 0 where
  by_rule :
      (r : Rule)
      → matches r evt ≡ true
      → IsLeast evt r rules
      → d ≡ plain r.action r.reason r.id
      → Decided evt rules d
  by_default : NoneMatches evt rules → d ≡ pass_decision → Decided evt rules d
