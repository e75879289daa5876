-- ===== src/Tests/Sorting.antt =====
-- A sort of rules by their priorities, which stands for std::sort.
use neu_stack.Common.{
  ℕ, suc, ◌≤◌, ◌≡◌, refl, ap, ◌∙◌, inl, inr, List, [], ◌∷◌, length, leb, if◌then◌else◌, arith,
  Bool-cases,
}
use neu_stack.Firewall.{Rule}
use neu_stack.Firewall.Rules.Sorted.{AllFrom, Ascends, priorities, Sorts}

-- Insertion by priority.
insert_rule : Rule → List Rule → List Rule
insert_rule r [] = r ∷ []
insert_rule r (s ∷ rest) =
    let rest' = insert_rule r rest in if leb r.priority s.priority then r ∷ s ∷ rest else s ∷ rest'

pub sort_rules : List Rule → List Rule
sort_rules [] = []
sort_rules (r ∷ rest) = insert_rule r (sort_rules rest)

length-insert_rule :
    (r : Rule) (rules : List Rule) → length (insert_rule r rules) ≡ suc (length rules)
unfolding insert_rule
length-insert_rule r [] = refl
length-insert_rule r (s ∷ rest) = ground (arith, length-insert_rule r rest)

AllFrom-insert_rule :
    (p : ℕ) (r : Rule) (rules : List Rule)
    → p ≤ r.priority
    → AllFrom p (priorities rules)
    → AllFrom p (priorities (insert_rule r rules))
unfolding insert_rule
AllFrom-insert_rule p r [] h all = (h, tt)
AllFrom-insert_rule p r (s ∷ rest) h all = elim (Bool-cases (leb r.priority s.priority)) [
  | inl e ↦ rw e (h, all)
  | inr e ↦ rw e (all.0, AllFrom-insert_rule p r rest h all.1)
]

AllFrom-lower : (p q : ℕ) (ps : List ℕ) → p ≤ q → AllFrom q ps → AllFrom p ps
AllFrom-lower p q [] h all = tt
AllFrom-lower p q (r ∷ rest) h all = (omega (arith, h, all.0), AllFrom-lower p q rest h all.1)

Ascends-insert_rule :
    (r : Rule) (rules : List Rule)
    → Ascends (priorities rules)
    → Ascends (priorities (insert_rule r rules))
unfolding insert_rule
Ascends-insert_rule r [] s = (tt, tt)
Ascends-insert_rule r (s ∷ rest) asc = elim (Bool-cases (leb r.priority s.priority)) [
  | inl e ↦
      let h : r.priority ≤ s.priority = ground (arith, e) in
      rw e ((h, AllFrom-lower r.priority s.priority (priorities rest) h asc.0), asc)
  | inr e ↦
      let h : s.priority ≤ r.priority = ground (arith, e) in
      rw e (AllFrom-insert_rule s.priority r rest h asc.0, Ascends-insert_rule r rest asc.1)
]

pub sort_rules-Sorts : Sorts sort_rules
unfolding sort_rules
sort_rules-Sorts = record { ascends = ascends; keeps_length = keeps }
  where
    ascends : (rules : List Rule) → Ascends (priorities (sort_rules rules))
    ascends [] = tt
    ascends (r ∷ rest) = Ascends-insert_rule r (sort_rules rest) (ascends rest)

    keeps : (rules : List Rule) → length (sort_rules rules) ≡ length rules
    keeps [] = refl
    keeps (r ∷ rest) = length-insert_rule r (sort_rules rest) ∙ ap suc (keeps rest)
