-- ===== src/Firewall/Rules.antt =====
-- include/neustack/firewall/rule_engine.hpp: the rules, the lists of addresses, and the decision on
-- a packet. A hash set of addresses is a list of them.
pub mod Sorted
pub mod Order
pub mod Addresses
use neu_stack.Common.{
  ℕ, inc64, Bool, true, false, not, ◌&&◌, ◌||◌, Option, none, some, List, [], ◌∷◌, ◌++◌, ltb, leb,
  ◌==◌, if◌then◌else◌, length,
}
use neu_stack.Limiter.Table.{RateLimiter, Floats, Result, check_ip}
use neu_stack.Firewall.{
  Action, pass, drop_packet, Reason, rule_whitelist, rule_blacklist, rate_limited, Decision, plain,
  pass_decision, PacketEvent, Rule, matches,
}

-- RuleEngine::Stats
pub record Stats : Type 0 where
  pub whitelist_hits : ℕ
  pub blacklist_hits : ℕ
  pub rate_limit_drops : ℕ
  pub rule_matches : ℕ
  pub default_passes : ℕ

pub record RuleEngine : Type 0 where
  pub rules : List Rule
  pub whitelist_ips : List ℕ
  pub blacklist_ips : List ℕ
  pub rate_limiter : RateLimiter
  pub stats : Stats

abbrev pub max_rules : ℕ
max_rules = 1024

unfoldable pub contains : ℕ → List ℕ → Bool
contains ip [] = false
contains ip (j ∷ rest) = (j == ip) || contains ip rest

unfoldable pub insert_ip : ℕ → List ℕ → List ℕ
insert_ip ip set = if contains ip set then set else ip ∷ set

unfoldable pub erase_ip : ℕ → List ℕ → List ℕ
erase_ip ip [] = []
erase_ip ip (j ∷ rest) = if j == ip then erase_ip ip rest else j ∷ erase_ip ip rest

-- add_rule; `sort` is std::sort by priority.
unfoldable pub add_rule : (List Rule → List Rule) → Rule → RuleEngine → Bool × RuleEngine
add_rule sort rule e =
    if leb max_rules (length e.rules)
    then (false, e)
    else (true, record e { rules = sort (e.rules ++ (rule ∷ [])) })

-- std::remove_if and erase.
unfoldable pub without_id : ℕ → List Rule → List Rule
without_id id [] = []
without_id id (r ∷ rest) = if r.id == id then without_id id rest else r ∷ without_id id rest

-- remove_rule
unfoldable pub remove_rule : ℕ → RuleEngine → Bool × RuleEngine
remove_rule id e =
    let kept = without_id id e.rules in
    if length kept == length e.rules then (false, e) else (true, record e { rules = kept })

-- The first rule with the number; `none` if there is none.
unfoldable pub enable_first : ℕ → Bool → List Rule → Option (List Rule)
enable_first id on [] = none
enable_first id on (r ∷ rest) =
    if r.id == id
    then some (record r { enabled = on } ∷ rest)
    else elim (enable_first id on rest) [ none ↦ none | some rest' ↦ some (r ∷ rest') ]

-- set_rule_enabled
unfoldable pub set_rule_enabled : ℕ → Bool → RuleEngine → Bool × RuleEngine
set_rule_enabled id on e = elim (enable_first id on e.rules) [
  | none ↦ (false, e)
  | some rules ↦ (true, record e { rules = rules })
]

-- clear_rules
unfoldable pub clear_rules : RuleEngine → RuleEngine
clear_rules e = record e { rules = [] }

-- add_whitelist_ip, remove_whitelist_ip, add_blacklist_ip and remove_blacklist_ip
unfoldable pub add_whitelist_ip : ℕ → RuleEngine → RuleEngine
add_whitelist_ip ip e = record e { whitelist_ips = insert_ip ip e.whitelist_ips }

unfoldable pub remove_whitelist_ip : ℕ → RuleEngine → RuleEngine
remove_whitelist_ip ip e = record e { whitelist_ips = erase_ip ip e.whitelist_ips }

unfoldable pub add_blacklist_ip : ℕ → RuleEngine → RuleEngine
add_blacklist_ip ip e = record e { blacklist_ips = insert_ip ip e.blacklist_ips }

unfoldable pub remove_blacklist_ip : ℕ → RuleEngine → RuleEngine
remove_blacklist_ip ip e = record e { blacklist_ips = erase_ip ip e.blacklist_ips }

-- clear_whitelist, clear_blacklist and reset_stats
pub clear_whitelist : RuleEngine → RuleEngine
clear_whitelist e = record e { whitelist_ips = [] }

pub clear_blacklist : RuleEngine → RuleEngine
clear_blacklist e = record e { blacklist_ips = [] }

pub reset_stats : RuleEngine → RuleEngine
reset_stats e = record e {
  stats = record {
    whitelist_hits = 0;
    blacklist_hits = 0;
    rate_limit_drops = 0;
    rule_matches = 0;
    default_passes = 0;
  };
}

-- The loop of evaluate over the rules.
unfoldable pub first_match : PacketEvent → List Rule → Option Rule
first_match evt [] = none
first_match evt (r ∷ rest) = if matches r evt then some r else first_match evt rest

-- The steps of evaluate behind the rate limiter.
unfoldable pub apply_rules : PacketEvent → RuleEngine → Decision × RuleEngine
apply_rules evt e =
    let s = e.stats in
    elim (first_match evt e.rules) [
      | some r ↦ (
        plain r.action r.reason r.id,
        record e { stats = record s { rule_matches = inc64 s.rule_matches } },
      )
      | none ↦
          (pass_decision, record e { stats = record s { default_passes = inc64 s.default_passes } })
    ]

-- RuleEngine::evaluate
unfoldable pub evaluate : Floats → PacketEvent → ℕ → RuleEngine → Decision × RuleEngine
evaluate floats evt now_us e =
    let s = e.stats in
    let (result, limiter) = check_ip floats evt.src_ip now_us e.rate_limiter in
    let checked = record e { rate_limiter = limiter } in
    if contains evt.src_ip e.whitelist_ips
    then (
      plain pass rule_whitelist 0,
      record e { stats = record s { whitelist_hits = inc64 s.whitelist_hits } },
    )
    else if contains evt.src_ip e.blacklist_ips
    then (
      plain drop_packet rule_blacklist 0,
      record e { stats = record s { blacklist_hits = inc64 s.blacklist_hits } },
    )
    else if not e.rate_limiter.config.enabled
    then apply_rules evt e
    else if not result.allowed
    then (
      record {
        action = drop_packet;
        reason = rate_limited;
        rule_id = 0;
        score = 0;
        rate_current = result.current_pps;
        rate_limit = result.limit_pps;
      },
      record checked { stats = record s { rate_limit_drops = inc64 s.rate_limit_drops } },
    )
    else apply_rules evt checked
