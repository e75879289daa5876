-- ===== src/Limiter.antt =====
-- include/neustack/firewall/rate_limiter.hpp: the token bucket of one address. The table of buckets
-- stands in a child.
pub mod Rate
pub mod Table
use neu_stack.Common.{
  ℕ, suc, ◌+◌, ◌-◌, ◌*◌, ◌/◌, ◌%◌, ◌^◌, min, Bool, true, false, not, List, [], ◌∷◌, ltb,
  if◌then◌else◌,
}

pub record Config : Type 0 where
  pub packets_per_second : ℕ
  pub burst_size : ℕ
  pub enabled : Bool

pub record Bucket : Type 0 where
  pub tokens : ℕ
  pub last_update_us : ℕ

-- The tokens after `elapsed_us`; the product is one of uint64_t.
abbrev pub refilled : Config → ℕ → Bucket → ℕ
refilled config elapsed_us b =
    min (b.tokens + elapsed_us * config.packets_per_second % 2 ^ 64 / 1_000_000) config.burst_size

-- RateLimiter::check of an address that has a bucket.
unfoldable pub check : Config → ℕ → Bucket → Bool × Bucket
check config now_us b =
    let tokens = refilled config (now_us - b.last_update_us) b in
    if not config.enabled
    then (true, b)
    else if ltb 0 tokens
    then (true, record { tokens = tokens - 1; last_update_us = now_us })
    else (false, record { tokens = tokens; last_update_us = now_us })

-- How many of the packets that come after these gaps are let through.
unfoldable pub allowed : Config → List ℕ → Bucket → ℕ
allowed config [] b = 0
allowed config (gap ∷ gaps) b =
    let (ok, b') = check config (b.last_update_us + gap) b in
    let rest = allowed config gaps b' in if ok then suc rest else rest
