-- ===== src/Limiter/Table.antt =====
-- include/neustack/firewall/rate_limiter.hpp: the buckets of all addresses. The list is the one
-- that `_lru_head` and the pointers after it form, from the bucket that was used longest ago; the
-- map has the buckets of that list.
pub mod Bounds
use neu_stack.Common.{
  ℕ, ◌+◌, ◌-◌, ◌/◌, max, Bool, true, false, not, Option, none, some, List, [], ◌∷◌, ◌++◌, ltb, leb,
  ◌==◌, if◌then◌else◌, length, drop,
}
use neu_stack.Limiter
use neu_stack.Limiter.{Config, Bucket}

-- struct Bucket with its address; `ewma_pps` stands for the bits of the estimate, a double.
pub record Tracked : Type 0 where
  pub ip : ℕ
  pub bucket : Bucket
  pub ewma_pps : ℕ

-- The arithmetic of doubles: the new estimate after some microseconds, and its uint32_t.
pub record Floats : Type 0 where
  pub estimate : ℕ → ℕ → ℕ
  pub to_u32 : ℕ → ℕ

pub record RateLimiter : Type 0 where
  pub config : Config
  pub lru : List Tracked

-- RateLimiter::Result
pub record Result : Type 0 where
  pub allowed : Bool
  pub current_pps : ℕ
  pub limit_pps : ℕ
  pub tokens_left : ℕ

abbrev pub max_tracked_ips : ℕ
max_tracked_ips = 65536

unfoldable pub find_bucket : ℕ → List Tracked → Option Tracked
find_bucket ip [] = none
find_bucket ip (t ∷ rest) = if t.ip == ip then some t else find_bucket ip rest

-- lru_remove of an address's bucket.
unfoldable pub remove_bucket : ℕ → List Tracked → List Tracked
remove_bucket ip [] = []
remove_bucket ip (t ∷ rest) = if t.ip == ip then rest else t ∷ remove_bucket ip rest

-- evict_lru: a quarter of the buckets, but one at least, from the head on.
unfoldable pub evict_lru : List Tracked → List Tracked
evict_lru lru = drop (if length lru / 4 == 0 then 1 else length lru / 4) lru

-- get_or_create_bucket: the bucket, and the list without it.
unfoldable pub get_or_create : RateLimiter → ℕ → ℕ → Tracked × List Tracked
get_or_create rl ip now_us = elim (find_bucket ip rl.lru) [
  | some t ↦ (t, remove_bucket ip rl.lru)
  | none ↦ (
    record {
      ip = ip;
      bucket = record { tokens = rl.config.burst_size; last_update_us = now_us };
      ewma_pps = 0;
    },
    if leb max_tracked_ips (length rl.lru) then evict_lru rl.lru else rl.lru,
  )
]

-- RateLimiter::check; the bucket goes to the tail of the list.
unfoldable pub check_ip : Floats → ℕ → ℕ → RateLimiter → Result × RateLimiter
check_ip floats ip now_us rl =
    let (t, others) = get_or_create rl ip now_us in
    let (ok, bucket) = Limiter.check rl.config now_us t.bucket in
    let elapsed = now_us - t.bucket.last_update_us in
    let ewma = (if ltb 0 elapsed then floats.estimate elapsed t.ewma_pps else t.ewma_pps) in
    let t' : Tracked = record { ip = t.ip; bucket = bucket; ewma_pps = ewma } in
    if not rl.config.enabled
    then (
      record {
        allowed = true;
        current_pps = 0;
        limit_pps = rl.config.packets_per_second;
        tokens_left = rl.config.burst_size;
      },
      rl,
    )
    else (
      record {
        allowed = ok;
        current_pps = floats.to_u32 ewma;
        limit_pps = rl.config.packets_per_second;
        tokens_left = (if ok then bucket.tokens else 0);
      },
      record rl { lru = others ++ (t' ∷ []) },
    )

-- RateLimiter::reset
pub reset : ℕ → RateLimiter → RateLimiter
reset ip rl = record rl { lru = remove_bucket ip rl.lru }

-- RateLimiter::clear
pub clear_limiter : RateLimiter → RateLimiter
clear_limiter rl = record rl { lru = [] }

-- RateLimiter::set_enabled and set_rate
pub set_limiter_enabled : Bool → RateLimiter → RateLimiter
set_limiter_enabled on rl = let c = rl.config in record rl { config = record c { enabled = on } }

pub set_rate : ℕ → ℕ → RateLimiter → RateLimiter
set_rate pps burst rl =
    let c = rl.config in
    record rl { config = record c { packets_per_second = pps; burst_size = burst } }
