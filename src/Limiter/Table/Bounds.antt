-- ===== src/Limiter/Table/Bounds.antt =====
-- include/neustack/firewall/rate_limiter.hpp: how many buckets there are, and a bucket after a
-- rest.
use neu_stack.Common.{
  ℕ, suc, ◌-◌, ◌*◌, ◌/◌, ◌^◌, ◌≤◌, ◌<◌, ◌≡◌, ◌⊎◌, inl, inr, true, none, some, List, [], ◌∷◌, leb,
  ◌==◌, if◌then◌else◌, length, length-append, length-drop, arith, Option-cases, Bool-cases,
}
use neu_stack.Limiter.{Config, Bucket, check, refilled}
use neu_stack.Limiter.Table.{
  Tracked, Floats, RateLimiter, max_tracked_ips, find_bucket, remove_bucket, evict_lru,
  get_or_create, check_ip,
}

length-remove_bucket :
    (ip : ℕ) (lru : List Tracked) (t : Tracked)
    → find_bucket ip lru ≡ some t
    → suc (length (remove_bucket ip lru)) ≡ length lru
unfolding find_bucket remove_bucket
length-remove_bucket ip [] t found = absurd (ground (arith, found))
length-remove_bucket ip (s ∷ rest) t found = ground (arith, found, length-remove_bucket ip rest t)

length-evict_lru : (lru : List Tracked) → 1 ≤ length lru → suc (length (evict_lru lru)) ≤ length lru
unfolding evict_lru
length-evict_lru lru h =
    let n = (if length lru / 4 == 0 then 1 else length lru / 4) in
    ground (arith, h, length-drop n lru)

-- There is room for the bucket that goes to the tail.
get_or_create-room :
    (rl : RateLimiter) (ip now_us : ℕ)
    → length rl.lru ≤ max_tracked_ips
    → suc (length (get_or_create rl ip now_us).1) ≤ max_tracked_ips
unfolding get_or_create
get_or_create-room rl ip now_us h = elim (Option-cases (find_bucket ip rl.lru)) [
  | inl e ↦ elim (Bool-cases (leb max_tracked_ips (length rl.lru))) [
    | inl full ↦ ground (arith, e, full, h, length-evict_lru rl.lru (ground (arith, full)))
    | inr room ↦ ground (arith, e, room, h)
  ]
  | inr (t, e) ↦ ground (arith, e, h, length-remove_bucket ip rl.lru t e)
]

-- A packet from any address leaves no more buckets than the limit, if there were no more before.
pub check_ip-bounded :
    (floats : Floats) (ip now_us : ℕ) (rl : RateLimiter)
    → length rl.lru ≤ max_tracked_ips
    → length (check_ip floats ip now_us rl).1.lru ≤ max_tracked_ips
unfolding check_ip get_or_create
check_ip-bounded floats ip now_us rl h = elim (Bool-cases rl.config.enabled) [
  | inr off ↦ rw off h
  | inl on ↦
      let others = (get_or_create rl ip now_us).1 in
      rw (on, length-append others _) (omega (arith, get_or_create-room rl ip now_us h))
]

-- A bucket that has a token, or gets one, lets a packet through.
check-allowed :
    (config : Config) (now_us : ℕ) (b : Bucket)
    → 1 ≤ refilled config (now_us - b.last_update_us) b
    → (check config now_us b).0 ≡ true
unfolding check
check-allowed config now_us b h = ground (arith, h)

check_ip-check :
    (floats : Floats) (ip now_us : ℕ) (rl : RateLimiter)
    → 1
      ≤ refilled rl.config
          (now_us - (get_or_create rl ip now_us).0.bucket.last_update_us)
          (get_or_create rl ip now_us).0.bucket
    → (check_ip floats ip now_us rl).0.allowed ≡ true
unfolding check_ip
check_ip-check floats ip now_us rl h =
    ground (arith, check-allowed rl.config now_us (get_or_create rl ip now_us).0.bucket h)

-- A packet from an address that has no bucket, or whose last packet came so long ago that the time
-- since is worth a token, is let through, if the bucket can hold a token and the product of that
-- time and the rate fits a uint64_t.
pub check_ip-allowed :
    (floats : Floats) (ip now_us : ℕ) (rl : RateLimiter)
    → 1 ≤ rl.config.burst_size
    → (find_bucket ip rl.lru ≡ none)
      ⊎ ((t : Tracked) × (find_bucket ip rl.lru ≡ some t)
          × (1_000_000 ≤ (now_us - t.bucket.last_update_us) * rl.config.packets_per_second)
          × ((now_us - t.bucket.last_update_us) * rl.config.packets_per_second < 2 ^ 64))
    → (check_ip floats ip now_us rl).0.allowed ≡ true
check_ip-allowed floats ip now_us rl burst (inl e) =
    check_ip-check floats ip now_us rl (unfold get_or_create in ground (arith, e, burst))
check_ip-allowed floats ip now_us rl burst (inr (t, e, long, fits)) =
    check_ip-check floats ip now_us rl
      (unfold get_or_create in ground (arith, e, burst, long, fits))
