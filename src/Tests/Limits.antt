-- ===== src/Tests/Limits.antt =====
-- The theorems on the token bucket, applied.
use neu_stack.Common.{◌+◌, ◌≤◌, refl, true, [], ◌∷◌}
use neu_stack.Limiter.{Config, Bucket, allowed}
use neu_stack.Limiter.Table.{RateLimiter, Floats}
use neu_stack.Limiter.Rate.{allowed-rate}

abbrev thousand : Config
thousand = record { packets_per_second = 1000; burst_size = 100; enabled = true }

abbrev two_tokens : Bucket
two_tokens = record { tokens = 2; last_update_us = 500 }

allowed-rate_example : allowed thousand (2500 ∷ 100 ∷ 10_000 ∷ []) two_tokens ≤ 2 + 12
allowed-rate_example = allowed-rate thousand (2500 ∷ 100 ∷ 10_000 ∷ []) two_tokens refl

-- Two addresses, of which the first has no token left.
abbrev limiter : RateLimiter
limiter = record {
  config = thousand;
  lru =
      record { ip = 7; bucket = record { tokens = 0; last_update_us = 500 }; ewma_pps = 0 }
      ∷ record { ip = 8; bucket = two_tokens; ewma_pps = 0 }
      ∷ [];
}

abbrev floats : Floats
floats = record { estimate = λ elapsed old. old; to_u32 = λ x. x }
