-- ===== src/Limiter/Rate.antt =====
-- How many packets the token bucket lets through.
use neu_stack.Common.{
  ℕ, ◌+◌, ◌-◌, ◌*◌, ◌/◌, ◌^◌, ◌≤◌, ◌<◌, ◌≡◌, true, List, [], ◌∷◌, arith, if◌then◌else◌,
}
use native.Mathlib.Nat.{mod-le}
use neu_stack.Limiter.{Config, Bucket, check, allowed}

abbrev pub total : List ℕ → ℕ
total [] = 0
total (gap ∷ gaps) = gap + total gaps

-- The tokens that a time is worth.
abbrev pub worth : Config → ℕ → ℕ
worth config elapsed = elapsed * config.packets_per_second / 1_000_000

worth-add : (config : Config) (a b : ℕ) → worth config a + worth config b ≤ worth config (a + b)
worth-add config a b =
    let e : (a + b) * config.packets_per_second
        ≡ a * config.packets_per_second + b * config.packets_per_second =
      grind arith in
    omega (arith, e)

-- One packet: what is let through and left is no more than the tokens and the worth of the gap.
check-tokens :
    (config : Config) (gap : ℕ) (b : Bucket)
    → config.enabled ≡ true
    → let (ok, b') = check config (b.last_update_us + gap) b in
      (b'.tokens + (if ok then 1 else 0) ≤ b.tokens + worth config gap)
      × (b'.last_update_us ≡ b.last_update_us + gap)
unfolding check
check-tokens config gap b on =
    let less = mod-le (gap * config.packets_per_second) (2 ^ 64) in
    let same : b.last_update_us + gap - b.last_update_us ≡ gap = omega arith in
    ground (arith, on, less, same)

-- For an enabled limiter, of packets that come after any gaps, no more are let through than the
-- bucket has tokens and the time that passes is worth at the configured rate.
pub allowed-rate :
    (config : Config) (gaps : List ℕ) (b : Bucket)
    → config.enabled ≡ true
    → allowed config gaps b ≤ b.tokens + worth config (total gaps)
unfolding allowed
allowed-rate config [] b on = omega arith
allowed-rate config (gap ∷ gaps) b on =
    let one = check config (b.last_update_us + gap) b in
    ground (
      arith,
      check-tokens config gap b on,
      allowed-rate config gaps one.1 on,
      worth-add config gap (total gaps),
    )

-- Every gap is shorter than the time that a token takes.
pub data AreShort (config : Config) : List ℕ → Type 0 where
  no_gap : AreShort config []
  short_gap :
      {gap : ℕ} {gaps : List ℕ}
      → gap * config.packets_per_second < 1_000_000
      → AreShort config gaps
      → AreShort config (gap ∷ gaps)

check-starved :
    (config : Config) (gap : ℕ) (b : Bucket)
    → config.enabled ≡ true
    → gap * config.packets_per_second < 1_000_000
    → let (ok, b') = check config (b.last_update_us + gap) b in
      b'.tokens + (if ok then 1 else 0) ≤ b.tokens
unfolding check
check-starved config gap b on short =
    let same : b.last_update_us + gap - b.last_update_us ≡ gap = omega arith in
    ground (arith, on, short, same)

-- For an enabled limiter, of packets of which each comes sooner after the one before than a token
-- takes, however many they are, no more are let through than the bucket had tokens at the start:
-- the fraction of a token that each gap is worth is lost.
pub allowed-starved :
    (config : Config) (gaps : List ℕ) (b : Bucket)
    → config.enabled ≡ true
    → AreShort config gaps
    → allowed config gaps b ≤ b.tokens
unfolding allowed
allowed-starved config [] b on no_gap = omega arith
allowed-starved config (gap ∷ gaps) b on (short_gap short later) =
    let one = check config (b.last_update_us + gap) b in
    ground (arith, check-starved config gap b on short, allowed-starved config gaps one.1 on later)
