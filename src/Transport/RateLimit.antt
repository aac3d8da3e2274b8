-- ===== src/Transport/RateLimit.antt =====
-- packages/trust-safety/src/transport-admission/rate-limit.ts
-- Instants and durations are whole milliseconds. The refill rate may be a fraction, so it is a
-- number of the parameter `N`.
pub mod Bounds
pub mod Backoff
mod Tests
use local_first_p2p_app.Common.{
  ℕ, suc, Option, none, some, List, [], ◌∷◌, ◌+◌, ◌-◌, ◌*◌, ◌^◌, min, Bool, true, false, not, ◌&&◌,
  ltb, leb, ◌==◌, if◌then◌else◌,
}
use local_first_p2p_app.Common.Numbers.{Numbers}

pub record RateLimitBucket : Type 0 where
  pub tokens : ℕ
  pub last_refill_at : ℕ
  pub consecutive_refusals : ℕ
  pub cooldown_until : ℕ

pub data RateLimitReason : Type 0 where
  allowed no_tokens in_cooldown : RateLimitReason

pub record RateLimitDecision : Type 0 where
  pub is_allowed : Bool
  pub bucket : RateLimitBucket
  pub retry_after : ℕ
  pub reason : RateLimitReason

module _ (N : Numbers) where
  open N use {Num, of_ℕ, mul, div, le, floor}

  pub record RateLimitConfig : Type 0 where
    pub capacity : ℕ
    pub refill_rate_per_second : Num
    pub base_backoff_ms : ℕ
    pub max_backoff_ms : ℕ

  abbrev pub default_rate_limit : RateLimitConfig
  default_rate_limit = record {
    capacity = 60;
    refill_rate_per_second = of_ℕ 1;
    base_backoff_ms = 1_000;
    max_backoff_ms = 3_600_000;
  }

  -- `validateRateLimitConfig` throws where this is false.
  unfoldable pub is_valid_config : RateLimitConfig → Bool
  is_valid_config config =
      leb 1 config.capacity
      && leb config.capacity 1_000_000
      && le (div (of_ℕ 1) (of_ℕ 86_400)) config.refill_rate_per_second
      && le config.refill_rate_per_second (of_ℕ 100_000)
      && leb config.base_backoff_ms 3_600_000
      && leb config.base_backoff_ms config.max_backoff_ms
      && leb config.max_backoff_ms 86_400_000

  -- `none` where the validation throws.
  unfoldable pub create_rate_limit_bucket : ℕ → RateLimitConfig → Option RateLimitBucket
  create_rate_limit_bucket now config =
      if is_valid_config config
      then some (record {
        tokens = config.capacity;
        last_refill_at = now;
        consecutive_refusals = 0;
        cooldown_until = 0;
      })
      else none

  -- `Math.floor(elapsedSeconds * refillRatePerSecond)`
  unfoldable pub added_tokens : ℕ → RateLimitConfig → ℕ
  added_tokens elapsed_ms config =
      floor (mul (div (of_ℕ elapsed_ms) (of_ℕ 1_000)) config.refill_rate_per_second)

  -- `Math.floor((added / refillRatePerSecond) * 1000)`
  unfoldable pub consumed_ms : ℕ → RateLimitConfig → ℕ
  consumed_ms added config =
      floor (mul (div (of_ℕ added) config.refill_rate_per_second) (of_ℕ 1_000))

  unfoldable pub refill : RateLimitBucket → ℕ → RateLimitConfig → RateLimitBucket
  refill bucket now config =
      let added = added_tokens (now - bucket.last_refill_at) config in
      if leb now bucket.last_refill_at
      then bucket
      else if added == 0
      then bucket
      else record bucket {
        tokens = min config.capacity (bucket.tokens + added);
        last_refill_at = bucket.last_refill_at + consumed_ms added config;
      }

  -- `Math.pow(2, exponent)` is infinite from 1024 on, and then the product is infinite or NaN.
  unfoldable pub next_backoff_ms : ℕ → RateLimitConfig → ℕ
  next_backoff_ms consecutive_refusals config =
      let exponent = consecutive_refusals - 1 in
      if ltb 1_023 exponent
      then config.max_backoff_ms
      else min config.max_backoff_ms (config.base_backoff_ms * 2 ^ exponent)

  unfoldable pub try_consume : RateLimitBucket → ℕ → RateLimitConfig → RateLimitDecision
  try_consume bucket now config =
      let refilled = refill bucket now config in
      let refusals = refilled.consecutive_refusals + 1 in
      let until = now + next_backoff_ms refusals config in
      if ltb now bucket.cooldown_until
      then record {
        is_allowed = false;
        bucket = bucket;
        retry_after = bucket.cooldown_until;
        reason = in_cooldown;
      }
      else if leb 1 refilled.tokens
      then record {
        is_allowed = true;
        bucket = record refilled {
          tokens = refilled.tokens - 1;
          consecutive_refusals = 0;
          cooldown_until = 0;
        };
        retry_after = 0;
        reason = allowed;
      }
      else record {
        is_allowed = false;
        bucket = record refilled { consecutive_refusals = refusals; cooldown_until = until };
        retry_after = until;
        reason = no_tokens;
      }

  -- A run of attempts: how many are allowed, and the bucket that is left.
  unfoldable pub attempt_all : RateLimitBucket → List ℕ → RateLimitConfig → ℕ × RateLimitBucket
  attempt_all bucket [] config = (0, bucket)
  attempt_all bucket (now ∷ later) config =
      let d = try_consume bucket now config in
      let (granted, last) = attempt_all d.bucket later config in
      ((if d.is_allowed then suc granted else granted), last)
