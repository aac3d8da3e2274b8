-- ===== src/Transport/RateLimit/Backoff.antt =====
-- The cooldown that rate-limit.ts imposes after a refusal.
use native.Mathlib.Nat.{pow-suc}
use local_first_p2p_app.Common.{ℕ, suc, ◌+◌, ◌-◌, ◌*◌, ◌^◌, ◌≤◌, ◌<◌, ◌≡◌, min, false, arith}
use local_first_p2p_app.Common.Numbers.{Numbers}
use local_first_p2p_app.Transport.RateLimit.{
  RateLimitBucket, RateLimitConfig, in_cooldown, refill, next_backoff_ms, try_consume,
}

module _ (N : Numbers) (config : RateLimitConfig N) where
  next_backoff_ms-le : (n : ℕ) → next_backoff_ms N n config ≤ config.max_backoff_ms
  unfolding next_backoff_ms
  next_backoff_ms-le n = ground arith

  -- Outside a cooldown, a refusal names an instant at most the cap away, and until that instant
  -- every further attempt is refused and leaves the bucket as it is.
  refusal-lasts :
      (b : RateLimitBucket) (now later : ℕ)
      → b.cooldown_until ≤ now
      → (try_consume N b now config).is_allowed ≡ false
      → later < (try_consume N b now config).retry_after
      → (try_consume N (try_consume N b now config).bucket later config ≡ record {
        is_allowed = false;
        bucket = (try_consume N b now config).bucket;
        retry_after = (try_consume N b now config).retry_after;
        reason = in_cooldown;
      })
        × ((try_consume N b now config).retry_after ≤ now + config.max_backoff_ms)
  unfolding try_consume
  refusal-lasts b now later free refused early =
      ground (arith, next_backoff_ms-le ((refill N b now config).consecutive_refusals + 1))

  -- Until the cap is reached each further refusal in a row doubles the backoff.
  next_backoff_ms-doubles :
      (n : ℕ)
      → n < 1_023
      → next_backoff_ms N (n + 2) config
        ≡ min config.max_backoff_ms (2 * next_backoff_ms N (n + 1) config)
  unfolding next_backoff_ms
  next_backoff_ms-doubles n h =
      let e : n + 2 - 1 ≡ suc n = omega arith in
      let f : n + 1 - 1 ≡ n = omega arith in
      rw (e, f, pow-suc 2 n) (ground (arith, grown (config.base_backoff_ms) (2 ^ n)))
    where
      grown : (b p : ℕ) → b * (p * 2) ≡ b * p + b * p
      grown b p = omega arith
