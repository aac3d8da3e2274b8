-- ===== src/Transport/Modulation/Laws.antt =====
-- What the reputation band does to a peer's rate limit.
use local_first_p2p_app.Common.{ℕ, ◌≤◌, ◌≡◌, true, is_some, Option, none, some, arith}
use local_first_p2p_app.Common.Numbers.{Numbers}
use local_first_p2p_app.Transport.RateLimit.{
  RateLimitConfig, is_valid_config, create_rate_limit_bucket,
}
use local_first_p2p_app.Transport.Modulation.{
  untrusted, ModulatedRateLimit, modulated_config, modulate_rate_limit_config, get_reputation_band,
  is_positive_baseline,
}

module _ (N : Numbers) where
  open N use {Num}

  -- A modulated configuration is valid, keeps the backoff cap of its baseline, and names the band of
  -- the score.
  pub modulate-valid :
      (baseline : RateLimitConfig N) (score : Option Num) (m : ModulatedRateLimit N)
      → modulate_rate_limit_config N baseline score ≡ some m
      → (is_valid_config N m.config ≡ true)
        × (m.config.max_backoff_ms ≡ baseline.max_backoff_ms)
        × (m.band ≡ get_reputation_band N score)
  unfolding modulate_rate_limit_config modulated_config
  modulate-valid baseline score m h = ground arith

  -- An unknown peer never gets more tokens, nor a shorter first backoff, than the baseline gives, as
  -- far as the baseline's own cap allows.
  modulate-unknown :
      (baseline : RateLimitConfig N) (m : ModulatedRateLimit N)
      → modulate_rate_limit_config N baseline none ≡ some m
      → (m.band ≡ untrusted)
        × (m.config.capacity ≤ baseline.capacity)
        × (baseline.base_backoff_ms ≤ m.config.base_backoff_ms)
  unfolding modulate_rate_limit_config modulated_config get_reputation_band is_positive_baseline
      is_valid_config
  modulate-unknown baseline m h = ground arith

  zero-valid :
      (valid : RateLimitConfig N)
      → is_valid_config N valid ≡ true
      → is_valid_config N (record valid { base_backoff_ms = 0 }) ≡ true
  unfolding is_valid_config
  zero-valid valid accepted = ground (arith, accepted)

  -- Where a configuration is valid, the one with its base backoff at 0 is valid as well and buckets
  -- are created under it, but the modulation throws for it, whatever the score.
  pub modulate-zero_backoff :
      (valid : RateLimitConfig N)
      → is_valid_config N valid ≡ true
      → (now : ℕ) (score : Option Num)
      → (is_valid_config N (record valid { base_backoff_ms = 0 }) ≡ true)
        × (is_some (create_rate_limit_bucket N now (record valid { base_backoff_ms = 0 })) ≡ true)
        × (modulate_rate_limit_config N (record valid { base_backoff_ms = 0 }) score ≡ none)
  unfolding modulate_rate_limit_config is_positive_baseline create_rate_limit_bucket
  modulate-zero_backoff valid accepted now score =
      let still = zero-valid valid accepted in (still, ground (arith, still), ground (arith, still))
