-- ===== src/Transport/Modulation/Tests.antt =====
-- Runs of reputation-modulation.ts over the integers, and the theorems at concrete baselines.
use local_first_p2p_app.Common.{◌≡◌, refl, true, is_some, none, some}
use local_first_p2p_app.Common.Numbers.{integers, pos}
use local_first_p2p_app.Transport.RateLimit.{
  RateLimitConfig, is_valid_config, create_rate_limit_bucket,
}
use local_first_p2p_app.Transport.Modulation.{
  high, untrusted, ModulatedRateLimit, modulated_config, modulate_rate_limit_config,
  get_reputation_band, is_positive_baseline,
}
use local_first_p2p_app.Transport.Modulation.Laws.{modulate-valid, modulate-zero_backoff}

abbrev baseline : RateLimitConfig integers
baseline = record {
  capacity = 60;
  refill_rate_per_second = pos 8;
  base_backoff_ms = 1_000;
  max_backoff_ms = 10_000;
}

abbrev immediate : RateLimitConfig integers
immediate = record {
  capacity = 60;
  refill_rate_per_second = pos 8;
  base_backoff_ms = 0;
  max_backoff_ms = 10_000;
}

-- Over the integers the multiplier 1/4 rounds to 0, and so the refill rate does.
abbrev doubled : ModulatedRateLimit integers
doubled = record {
  config = record {
    capacity = 120;
    refill_rate_per_second = pos 16;
    base_backoff_ms = 500;
    max_backoff_ms = 10_000;
  };
  band = high;
}

abbrev quartered : ModulatedRateLimit integers
quartered = record {
  config = record {
    capacity = 15;
    refill_rate_per_second = pos 0;
    base_backoff_ms = 2_000;
    max_backoff_ms = 10_000;
  };
  band = untrusted;
}

doubles : modulate_rate_limit_config integers baseline (some (pos 1)) ≡ some doubled
unfolding modulate_rate_limit_config modulated_config get_reputation_band is_positive_baseline
    is_valid_config
doubles = refl

quarters : modulate_rate_limit_config integers baseline none ≡ some quartered
unfolding modulate_rate_limit_config modulated_config get_reputation_band is_positive_baseline
    is_valid_config
quarters = refl

immediate-valid : is_valid_config integers immediate ≡ true
unfolding is_valid_config
immediate-valid = refl

modulate-valid_example :
    (is_valid_config integers doubled.config ≡ true)
    × (doubled.config.max_backoff_ms ≡ baseline.max_backoff_ms)
    × (high ≡ get_reputation_band integers (some (pos 1)))
modulate-valid_example = modulate-valid integers baseline (some (pos 1)) doubled doubles

baseline-valid : is_valid_config integers baseline ≡ true
unfolding is_valid_config
baseline-valid = refl

modulate-zero_backoff_example :
    (is_valid_config integers (record baseline { base_backoff_ms = 0 }) ≡ true)
    × (is_some (create_rate_limit_bucket integers 5 (record baseline { base_backoff_ms = 0 }))
        ≡ true)
    × (modulate_rate_limit_config integers (record baseline { base_backoff_ms = 0 }) (some (pos 1))
        ≡ none)
modulate-zero_backoff_example =
    modulate-zero_backoff integers baseline baseline-valid 5 (some (pos 1))
