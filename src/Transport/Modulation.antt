-- ===== src/Transport/Modulation.antt =====
-- packages/trust-safety/src/transport-admission/reputation-modulation.ts, with the band table of
-- packages/trust-safety/src/reputation-graph/surface-integration.ts.
-- The capacity and the base backoff are whole numbers, at which the products with 2, 1.5, 1, 0.5 and
-- 0.25 are exact, so their floors are written as divisions. A score is finite or undefined.
pub mod Laws
mod Tests
use local_first_p2p_app.Common.{
  ℕ, ◌*◌, ◌/◌, min, max, Bool, true, false, ◌&&◌, not, Option, none, some, leb, ltb, if◌then◌else◌,
}
use local_first_p2p_app.Common.Numbers.{Numbers, lt, is_zero}
use local_first_p2p_app.Transport.RateLimit.{RateLimitConfig, is_valid_config}

pub data ReputationBand : Type 0 where
  high mid low untrusted : ReputationBand

-- A multiplier as a fraction.
pub record Multiplier : Type 0 where
  pub over : ℕ
  pub under : ℕ

abbrev pub scale : Multiplier → ℕ → ℕ
scale m n = n * m.over / m.under

pub record AdmissionBandMultipliers : Type 0 where
  pub capacity_multiplier : Multiplier
  pub refill_multiplier : Multiplier
  pub cooldown_exponent_multiplier : Multiplier

abbrev pub two : Multiplier
two = record { over = 2; under = 1 }

abbrev pub one_and_half : Multiplier
one_and_half = record { over = 3; under = 2 }

abbrev pub one : Multiplier
one = record { over = 1; under = 1 }

abbrev pub half : Multiplier
half = record { over = 1; under = 2 }

abbrev pub quarter : Multiplier
quarter = record { over = 1; under = 4 }

-- `ADMISSION_BAND_TABLE`
abbrev pub admission_band_table : ReputationBand → AdmissionBandMultipliers
admission_band_table high = record {
  capacity_multiplier = two;
  refill_multiplier = two;
  cooldown_exponent_multiplier = half;
}
admission_band_table mid = record {
  capacity_multiplier = one;
  refill_multiplier = one;
  cooldown_exponent_multiplier = one;
}
admission_band_table low = record {
  capacity_multiplier = half;
  refill_multiplier = half;
  cooldown_exponent_multiplier = one_and_half;
}
admission_band_table untrusted = record {
  capacity_multiplier = quarter;
  refill_multiplier = quarter;
  cooldown_exponent_multiplier = two;
}

module _ (N : Numbers) where
  open N use {Num, of_ℕ, mul, div, le}

  unfoldable pub get_reputation_band : Option Num → ReputationBand
  get_reputation_band none = untrusted
  get_reputation_band (some score) =
      if lt N score (of_ℕ 0)
      then untrusted
      else if le (div (of_ℕ 1) (of_ℕ 2)) score
      then high
      else if le (div (of_ℕ 1) (of_ℕ 10)) score
      then mid
      else if le (div (of_ℕ 1) (of_ℕ 100)) score
      then low
      else untrusted

  pub record ModulatedRateLimit : Type 0 where
    pub config : RateLimitConfig N
    pub band : ReputationBand

  -- The configuration that the table gives, before it is validated again.
  unfoldable pub modulated_config : RateLimitConfig N → ReputationBand → RateLimitConfig N
  modulated_config baseline band =
      let m = admission_band_table band in
      record {
        capacity = max 1 (scale m.capacity_multiplier baseline.capacity);
        refill_rate_per_second =
            mul baseline.refill_rate_per_second
              (div (of_ℕ m.refill_multiplier.over) (of_ℕ m.refill_multiplier.under));
        base_backoff_ms =
            min baseline.max_backoff_ms
              (scale m.cooldown_exponent_multiplier baseline.base_backoff_ms);
        max_backoff_ms = baseline.max_backoff_ms;
      }

  -- `assertPositiveFinite` of each field that `applyAdmissionBand` takes.
  unfoldable pub is_positive_baseline : RateLimitConfig N → Bool
  is_positive_baseline baseline =
      leb 1 baseline.capacity
      && lt N (of_ℕ 0) baseline.refill_rate_per_second
      && leb 1 baseline.base_backoff_ms

  -- `none` is a thrown `TS_INVALID_NUMBER`.
  unfoldable pub modulate_rate_limit_config :
      RateLimitConfig N → Option Num → Option ModulatedRateLimit
  modulate_rate_limit_config baseline score =
      let band = get_reputation_band score in
      let result = modulated_config baseline band in
      if is_valid_config N baseline && is_positive_baseline baseline && is_valid_config N result
      then some (record { config = result; band = band })
      else none
