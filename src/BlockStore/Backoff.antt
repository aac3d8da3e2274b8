-- ===== src/BlockStore/Backoff.antt =====
-- packages/block-store/src/backoff.ts: the wait before a retry. Delays are whole milliseconds; the
-- random number is one of the parameter `N`, and `none` where it is not finite. `retryIndex` is the
-- loop's counter, so a natural number.
use local_first_p2p_app.Common.{
  ℕ, ◌*◌, ◌^◌, min, Bool, not, ◌&&◌, Option, none, some, ltb, if◌then◌else◌,
}
use local_first_p2p_app.Common.Numbers.{Numbers, lt}
use local_first_p2p_app.Common.Result.{Result, err, ok}
use local_first_p2p_app.BlockStore.Errors.{BsErrorCode, bs_invalid_input}

pub record BackoffConfig : Type 0 where
  pub base_delay_ms : ℕ
  pub max_delay_ms : ℕ

abbrev pub default_backoff : BackoffConfig
default_backoff = record { base_delay_ms = 100; max_delay_ms = 10_000 }

-- `validateBackoffConfig` throws where this is false.
abbrev pub is_valid_backoff : BackoffConfig → Bool
is_valid_backoff config = not (ltb config.max_delay_ms config.base_delay_ms)

-- `Math.min(config.maxDelayMs, config.baseDelayMs * 2 ** retryIndex)`
abbrev pub ceiling : ℕ → BackoffConfig → ℕ
ceiling retry_index config = min config.max_delay_ms (config.base_delay_ms * 2 ^ retry_index)

module _ (N : Numbers) where
  open N use {Num, of_ℕ, mul, le, floor}

  unfoldable pub compute_backoff_delay_ms : ℕ → BackoffConfig → Option Num → Result BsErrorCode ℕ
  compute_backoff_delay_ms retry_index config none = err bs_invalid_input
  compute_backoff_delay_ms retry_index config (some r) =
      if le (of_ℕ 0) r && lt N r (of_ℕ 1)
      then ok (floor (mul r (of_ℕ (ceiling retry_index config))))
      else err bs_invalid_input
