-- ===== src/Transport/RateLimit/Tests.antt =====
-- Runs of rate-limit.ts over the integers, and the theorems at concrete buckets.
use local_first_p2p_app.Common.{◌*◌, ◌-◌, ◌+◌, ◌≤◌, ◌≡◌, refl, false, [], ◌∷◌, arith}
use local_first_p2p_app.Common.Numbers.{integers, pos}
use local_first_p2p_app.Transport.RateLimit.{
  RateLimitBucket, RateLimitConfig, added_tokens, consumed_ms, refill, next_backoff_ms, try_consume,
  attempt_all,
}
use local_first_p2p_app.Transport.RateLimit.Bounds.{attempt_all-bounded, attempt_all-paid, IsTimed}

-- Two tokens, one more per second, and a first backoff of a tenth of a second.
abbrev tiny : RateLimitConfig integers
tiny = record {
  capacity = 2;
  refill_rate_per_second = pos 1;
  base_backoff_ms = 100;
  max_backoff_ms = 1_000;
}

abbrev full : RateLimitBucket
full = record { tokens = 2; last_refill_at = 50; consecutive_refusals = 0; cooldown_until = 0 }

abbrev empty : RateLimitBucket
empty = record { tokens = 0; last_refill_at = 50; consecutive_refusals = 1; cooldown_until = 0 }

refills : (try_consume integers empty 3_060 tiny).bucket.tokens ≡ 1
unfolding try_consume refill added_tokens consumed_ms next_backoff_ms
refills = refl

refuses : (try_consume integers empty 60 tiny).is_allowed ≡ false
unfolding try_consume refill added_tokens consumed_ms next_backoff_ms
refuses = refl

refuses_until : (try_consume integers empty 60 tiny).retry_after ≡ 260
unfolding try_consume refill added_tokens consumed_ms next_backoff_ms
refuses_until = refl

attempt_all-bounded_example :
    (attempt_all integers full (60 ∷ 61 ∷ 9_000 ∷ []) tiny).1.tokens ≤ tiny.capacity
attempt_all-bounded_example =
    attempt_all-bounded integers tiny full (60 ∷ 61 ∷ 9_000 ∷ []) (omega arith)

tiny-IsTimed : IsTimed integers tiny 1_000
tiny-IsTimed = record { priced = λ added. grind arith; within = λ elapsed. grind arith }

-- The two tokens at the start, and eight for the 8950 milliseconds until 9000.
attempt_all-paid_example :
    1_000
      * ((attempt_all integers full (60 ∷ 61 ∷ 9_000 ∷ []) tiny).0
          + (attempt_all integers full (60 ∷ 61 ∷ 9_000 ∷ []) tiny).1.tokens)
    ≤ 1_000 * 2 + (9_000 - 50)
attempt_all-paid_example =
    attempt_all-paid integers tiny 1_000 9_000 tiny-IsTimed full (60 ∷ 61 ∷ 9_000 ∷ [])
      (omega arith) (omega arith)
