-- ===== src/Transport/RateLimit/Bounds.antt =====
-- How many attempts the token bucket of rate-limit.ts lets through.
use local_first_p2p_app.Common.{
  ℕ, zero, suc, ◌+◌, ◌*◌, All, ◌-◌, ◌≤◌, ◌≡◌, refl, min, Bool, true, false, List, [], ◌∷◌, arith,
  leb, if◌then◌else◌, replicate, Bool-cases, inl, inr,
}
use native.Mathlib.Nat.{mul-le-mul_left}
use local_first_p2p_app.Common.Numbers.{Numbers}
use local_first_p2p_app.Transport.RateLimit.{
  RateLimitBucket, RateLimitConfig, added_tokens, consumed_ms, refill, try_consume, attempt_all,
}

-- One attempt's account joined with that of the later ones.
chain :
    (price c held tokens at at' horizon granted left total : ℕ)
    → price * (c + held) + at ≤ price * tokens + at'
    → price * (granted + left) ≤ price * held + (horizon - at')
    → at' ≤ horizon
    → total ≡ c + granted
    → price * (total + left) ≤ price * tokens + (horizon - at)
chain price c held tokens at at' horizon granted left total paid rest kept counted =
    let e1 : price * (c + held) ≡ price * c + price * held = grind arith in
    let e2 : price * (c + granted + left) ≡ price * c + price * (granted + left) = grind arith in
    rw counted (omega (arith, e1, e2, paid, rest, kept))

module _ (N : Numbers) (config : RateLimitConfig N) where
  -- An attempt never leaves more tokens than the capacity.
  pub try_consume-bounded :
      (b : RateLimitBucket) (now : ℕ)
      → b.tokens ≤ config.capacity
      → (try_consume N b now config).bucket.tokens ≤ config.capacity
  unfolding try_consume refill
  try_consume-bounded b now h = ground arith

  -- From a bucket within its capacity, no run of attempts at any instants overfills it.
  pub attempt_all-bounded :
      (b : RateLimitBucket) (times : List ℕ)
      → b.tokens ≤ config.capacity
      → (attempt_all N b times config).1.tokens ≤ config.capacity
  unfolding attempt_all
  attempt_all-bounded b [] h = h
  attempt_all-bounded b (now ∷ later) h =
      attempt_all-bounded (try_consume N b now config).bucket later (try_consume-bounded b now h)

  -- What the platform's numbers do at this rate: every token that is added uses up at least `price`
  -- milliseconds of the clock, and the tokens of a stretch of time use up no more than the stretch.
  pub record IsTimed (price : ℕ) : Type 0 where
    pub priced :
        (added : ℕ)
        → price * added
          ≤ N.floor (N.mul (N.div (N.of_ℕ added) config.refill_rate_per_second) (N.of_ℕ 1_000))
    pub within :
        (elapsed : ℕ)
        → N.floor (
            N.mul
              (N.div
                (N.of_ℕ (
                  N.floor
                    (N.mul (N.div (N.of_ℕ elapsed) (N.of_ℕ 1_000)) config.refill_rate_per_second)))
                config.refill_rate_per_second)
              (N.of_ℕ 1_000))
          ≤ elapsed

  abbrev cost : Bool → ℕ
  cost true = 1
  cost false = 0

  module _ (price horizon : ℕ) (timed : IsTimed price) where
    refill-pays :
        (b : RateLimitBucket) (now : ℕ)
        → now ≤ horizon
        → b.last_refill_at ≤ horizon
        → (price * (refill N b now config).tokens + b.last_refill_at
            ≤ price * b.tokens + (refill N b now config).last_refill_at)
          × ((refill N b now config).last_refill_at ≤ horizon)
    unfolding refill added_tokens consumed_ms
    refill-pays b now early kept =
        let added = added_tokens N (now - b.last_refill_at) config in
        let tokens = min config.capacity (b.tokens + added) in
        let all : price * (b.tokens + added) ≡ price * b.tokens + price * added = grind arith in
        let most : price * tokens ≤ price * (b.tokens + added) =
          mul-le-mul_left price (omega arith) in
        ground
          (arith, all, most, timed.priced added, timed.within (now - b.last_refill_at), early, kept)

    try_consume-pays :
        (b : RateLimitBucket) (now : ℕ)
        → now ≤ horizon
        → b.last_refill_at ≤ horizon
        → (price
                * (cost (try_consume N b now config).is_allowed
                    + (try_consume N b now config).bucket.tokens)
              + b.last_refill_at
            ≤ price * b.tokens + (try_consume N b now config).bucket.last_refill_at)
          × ((try_consume N b now config).bucket.last_refill_at ≤ horizon)
    unfolding try_consume
    try_consume-pays b now early kept =
        let (paid, later) = refill-pays b now early kept in
        let same : leb 1 (refill N b now config).tokens ≡ true
            → 1 + ((refill N b now config).tokens - 1) ≡ (refill N b now config).tokens =
          λ h. ground (arith, h) in
        ground (arith, paid, later, kept, same)

    counts : (allowed : Bool) (n : ℕ) → (if allowed then suc n else n) ≡ cost allowed + n
    counts true n = omega arith
    counts false n = omega arith

    -- Where every added token uses up at least `price` milliseconds of the clock, and no more than has
    -- passed, a run of attempts until `horizon` lets through, together with the tokens that are left, at
    -- most the tokens at its start and one for each `price` milliseconds since the last refill before it.
    pub attempt_all-paid :
        (b : RateLimitBucket) (times : List ℕ)
        → b.last_refill_at ≤ horizon
        → All (λ now. now ≤ horizon) times
        → price * ((attempt_all N b times config).0 + (attempt_all N b times config).1.tokens)
          ≤ price * b.tokens + (horizon - b.last_refill_at)
    unfolding attempt_all
    attempt_all-paid b [] kept early = omega arith
    attempt_all-paid b (now ∷ later) kept (first, early) =
        let d = try_consume N b now config in
        let (paid, later_kept) = try_consume-pays b now first kept in
        let ih = attempt_all-paid d.bucket later later_kept early in
        chain price (cost d.is_allowed) d.bucket.tokens b.tokens b.last_refill_at
          d.bucket.last_refill_at horizon (attempt_all N d.bucket later config).0
          (attempt_all N d.bucket later config).1.tokens _ paid ih later_kept
          (counts d.is_allowed (attempt_all N d.bucket later config).0)

  empty-grants_none :
      (now n : ℕ) (b : RateLimitBucket)
      → b.last_refill_at ≡ now
      → b.tokens ≡ 0
      → (attempt_all N b (replicate n now) config).0 ≡ 0
  unfolding attempt_all
  empty-grants_none now zero b at none_left = refl
  empty-grants_none now (suc n) b at none_left = ground (
    arith,
    idle.0,
    idle.1,
    empty-grants_none now n (try_consume N b now config).bucket idle.1.0 idle.1.1,
  )
    where
      idle :
          ((try_consume N b now config).is_allowed ≡ false)
          × (((try_consume N b now config).bucket.last_refill_at ≡ now)
              × ((try_consume N b now config).bucket.tokens ≡ 0))
      idle = unfold try_consume refill in ground (arith, at, none_left)

  -- Of `n` attempts at the instant of the last refill, outside a cooldown, exactly as many pass as
  -- there are tokens, or all of them if there are fewer than that.
  burst_exact :
      (now n : ℕ) (b : RateLimitBucket)
      → b.last_refill_at ≡ now
      → b.cooldown_until ≤ now
      → (attempt_all N b (replicate n now) config).0 ≡ min n b.tokens
  unfolding attempt_all
  burst_exact now zero b at free = omega arith
  burst_exact now (suc n) b at free = elim (Bool-cases (leb 1 b.tokens)) [
    | inl more ↦
        let step = spend more in
        ground (
          arith,
          more,
          step.0,
          step.2,
          burst_exact now n (try_consume N b now config).bucket step.1.0 step.1.1,
        )
    | inr out ↦ ground (arith, out, empty-grants_none now (suc n) b at (ground (arith, out)))
  ]
    where
      spend :
          leb 1 b.tokens ≡ true
          → ((try_consume N b now config).is_allowed ≡ true)
            × (((try_consume N b now config).bucket.last_refill_at ≡ now)
                × ((try_consume N b now config).bucket.cooldown_until ≤ now))
            × ((try_consume N b now config).bucket.tokens + 1 ≡ b.tokens)
      spend more = unfold try_consume refill in ground (arith, at, free, more)
