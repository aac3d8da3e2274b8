-- ===== src/BlockStore/Health/Trip.antt =====
-- When the breaker of health.ts trips, for how long, and how it heals.
use native.Mathlib.Nat.{pow-suc}
use local_first_p2p_app.Common.{
  ℕ, zero, suc, ◌+◌, ◌-◌, ◌*◌, ◌^◌, ◌≤◌, ◌<◌, ◌≡◌, ◌≢◌, min, String, true, false, arith,
  if◌then◌else◌, str_eq, eq_iff,
}
use local_first_p2p_app.Common.Dict.{insert, lookup-insert}
use local_first_p2p_app.BlockStore.Health.{
  BreakerState, closed_state, Tracker, state_for, attempt, can_attempt, record_success,
  record_failure, fail, BreakerConfig, cooldown,
}

state_for-insert :
    (t : Tracker) (id j : String) (state : BreakerState)
    → state_for (insert j state t) id ≡ (if str_eq j id then state else state_for t id)
unfolding state_for
state_for-insert t id j state = ground (arith, lookup-insert j id state t)

-- A success closes the breaker of its fetcher, so that it is let through at any time, and leaves
-- every other fetcher's state as it was.
success-heals :
    (t : Tracker) (id j : String) (now : ℕ)
    → id ≢ j
    → ((can_attempt (record_success t id) id now).0 ≡ true)
      × (state_for (record_success t id) j ≡ state_for t j)
unfolding record_success can_attempt attempt
success-heals t id j now other = ground (
  arith,
  state_for-insert t id id closed_state,
  state_for-insert t j id closed_state,
  eq_iff id id,
  eq_iff id j,
)

state_for-record_failure :
    (config : BreakerConfig) (t : Tracker) (id : String) (now : ℕ)
    → state_for (record_failure config t id now) id ≡ fail config (state_for t id) now
unfolding record_failure
state_for-record_failure config t id now =
    ground (arith, state_for-insert t id id (fail config (state_for t id) now), eq_iff id id)

-- The tracker after `n` failures of `id` at the instant `now`.
pub failures : BreakerConfig → String → ℕ → ℕ → Tracker → Tracker
failures config id now zero t = t
failures config id now (suc n) t = record_failure config (failures config id now n t) id now

failures-count :
    (config : BreakerConfig) (id : String) (now n : ℕ) (t : Tracker)
    → n < config.failure_threshold
    → state_for (failures config id now n (record_success t id)) id
      ≡ record { consecutive_failures = n; trips = 0; open_until = 0; probing = false }
unfolding failures fail record_success
failures-count config id now zero t few =
    ground (arith, state_for-insert t id id closed_state, eq_iff id id)
failures-count config id now (suc n) t few = ground (
  arith,
  few,
  failures-count config id now n t (omega (arith, few)),
  state_for-record_failure config (failures config id now n (record_success t id)) id now,
)

-- After a success the breaker stays closed for fewer failures than the threshold, and the failure
-- that reaches it opens the breaker for the first cooldown.
trip_exact :
    (config : BreakerConfig) (id : String) (now n : ℕ) (t : Tracker)
    → config.failure_threshold ≡ suc n
    → ((state_for (failures config id now n (record_success t id)) id).open_until ≡ 0)
      × (state_for (failures config id now (suc n) (record_success t id)) id ≡ record {
        consecutive_failures = 0;
        trips = 1;
        open_until = now + cooldown config 1;
        probing = false;
      })
unfolding failures fail
trip_exact config id now n t threshold =
    let count = failures-count config id now n t (omega (arith, threshold)) in
    ground (
      arith,
      threshold,
      count,
      state_for-record_failure config (failures config id now n (record_success t id)) id now,
    )

-- A failed probe opens the breaker again at once, whatever the threshold, for the cooldown of one
-- trip more, which is at most the cap, and ends the probe.
probe_failure-reopens :
    (config : BreakerConfig) (t : Tracker) (id : String) (now : ℕ)
    → (state_for t id).probing ≡ true
    → ((state_for (record_failure config t id now) id).open_until
        ≡ now + cooldown config ((state_for t id).trips + 1))
      × ((state_for (record_failure config t id now) id).probing ≡ false)
      × (cooldown config ((state_for t id).trips + 1) ≤ config.max_cooldown_ms)
unfolding fail cooldown
probe_failure-reopens config t id now probing =
    ground (arith, probing, state_for-record_failure config t id now)

-- The cooldown of each further trip is twice that of the one before, up to the cap.
pub cooldown-doubles :
    (config : BreakerConfig) (trips : ℕ)
    → cooldown config (trips + 2) ≡ min config.max_cooldown_ms (2 * cooldown config (trips + 1))
unfolding cooldown
cooldown-doubles config trips =
    let e : trips + 2 - 1 ≡ suc trips = omega arith in
    let f : trips + 1 - 1 ≡ trips = omega arith in
    rw (e, f, pow-suc 2 trips) (ground (arith, grown config.cooldown_ms (2 ^ trips)))
  where
    grown : (b p : ℕ) → b * (p * 2) ≡ b * p + b * p
    grown b p = omega arith
