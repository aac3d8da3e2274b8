-- ===== src/BlockStore/Health.antt =====
-- packages/block-store/src/health.ts: the circuit breaker of each fetcher.
-- Times are whole milliseconds. With `cooldownMs` 0 and more than 1024 trips the source computes
-- 0 * Infinity; the model has 0 there.
pub mod Probe
pub mod Trip
mod Tests
use local_first_p2p_app.Common.{
  ℕ, ◌+◌, ◌-◌, ◌*◌, ◌^◌, min, String, Bool, true, false, not, ◌||◌, Option, none, some, List, [],
  ◌∷◌, suc, ltb, leb, ◌==◌, if◌then◌else◌, str_eq,
}
use local_first_p2p_app.Common.Dict.{Dict, lookup, insert}

pub record BreakerConfig : Type 0 where
  pub failure_threshold : ℕ
  pub cooldown_ms : ℕ
  pub max_cooldown_ms : ℕ

abbrev pub default_breaker : BreakerConfig
default_breaker = record { failure_threshold = 5; cooldown_ms = 5_000; max_cooldown_ms = 300_000 }

-- `validateBreakerConfig` throws where this is false.
unfoldable pub is_valid_breaker : BreakerConfig → Bool
is_valid_breaker config =
    if ltb config.failure_threshold 1
    then false
    else not (ltb config.max_cooldown_ms config.cooldown_ms)

pub record BreakerState : Type 0 where
  pub consecutive_failures : ℕ
  pub trips : ℕ
  pub open_until : ℕ
  pub probing : Bool

abbrev pub closed_state : BreakerState
closed_state = record { consecutive_failures = 0; trips = 0; open_until = 0; probing = false }

-- `#states`: the state of each fetcher that has been met.
abbrev pub Tracker : Type 0
Tracker = Dict BreakerState

abbrev pub or_closed : Option BreakerState → BreakerState
or_closed none = closed_state
or_closed (some state) = state

-- `stateFor`, without its insertion: each caller writes the state back.
unfoldable pub state_for : Tracker → String → BreakerState
state_for t id = or_closed (lookup id t)

-- `canAttempt` on one state.
unfoldable pub attempt : BreakerState → ℕ → Bool × BreakerState
attempt state now =
    if state.open_until == 0
    then (true, state)
    else if ltb now state.open_until
    then (false, state)
    else if state.probing
    then (false, state)
    else (true, record state { probing = true })

unfoldable pub can_attempt : Tracker → String → ℕ → Bool × Tracker
can_attempt t id now =
    let (granted, state) = attempt (state_for t id) now in (granted, insert id state t)

unfoldable pub record_success : Tracker → String → Tracker
record_success t id = insert id closed_state t

-- `Math.min(maxCooldownMs, cooldownMs * 2 ** (trips - 1))`
unfoldable pub cooldown : BreakerConfig → ℕ → ℕ
cooldown config trips = min config.max_cooldown_ms (config.cooldown_ms * 2 ^ (trips - 1))

-- `recordFailure` on one state.
unfoldable pub fail : BreakerConfig → BreakerState → ℕ → BreakerState
fail config state now =
    let failures = state.consecutive_failures + 1 in
    let trips = state.trips + 1 in
    if state.probing || leb config.failure_threshold failures
    then record {
      consecutive_failures = 0;
      trips = trips;
      open_until = now + cooldown config trips;
      probing = false;
    }
    else record state { consecutive_failures = failures; probing = false }

unfoldable pub record_failure : BreakerConfig → Tracker → String → ℕ → Tracker
record_failure config t id now = insert id (fail config (state_for t id) now) t

pub record BreakerSnapshot : Type 0 where
  pub is_open : Bool
  pub trips : ℕ

unfoldable pub snapshot : Tracker → String → BreakerSnapshot
snapshot t id = record {
  is_open = not ((state_for t id).open_until == 0);
  trips = (state_for t id).trips;
}

-- Callers ask for fetchers in turn, at their instants, and no outcome is recorded in between: the
-- number of times that `id` is let through, and the tracker that is left.
unfoldable pub grants : String → Tracker → List (String × ℕ) → ℕ × Tracker
grants id t [] = (0, t)
grants id t ((j, now) ∷ rest) =
    let (granted, t') = can_attempt t j now in
    let (n, last) = grants id t' rest in
    ((if str_eq j id then (if granted then suc n else n) else n), last)
