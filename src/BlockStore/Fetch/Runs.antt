-- ===== src/BlockStore/Fetch/Runs.antt =====
-- What every step of a request in block-store.ts does to its progress and to the health tracker.
use local_first_p2p_app.Common.{
  ℕ, suc, ◌+◌, ◌≤◌, ◌≡◌, String, false, [], ◌∷◌, arith, length, length-append, str_eq,
}
use local_first_p2p_app.Common.Numbers.{Numbers}
use local_first_p2p_app.Common.Dict.{lookup-insert}
use local_first_p2p_app.BlockStore.Health.{
  BreakerConfig, Tracker, state_for, can_attempt, record_success, record_failure, fail,
  closed_state,
}
use local_first_p2p_app.BlockStore.Health.Probe.{state_for-can_attempt}
use local_first_p2p_app.BlockStore.Fetch.Attempt.{World, FetchAttemptOutcome, Progress, note}

-- The breaker of a fetcher that lets everybody through.
abbrev pub IsClosed : String → Tracker → Type 0
IsClosed id t = (state_for t id).open_until ≡ 0

module _ (N : Numbers) (world : World N) where
  -- Other requests leave the fetcher's breaker closed.
  abbrev pub IsCalm : String → Type 0
  IsCalm j = (k : ℕ) (t : Tracker) → IsClosed j t → IsClosed j (world.interleave k t)

  -- A step that is about `id` leaves every other fetcher's breaker closed.
  abbrev pub Keeps : String → Tracker → Tracker → Type 0
  Keeps id t t' = (j : String) → IsCalm j → str_eq id j ≡ false → IsClosed j t → IsClosed j t'

  -- At most `n` more attempts are recorded.
  abbrev pub Runs : ℕ → String → Progress → Progress → Type 0
  Runs n id p q = (length q.attempts ≤ n + length p.attempts) × Keeps id p.health q.health

  pub Runs-trans :
      (m n : ℕ) (id : String) (p q r : Progress)
      → Runs m id p q
      → Runs n id q r
      → Runs (m + n) id p r
  Runs-trans m n id p q r (short, keep) (short', keep') =
      (omega arith, λ j calm other shut. keep' j calm other (keep j calm other shut))

  pub can_attempt-Keeps :
      (t : Tracker) (id : String) (now : ℕ) → Keeps id t (can_attempt t id now).1
  can_attempt-Keeps t id now j calm other shut =
      ground (arith, state_for-can_attempt t j id now, other, shut)

  pub record_failure-Keeps :
      (config : BreakerConfig) (t : Tracker) (id : String) (now : ℕ)
      → Keeps id t (record_failure config t id now)
  unfolding record_failure state_for
  record_failure-Keeps config t id now j calm other shut =
      ground (arith, lookup-insert id j (fail config (state_for t id) now) t, other, shut)

  pub record_success-Keeps : (t : Tracker) (id : String) → Keeps id t (record_success t id)
  unfolding record_success state_for
  record_success-Keeps t id j calm other shut =
      ground (arith, lookup-insert id j closed_state t, other, shut)

  pub interleave-Keeps : (t : Tracker) (id : String) (k : ℕ) → Keeps id t (world.interleave k t)
  interleave-Keeps t id k j calm other shut = calm k t shut

  pub length-note :
      (id : String) (outcome : FetchAttemptOutcome) (p : Progress)
      → length (note id outcome p).attempts ≡ suc (length p.attempts)
  length-note id outcome p =
      omega
        (arith, length-append {0} p.attempts (record { fetcher_id = id; outcome = outcome } ∷ []))
