-- ===== src/BlockStore/Health/Tests.antt =====
-- Runs of health.ts, and the theorems at concrete trackers.
use local_first_p2p_app.Common.{◌+◌, ◌*◌, ◌≤◌, ◌≡◌, ◌≢◌, refl, min, true, false, [], ◌∷◌, arith}
use local_first_p2p_app.Common.Dict.{lookup, insert}
use local_first_p2p_app.BlockStore.Health.{
  default_breaker, BreakerState, Tracker, state_for, attempt, can_attempt, record_failure, cooldown,
  fail, grants,
}
use local_first_p2p_app.BlockStore.Health.Probe.{open-one_probe}
use local_first_p2p_app.BlockStore.Health.Trip.{cooldown-doubles}

abbrev open_at_100 : BreakerState
open_at_100 = record { consecutive_failures = 0; trips = 1; open_until = 100; probing = false }

abbrev probed : BreakerState
probed = record { consecutive_failures = 0; trips = 1; open_until = 100; probing = true }

abbrev tracker : Tracker
tracker = ("a", open_at_100) ∷ ("b", probed) ∷ []

one_probe : (grants "a" tracker (("a", 90) ∷ ("a", 120) ∷ ("b", 120) ∷ ("a", 130) ∷ [])).0 ≡ 1
unfolding grants can_attempt attempt state_for lookup insert
one_probe = refl

reopens :
    state_for (record_failure default_breaker tracker "b" 200) "b"
    ≡ record { consecutive_failures = 0; trips = 2; open_until = 10_200; probing = false }
unfolding record_failure fail cooldown state_for lookup insert
reopens = refl

shut-ne : (state_for tracker "a").open_until ≢ 0
unfolding state_for lookup
shut-ne h = absurd (omega (arith, h))

b-probing : (state_for tracker "b").probing ≡ true
unfolding state_for lookup
b-probing = refl

a-open : (state_for tracker "a").open_until ≡ 100
unfolding state_for lookup
a-open = refl

open-one_probe_example : (grants "a" tracker (("a", 120) ∷ ("b", 120) ∷ ("a", 130) ∷ [])).0 ≤ 1
open-one_probe_example =
    open-one_probe "a" tracker (("a", 120) ∷ ("b", 120) ∷ ("a", 130) ∷ []) shut-ne

cooldown-doubles_example :
    cooldown default_breaker (1 + 2) ≡ min 300_000 (2 * cooldown default_breaker (1 + 1))
cooldown-doubles_example = cooldown-doubles default_breaker 1
