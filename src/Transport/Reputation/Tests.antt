-- ===== src/Transport/Reputation/Tests.antt =====
-- Runs of peer-reputation.ts over the integers, and the theorems at concrete records.
use local_first_p2p_app.Common.{ℕ, ◌+◌, ◌≤◌, ◌≡◌, refl, none, some, arith}
use local_first_p2p_app.Common.Numbers.{integers, pos, negsuc}
use local_first_p2p_app.Transport.Reputation.{
  oversized, ReputationConfig, PeerReputation, clamp, decayed_magnitude, decay_reputation,
  apply_reputation_delta,
}

abbrev limits : ReputationConfig integers
limits = record {
  min_score = negsuc 999;
  max_score = pos 1_000;
  decay_per_second = pos 1;
  quarantine_threshold = negsuc 499;
  recovery_threshold = negsuc 99;
  max_quarantine_ms = 60_000;
}

abbrev bad : PeerReputation integers
bad = record {
  score = negsuc 489;
  last_updated_at = 0;
  quarantine_until = none;
  last_reason = none;
}

abbrev good : PeerReputation integers
good = record { score = pos 30; last_updated_at = 0; quarantine_until = none; last_reason = none }

quarantines :
    (apply_reputation_delta integers bad (negsuc 24) 1_000 oversized limits).quarantine_until
    ≡ some 61_000
unfolding apply_reputation_delta decay_reputation clamp decayed_magnitude
quarantines = refl

decays : (decay_reputation integers good 5_500 limits).score ≡ pos 25
unfolding decay_reputation clamp decayed_magnitude
decays = refl

no_quarantine : (old : ℕ) → bad.quarantine_until ≡ some old → old ≤ 1_000 + limits.max_quarantine_ms
no_quarantine old h = ground arith
