-- ===== src/Transport/Reputation/Laws.antt =====
-- Bounds, decay and quarantine of peer-reputation.ts.
use local_first_p2p_app.Common.{
  ℕ, ◌+◌, ◌-◌, ◌≤◌, ◌<◌, ◌≡◌, ◌↔◌, ◌⊎◌, true, false, none, some, arith,
}
use local_first_p2p_app.Common.Numbers.{Numbers, NumberLaws, lt, abs}
use local_first_p2p_app.Transport.Reputation.{
  DeltaReason, ReputationConfig, PeerReputation, clamp, decayed_magnitude, decay_reputation,
  apply_reputation_delta, is_quarantined,
}

module _ (N : Numbers) (laws : NumberLaws N) (c : ReputationConfig N) where
  open N use {Num, of_ℕ, neg, add, sub, mul, div, le}

  le_refl_num : (a : Num) → le a a ≡ true
  le_refl_num a = ground (arith, laws.le_total a a)

  clamp_bounds :
      (value lo hi : Num)
      → le lo hi ≡ true
      → (le lo (clamp N value lo hi) ≡ true) × (le (clamp N value lo hi) hi ≡ true)
  unfolding clamp
  clamp_bounds value lo hi h = ground (
    arith,
    h,
    laws.le_total lo value,
    laws.le_total hi value,
    laws.le_total hi lo,
    le_refl_num hi,
    le_refl_num lo,
  )

  abbrev pub InBounds : PeerReputation N → Type 0
  InBounds rep = (le c.min_score rep.score ≡ true) × (le rep.score c.max_score ≡ true)

  -- Where `minScore <= maxScore`, a delta of any size leaves a score within these bounds, and the
  -- decay keeps a score within them.
  pub score_bounded :
      (rep : PeerReputation N) (delta : Num) (now : ℕ) (reason : DeltaReason)
      → le c.min_score c.max_score ≡ true
      → InBounds rep
      → InBounds (apply_reputation_delta N rep delta now reason c)
        × InBounds (decay_reputation N rep now c)
  unfolding apply_reputation_delta decay_reputation
  score_bounded rep delta now reason ordered fits =
      let d = decayed_magnitude N rep.score (now - rep.last_updated_at) c in
      let next = add (decay_reputation N rep now c).score delta in
      (
        clamp_bounds next c.min_score c.max_score ordered,
        ground (
          arith,
          fits,
          clamp_bounds d c.min_score c.max_score ordered,
          clamp_bounds (neg d) c.min_score c.max_score ordered,
          clamp_bounds (of_ℕ 0) c.min_score c.max_score ordered,
        ),
      )

  -- The part of a decay that the magnitude may lose is not negative.
  magnitude_bounds :
      (score : Num) (elapsed : ℕ)
      → le (of_ℕ 0) c.decay_per_second ≡ true
      → le (of_ℕ 0) (abs N score) ≡ true
      → (le (of_ℕ 0) (decayed_magnitude N score elapsed c) ≡ true)
        × (le (decayed_magnitude N score elapsed c) (abs N score) ≡ true)
  unfolding decayed_magnitude
  magnitude_bounds score elapsed rate h =
      let seconds = div (of_ℕ elapsed) (of_ℕ 1_000) in
      ground (
        arith,
        h,
        laws.sub-le (abs N score) (mul seconds c.decay_per_second)
            (laws.mul-nonneg seconds c.decay_per_second (laws.div-nonneg elapsed 1_000) rate),
        laws.le_total (of_ℕ 0) (sub (abs N score) (mul seconds c.decay_per_second)),
        le_refl_num (of_ℕ 0),
      )

  -- Clamping a number between two bounds that the range does not cut keeps it between them.
  clamp-between :
      (x lo hi : Num)
      → le c.min_score hi ≡ true
      → le lo c.max_score ≡ true
      → le lo x ≡ true
      → le x hi ≡ true
      → (le lo (clamp N x c.min_score c.max_score) ≡ true)
        × (le (clamp N x c.min_score c.max_score) hi ≡ true)
  unfolding clamp
  clamp-between x lo hi low high from to = ground (
    arith,
    low,
    high,
    from,
    to,
    laws.le_total c.min_score x,
    laws.le_total c.max_score x,
    laws.le_trans lo x c.min_score from,
    laws.le_trans c.max_score x hi,
    laws.le_total c.max_score c.min_score,
    laws.le_trans c.max_score c.min_score hi,
  )

  -- With a rate that is not negative, a bounded score that is not negative decays to one between 0 and
  -- itself.
  decay_falls :
      (rep : PeerReputation N) (now : ℕ)
      → le (of_ℕ 0) c.decay_per_second ≡ true
      → le c.min_score (of_ℕ 0) ≡ true
      → le rep.score c.max_score ≡ true
      → le (of_ℕ 0) rep.score ≡ true
      → (le (of_ℕ 0) (decay_reputation N rep now c).score ≡ true)
        × (le (decay_reputation N rep now c).score rep.score ≡ true)
  unfolding decay_reputation
  decay_falls rep now rate low high sign =
      let d = decayed_magnitude N rep.score (now - rep.last_updated_at) c in
      let to_max = laws.le_trans (of_ℕ 0) rep.score c.max_score sign high in
      let to_score = laws.le_trans c.min_score (of_ℕ 0) rep.score low sign in
      ground (
        arith,
        sign,
        magnitude_bounds rep.score (now - rep.last_updated_at) rate,
        clamp-between d (of_ℕ 0) rep.score to_score to_max,
        clamp-between (of_ℕ 0) (of_ℕ 0) rep.score to_score to_max,
        le_refl_num (of_ℕ 0),
        le_refl_num rep.score,
      )

  -- With a rate that is not negative, a bounded score below 0 decays to one between itself and 0.
  decay_rises :
      (rep : PeerReputation N) (now : ℕ)
      → le (of_ℕ 0) c.decay_per_second ≡ true
      → le (of_ℕ 0) c.max_score ≡ true
      → le c.min_score rep.score ≡ true
      → lt N rep.score (of_ℕ 0) ≡ true
      → (le rep.score (decay_reputation N rep now c).score ≡ true)
        × (le (decay_reputation N rep now c).score (of_ℕ 0) ≡ true)
  unfolding decay_reputation
  decay_rises rep now rate high low sign =
      let d = decayed_magnitude N rep.score (now - rep.last_updated_at) c in
      let below : le rep.score (of_ℕ 0) ≡ true =
        ground (arith, sign, laws.le_total (of_ℕ 0) rep.score) in
      let to_max = laws.le_trans rep.score (of_ℕ 0) c.max_score below high in
      let to_min = laws.le_trans c.min_score rep.score (of_ℕ 0) low below in
      ground (
        arith,
        sign,
        below,
        magnitude_bounds rep.score (now - rep.last_updated_at) rate,
        laws.zero-le-neg rep.score below,
        laws.neg-le-zero d,
        laws.neg-le-neg d (neg rep.score),
        laws.le_trans rep.score (neg (neg rep.score)) (neg d) (laws.le-neg-neg rep.score).1,
        clamp-between (neg d) rep.score (of_ℕ 0) to_min to_max,
        clamp-between (of_ℕ 0) rep.score (of_ℕ 0) to_min to_max,
        le_refl_num (of_ℕ 0),
        le_refl_num rep.score,
      )

  -- Whether the peer was, or after this delta would be, held by a quarantine that is still running.
  abbrev pub Held : PeerReputation N → Num → ℕ → Type 0
  Held rep score now =
      (is_quarantined N rep now ≡ true)
      ⊎ ((rep.quarantine_until ≡ none) × (le score c.quarantine_threshold ≡ true))

  -- After a delta the peer is quarantined exactly when its new score is below the recovery threshold
  -- and it was in a running quarantine, or in none at all with the new score at the threshold.
  quarantined_iff :
      (rep : PeerReputation N) (delta : Num) (now : ℕ) (reason : DeltaReason)
      → 0 < c.max_quarantine_ms
      → (is_quarantined N (apply_reputation_delta N rep delta now reason c) now ≡ true) ↔ (
          (le c.recovery_threshold (apply_reputation_delta N rep delta now reason c).score ≡ false)
          × Held rep (apply_reputation_delta N rep delta now reason c).score now)
  unfolding apply_reputation_delta is_quarantined decay_reputation
  quarantined_iff rep delta now reason some_time = ground arith

  -- No quarantine ends later than `maxQuarantineMs` after the delta, if that held of the earlier one.
  quarantine_bounded :
      (rep : PeerReputation N) (delta : Num) (now until : ℕ) (reason : DeltaReason)
      → ((old : ℕ) → rep.quarantine_until ≡ some old → old ≤ now + c.max_quarantine_ms)
      → (apply_reputation_delta N rep delta now reason c).quarantine_until ≡ some until
      → (now < until) × (until ≤ now + c.max_quarantine_ms)
  unfolding apply_reputation_delta decay_reputation
  quarantine_bounded rep delta now until reason earlier h = ground (arith, earlier until)
