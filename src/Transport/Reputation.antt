-- ===== src/Transport/Reputation.antt =====
-- packages/trust-safety/src/transport-admission/peer-reputation.ts
-- Scores are numbers of the parameter `N`, instants and durations whole milliseconds. The recorded
-- reason is data in place of the text that admission.ts builds from it.
pub mod Laws
mod Tests
use local_first_p2p_app.Common.{
  ℕ, ◌+◌, ◌-◌, String, Bool, false, ◌&&◌, Option, none, some, ltb, leb, if◌then◌else◌,
}
use local_first_p2p_app.Common.Numbers.{Numbers, lt, is_zero, max_num, min_num, abs}

-- The reasons that admission.ts passes on.
pub data DeltaReason : Type 0 where
  disallowed_scope disallowed_kind oversized compression_bomb rate_limit admitted : DeltaReason

module _ (N : Numbers) where
  open N use {Num, of_ℕ, neg, add, sub, mul, div, le}

  pub record ReputationConfig : Type 0 where
    pub min_score : Num
    pub max_score : Num
    pub decay_per_second : Num
    pub quarantine_threshold : Num
    pub recovery_threshold : Num
    pub max_quarantine_ms : ℕ

  abbrev pub default_reputation : ReputationConfig
  default_reputation = record {
    min_score = neg (of_ℕ 1_000);
    max_score = of_ℕ 1_000;
    decay_per_second = div (of_ℕ 1) (of_ℕ 60);
    quarantine_threshold = neg (of_ℕ 500);
    recovery_threshold = neg (of_ℕ 100);
    max_quarantine_ms = 604_800_000;
  }

  -- `validateReputationConfig` throws where this is false.
  unfoldable pub is_valid_reputation_config : ReputationConfig → Bool
  is_valid_reputation_config c =
      le (neg (of_ℕ 1_000_000)) c.min_score
      && le c.min_score (of_ℕ 0)
      && le (of_ℕ 0) c.max_score
      && le c.max_score (of_ℕ 1_000_000)
      && lt N c.min_score c.max_score
      && le (of_ℕ 0) c.decay_per_second
      && le c.decay_per_second (of_ℕ 1_000)
      && le c.min_score c.quarantine_threshold
      && le c.quarantine_threshold c.max_score
      && le c.quarantine_threshold c.recovery_threshold
      && le c.recovery_threshold c.max_score
      && lt N c.quarantine_threshold c.recovery_threshold
      && leb 1_000 c.max_quarantine_ms
      && leb c.max_quarantine_ms 31_536_000_000

  pub record PeerReputation : Type 0 where
    pub score : Num
    pub last_updated_at : ℕ
    pub quarantine_until : Option ℕ
    pub last_reason : Option DeltaReason

  abbrev pub create_reputation : ℕ → PeerReputation
  create_reputation now = record {
    score = of_ℕ 0;
    last_updated_at = now;
    quarantine_until = none;
    last_reason = none;
  }

  unfoldable pub clamp : Num → Num → Num → Num
  clamp value lo hi = min_num N hi (max_num N lo value)

  -- The score's distance from 0 after the decay.
  unfoldable pub decayed_magnitude : Num → ℕ → ReputationConfig → Num
  decayed_magnitude score elapsed_ms c =
      max_num N (of_ℕ 0)
        (sub (abs N score) (mul (div (of_ℕ elapsed_ms) (of_ℕ 1_000)) c.decay_per_second))

  unfoldable pub decay_reputation : PeerReputation → ℕ → ReputationConfig → PeerReputation
  decay_reputation rep now c =
      let decayed = decayed_magnitude rep.score (now - rep.last_updated_at) c in
      let signed =
        if is_zero N decayed
        then of_ℕ 0
        else if lt N rep.score (of_ℕ 0)
        then neg decayed
        else decayed in
      if leb now rep.last_updated_at
      then rep
      else if is_zero N rep.score
      then record rep { last_updated_at = now }
      else record rep { score = clamp signed c.min_score c.max_score; last_updated_at = now }

  -- Below the threshold a quarantine begins, unless one is active.
  abbrev pub enter_quarantine : Option ℕ → Num → ℕ → ReputationConfig → Option ℕ
  enter_quarantine none score now c =
      if le score c.quarantine_threshold then some (now + c.max_quarantine_ms) else none
  enter_quarantine (some until) score now c = some until

  -- It ends where the score has recovered, and at its instant in any case.
  abbrev pub lift_recovered : Option ℕ → Num → ReputationConfig → Option ℕ
  lift_recovered none score c = none
  lift_recovered (some until) score c = if le c.recovery_threshold score then none else some until

  abbrev pub lift_elapsed : Option ℕ → ℕ → Option ℕ
  lift_elapsed none now = none
  lift_elapsed (some until) now = if leb until now then none else some until

  unfoldable pub apply_reputation_delta :
      PeerReputation → Num → ℕ → DeltaReason → ReputationConfig → PeerReputation
  apply_reputation_delta rep delta now reason c =
      let decayed = decay_reputation rep now c in
      let score = clamp (add decayed.score delta) c.min_score c.max_score in
      let entered = enter_quarantine decayed.quarantine_until score now c in
      record {
        score = score;
        last_updated_at = now;
        quarantine_until = lift_elapsed (lift_recovered entered score c) now;
        last_reason = some reason;
      }

  unfoldable pub is_quarantined : PeerReputation → ℕ → Bool
  is_quarantined rep now = elim rep.quarantine_until [ none ↦ false | some until ↦ ltb now until ]
