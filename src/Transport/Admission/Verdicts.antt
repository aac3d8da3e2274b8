-- ===== src/Transport/Admission/Verdicts.antt =====
-- What each verdict of admission.ts says of the state before and after it.
use local_first_p2p_app.Common.{ℕ, ◌≤◌, ◌≡◌, ◌≢◌, true, false, some, arith, Option-cases, inl, inr}
use local_first_p2p_app.Common.Numbers.{Numbers}
use local_first_p2p_app.Transport.RateLimit.{RateLimitConfig, try_consume}
use local_first_p2p_app.Transport.ReplayCache.{ReplayCache, first_seen, duplicate, record_seen}
use local_first_p2p_app.Transport.Reputation.{decay_reputation, is_quarantined}
use local_first_p2p_app.Transport.Admission.{
  drop_duplicate, AdmissionInputs, AdmissionOutputs, is_safe_scope, is_allowed_kind,
  replay_config_of, reputation_config_of, max_bytes_of, check_recipient, check_peer, check_content,
  run_admission_checks_inner,
}
use local_first_p2p_app.Transport.Admission.Pipeline.{seen_outcome}

module _ (N : Numbers) (inputs : AdmissionInputs N) (effective : RateLimitConfig N) where
  check_content-ne-duplicate :
      (size : ℕ) (cache : ReplayCache)
      → (check_content N inputs effective size cache).decision.action ≢ drop_duplicate
  unfolding check_content check_peer check_recipient
  check_content-ne-duplicate size cache = ground arith

  -- The outputs of a run that changes neither the bucket, nor the reputation, nor the replay cache.
  pub record Unchanged (out : AdmissionOutputs N) : Type 0 where
    pub same_bucket : out.rate_limit_bucket ≡ inputs.rate_limit_bucket
    pub same_reputation : out.reputation ≡ inputs.reputation
    pub same_cache : out.replay_cache ≡ inputs.replay_cache

  record_seen-unchanged :
      seen_outcome N inputs effective ≡ duplicate
      → (record_seen inputs.replay_cache inputs.envelope.idempotency_key inputs.now
          (replay_config_of N inputs.config)).cache
        ≡ inputs.replay_cache
  unfolding record_seen
  record_seen-unchanged h = ground (arith, h)

  -- An envelope of proper size whose key is a duplicate is dropped, and this leaves the peer's bucket,
  -- its reputation and the replay cache as they were.
  pub duplicate-dropped :
      (size : ℕ)
      → inputs.envelope.byte_size ≡ some size
      → seen_outcome N inputs effective ≡ duplicate
      → ((run_admission_checks_inner N inputs effective).decision.action ≡ drop_duplicate)
        × Unchanged (run_admission_checks_inner N inputs effective)
  unfolding run_admission_checks_inner
  duplicate-dropped size sized seen = ground (arith, sized, seen, record_seen-unchanged seen)

  -- Only a duplicate is dropped as one.
  pub dropped-duplicate :
      (run_admission_checks_inner N inputs effective).decision.action ≡ drop_duplicate
      → seen_outcome N inputs effective ≡ duplicate
  unfolding run_admission_checks_inner
  dropped-duplicate h = elim (Option-cases inputs.envelope.byte_size) [
    | inl missing ↦ absurd (ground (arith, missing, h))
    | inr (size, sized) ↦ ground (
      arith,
      sized,
      h,
      check_content-ne-duplicate size
          (record_seen inputs.replay_cache inputs.envelope.idempotency_key inputs.now
            (replay_config_of N inputs.config)).cache,
    )
  ]

  check_content-spends :
      (size : ℕ) (cache : ReplayCache)
      → (check_content N inputs effective size cache).rate_limit_bucket ≢ inputs.rate_limit_bucket
      → (is_safe_scope inputs.config.surface inputs.envelope.privacy ≡ true)
        × (is_allowed_kind inputs.config.allowed_kinds inputs.envelope.kind ≡ true)
        × (size ≤ max_bytes_of N inputs.config)
        × (is_quarantined N
              (decay_reputation N inputs.reputation inputs.now
                (reputation_config_of N inputs.config))
              inputs.now
            ≡ false)
        × ((check_content N inputs effective size cache).rate_limit_bucket
            ≡ (try_consume N inputs.rate_limit_bucket inputs.now effective).bucket)
  unfolding check_content check_peer check_recipient
  check_content-spends size cache = ground arith

  -- The rate limit is charged only for a first-seen envelope of a safe scope, an allowed kind and an
  -- admissible size from a peer that is not quarantined; then the bucket is that of one attempt.
  bucket_charged :
      (size : ℕ)
      → inputs.envelope.byte_size ≡ some size
      → (run_admission_checks_inner N inputs effective).rate_limit_bucket ≢ inputs.rate_limit_bucket
      → (seen_outcome N inputs effective ≡ first_seen)
        × (is_safe_scope inputs.config.surface inputs.envelope.privacy ≡ true)
        × (is_allowed_kind inputs.config.allowed_kinds inputs.envelope.kind ≡ true)
        × (size ≤ max_bytes_of N inputs.config)
        × (is_quarantined N
              (decay_reputation N inputs.reputation inputs.now
                (reputation_config_of N inputs.config))
              inputs.now
            ≡ false)
        × ((run_admission_checks_inner N inputs effective).rate_limit_bucket
            ≡ (try_consume N inputs.rate_limit_bucket inputs.now effective).bucket)
  unfolding run_admission_checks_inner
  bucket_charged size sized charged = ground (
    arith,
    sized,
    charged,
    check_content-spends size
        (record_seen inputs.replay_cache inputs.envelope.idempotency_key inputs.now
          (replay_config_of N inputs.config)).cache,
  )
