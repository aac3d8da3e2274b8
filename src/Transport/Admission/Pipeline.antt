-- ===== src/Transport/Admission/Pipeline.antt =====
-- When the pipeline of admission.ts admits, and what it charges.
use local_first_p2p_app.Common.{
  ℕ, ◌*◌, ◌≤◌, ◌≡◌, ◌↔◌, true, false, some, arith, Option-cases, inl, inr,
}
use local_first_p2p_app.Common.Numbers.{Numbers}
use local_first_p2p_app.Transport.RateLimit.{RateLimitBucket, RateLimitConfig, try_consume}
use local_first_p2p_app.Transport.RateLimit.Bounds.{try_consume-bounded}
use local_first_p2p_app.Transport.ReplayCache.{ReplayCache, ReplayOutcome, first_seen, record_seen}
use local_first_p2p_app.Transport.Reputation.{PeerReputation, decay_reputation, is_quarantined}
use local_first_p2p_app.Transport.Admission.{
  AdmissionInputs, is_safe_scope, is_allowed_kind, exceeds, is_forwardable, replay_config_of,
  reputation_config_of, max_bytes_of, is_user_blocked, check_recipient, check_peer, check_content,
  run_admission_checks_inner,
}

module _ (N : Numbers) where
  -- What checks 3 to 10 ask of an envelope of `size` bytes.
  pub record Passes (inputs : AdmissionInputs N) (effective : RateLimitConfig N) (size : ℕ)
      : Type 0 where
    pub safe_scope : is_safe_scope inputs.config.surface inputs.envelope.privacy ≡ true
    pub allowed_kind : is_allowed_kind inputs.config.allowed_kinds inputs.envelope.kind ≡ true
    pub small : size ≤ max_bytes_of N inputs.config
    pub no_bomb :
        exceeds inputs.envelope.decoded_byte_size (max_bytes_of N inputs.config * 1_024) ≡ false
    pub not_quarantined :
        is_quarantined N
          (decay_reputation N inputs.reputation inputs.now (reputation_config_of N inputs.config))
          inputs.now
        ≡ false
    pub within_rate :
        (try_consume N inputs.rate_limit_bucket inputs.now effective).is_allowed ≡ true
    pub not_blocked :
        is_user_blocked N inputs.context inputs.envelope.producer_actor_id inputs.now ≡ false
    pub forwardable : is_forwardable inputs.envelope.embedded_report ≡ true

  module _ (inputs : AdmissionInputs N) (effective : RateLimitConfig N) where
    abbrev pub seen_outcome : ReplayOutcome
    seen_outcome =
        (record_seen inputs.replay_cache inputs.envelope.idempotency_key inputs.now
          (replay_config_of N inputs.config)).outcome

    decayed : PeerReputation N
    decayed = decay_reputation N inputs.reputation inputs.now (reputation_config_of N inputs.config)

    check_recipient-admits :
        (bucket : RateLimitBucket) (rep : PeerReputation N) (cache : ReplayCache)
        → ((check_recipient N inputs bucket rep cache).is_admitted ≡ true) ↔ (
            (is_user_blocked N inputs.context inputs.envelope.producer_actor_id inputs.now ≡ false)
            × (is_forwardable inputs.envelope.embedded_report ≡ true))
    unfolding check_recipient
    check_recipient-admits bucket rep cache = ground arith

    check_peer-admits :
        (cache : ReplayCache)
        → ((check_peer N inputs effective cache).is_admitted ≡ true) ↔ (
            (is_quarantined N decayed inputs.now ≡ false)
            × ((try_consume N inputs.rate_limit_bucket inputs.now effective).is_allowed ≡ true)
            × (is_user_blocked N inputs.context inputs.envelope.producer_actor_id inputs.now
                ≡ false)
            × (is_forwardable inputs.envelope.embedded_report ≡ true))
    unfolding check_peer decayed
    check_peer-admits cache =
        let rl = try_consume N inputs.rate_limit_bucket inputs.now effective in
        ground (arith, check_recipient-admits rl.bucket decayed cache)

    check_content-admits :
        (size : ℕ) (cache : ReplayCache)
        → ((check_content N inputs effective size cache).is_admitted ≡ true)
          ↔ Passes inputs effective size
    unfolding check_content decayed
    check_content-admits size cache = ground (arith, check_peer-admits cache)

    -- An envelope is admitted exactly when its size is a number, its key is first seen, and it passes
    -- every check of scope, kind, size, decoded size, quarantine, rate, recipient block and report.
    pub admitted_iff : ((run_admission_checks_inner N inputs effective).is_admitted ≡ true) ↔ (
        (size : ℕ) × (inputs.envelope.byte_size ≡ some size)
        × (seen_outcome ≡ first_seen)
        × Passes inputs effective size)
    unfolding run_admission_checks_inner
    admitted_iff = (there, back)
      where
        cache : ReplayCache
        cache =
            (record_seen inputs.replay_cache inputs.envelope.idempotency_key inputs.now
              (replay_config_of N inputs.config)).cache

        there :
            (run_admission_checks_inner N inputs effective).is_admitted ≡ true
            → (size : ℕ) × (inputs.envelope.byte_size ≡ some size)
              × (seen_outcome ≡ first_seen)
              × Passes inputs effective size
        there h = elim (Option-cases inputs.envelope.byte_size) [
          | inl missing ↦ absurd (ground (arith, missing, h))
          | inr (size, sized) ↦ (
            size,
            sized,
            ground (arith, h, sized),
            (check_content-admits size cache).0 (ground (arith, h, sized)),
          )
        ]

        back :
            (size : ℕ) × (inputs.envelope.byte_size ≡ some size)
              × (seen_outcome ≡ first_seen)
              × Passes inputs effective size
            → (run_admission_checks_inner N inputs effective).is_admitted ≡ true
        back (size, sized, fresh, passes) =
            ground (arith, sized, fresh, (check_content-admits size cache).1 passes)

    -- Checks 3 to 10 leave the replay cache as check 2 made it.
    pub check_content-replay_cache :
        (size : ℕ) (cache : ReplayCache)
        → (check_content N inputs effective size cache).replay_cache ≡ cache
    unfolding check_content check_peer check_recipient
    check_content-replay_cache size cache = ground arith

    pub check_content-tokens :
        (size : ℕ) (cache : ReplayCache)
        → inputs.rate_limit_bucket.tokens ≤ effective.capacity
        → (check_content N inputs effective size cache).rate_limit_bucket.tokens
          ≤ effective.capacity
    unfolding check_content check_peer check_recipient
    check_content-tokens size cache h =
        ground (arith, try_consume-bounded N effective inputs.rate_limit_bucket inputs.now h)
