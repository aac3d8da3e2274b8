-- ===== src/Transport/Admission/Invariant.antt =====
-- The invariant of the state that admission.ts carries from envelope to envelope.
use local_first_p2p_app.Common.{ℕ, ◌≤◌, ◌≡◌, sym, subst, true, arith, Option-cases, inl, inr}
use local_first_p2p_app.Common.Numbers.{Numbers, NumberLaws}
use local_first_p2p_app.Transport.RateLimit.{RateLimitBucket, RateLimitConfig, try_consume}
use local_first_p2p_app.Transport.ReplayCache.{ReplayCache, record_seen}
use local_first_p2p_app.Transport.ReplayCache.Invariant.{IsValid, record_seen-IsValid}
use local_first_p2p_app.Transport.Reputation.{
  PeerReputation, decay_reputation, apply_reputation_delta, DeltaReason, disallowed_kind, oversized,
  compression_bomb, admitted,
}
use local_first_p2p_app.Transport.Reputation.Laws.{InBounds, score_bounded}
use local_first_p2p_app.Transport.Admission.{
  AdmissionInputs, reputation_config_of, replay_config_of, check_recipient, check_peer,
  check_content, run_admission_checks_inner,
}
use local_first_p2p_app.Transport.Admission.Pipeline.{
  check_content-replay_cache, check_content-tokens,
}

module _ (N : Numbers) (laws : NumberLaws N) (inputs : AdmissionInputs N)
    (effective : RateLimitConfig N) where
  open N use {Num, of_ℕ, neg, le}

  -- The replay cache is well formed, the bucket within the capacity, the score within its bounds.
  pub record HasInvariant (bucket : RateLimitBucket) (rep : PeerReputation N) (cache : ReplayCache)
      : Type 0 where
    pub cache_valid : IsValid cache
    pub bucket_bounded : bucket.tokens ≤ effective.capacity
    pub score_in_bounds : InBounds N laws (reputation_config_of N inputs.config) rep

  module _
      (ordered : le
          (reputation_config_of N inputs.config).min_score
          (reputation_config_of N inputs.config).max_score
        ≡ true) where
    abbrev Fits : PeerReputation N → Type 0
    Fits = InBounds N laws (reputation_config_of N inputs.config)

    delta-Fits :
        (rep : PeerReputation N) (delta : Num) (why : DeltaReason)
        → Fits rep
        → Fits (
            apply_reputation_delta N rep delta inputs.now why
              (reputation_config_of N inputs.config))
    delta-Fits rep delta why fits =
        (score_bounded N laws (reputation_config_of N inputs.config) rep delta inputs.now why
          ordered fits).0

    decay-Fits :
        (rep : PeerReputation N)
        → Fits rep
        → Fits (decay_reputation N rep inputs.now (reputation_config_of N inputs.config))
    decay-Fits rep fits =
        (score_bounded N laws (reputation_config_of N inputs.config) rep (of_ℕ 0) inputs.now
          admitted ordered fits).1

    check_recipient-Fits :
        (bucket : RateLimitBucket) (rep : PeerReputation N) (cache : ReplayCache)
        → Fits rep
        → Fits (check_recipient N inputs bucket rep cache).reputation
    unfolding check_recipient
    check_recipient-Fits bucket rep cache fits =
        ground (arith, fits, delta-Fits rep (of_ℕ 1) admitted fits)

    check_peer-Fits :
        (cache : ReplayCache)
        → Fits inputs.reputation
        → Fits (check_peer N inputs effective cache).reputation
    unfolding check_peer
    check_peer-Fits cache fits =
        let d =
          decay_reputation N inputs.reputation inputs.now (reputation_config_of N inputs.config) in
        let kept = decay-Fits inputs.reputation fits in
        ground (
          arith,
          kept,
          delta-Fits d (neg (of_ℕ 10)) DeltaReason.rate_limit kept,
          check_recipient-Fits (try_consume N inputs.rate_limit_bucket inputs.now effective).bucket
              d cache kept,
        )

    check_content-Fits :
        (size : ℕ) (cache : ReplayCache)
        → Fits inputs.reputation
        → Fits (check_content N inputs effective size cache).reputation
    unfolding check_content
    check_content-Fits size cache fits = ground (
      arith,
      delta-Fits inputs.reputation (neg (of_ℕ 10)) DeltaReason.disallowed_scope fits,
      delta-Fits inputs.reputation (neg (of_ℕ 5)) disallowed_kind fits,
      delta-Fits inputs.reputation (neg (of_ℕ 25)) oversized fits,
      delta-Fits inputs.reputation (neg (of_ℕ 100)) compression_bomb fits,
      check_peer-Fits cache fits,
    )

    -- Whatever the verdict, a run keeps the invariant: the replay cache stays well formed, the bucket
    -- within the effective capacity, and the score within the configured bounds.
    pub run-HasInvariant :
        HasInvariant inputs.rate_limit_bucket inputs.reputation inputs.replay_cache
        → HasInvariant
            (run_admission_checks_inner N inputs effective).rate_limit_bucket
            (run_admission_checks_inner N inputs effective).reputation
            (run_admission_checks_inner N inputs effective).replay_cache
    unfolding run_admission_checks_inner
    run-HasInvariant h = elim (Option-cases inputs.envelope.byte_size) [
      | inl missing ↦ record {
        cache_valid =
            let same : (run_admission_checks_inner N inputs effective).replay_cache
                ≡ inputs.replay_cache =
              ground (arith, missing) in
            subst IsValid (sym same) h.cache_valid;
        bucket_bounded = ground (arith, missing, h.bucket_bounded);
        score_in_bounds = ground (arith, missing, h.score_in_bounds);
      }
      | inr (size, sized) ↦ record {
        cache_valid =
            let same : (run_admission_checks_inner N inputs effective).replay_cache ≡ seen =
              ground (arith, sized, check_content-replay_cache N inputs effective size seen) in
            subst IsValid (sym same) valid;
        bucket_bounded = ground (
          arith,
          sized,
          h.bucket_bounded,
          check_content-tokens N inputs effective size seen h.bucket_bounded,
        );
        score_in_bounds =
            ground
              (arith, sized, h.score_in_bounds, check_content-Fits size seen h.score_in_bounds);
      }
    ]
      where
        seen : ReplayCache
        seen =
            (record_seen inputs.replay_cache inputs.envelope.idempotency_key inputs.now
              (replay_config_of N inputs.config)).cache

        valid : IsValid seen
        valid =
            record_seen-IsValid inputs.replay_cache inputs.envelope.idempotency_key inputs.now
              (replay_config_of N inputs.config) h.cache_valid
