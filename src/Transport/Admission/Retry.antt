-- ===== src/Transport/Admission/Retry.antt =====
-- A second delivery of an envelope that the pipeline of admission.ts has seen.
use local_first_p2p_app.Common.{ℕ, ◌+◌, ◌<◌, ◌≡◌, ◌≢◌, some, [], arith}
use local_first_p2p_app.Common.Numbers.{Numbers}
use local_first_p2p_app.Transport.RateLimit.{RateLimitConfig}
use local_first_p2p_app.Transport.ReplayCache.{first_seen, duplicate, record_seen}
use local_first_p2p_app.Transport.ReplayCache.Invariant.{IsValid}
use local_first_p2p_app.Transport.ReplayCache.Detection.{replay-detected, record_all-none}
use local_first_p2p_app.Transport.Admission.{
  drop_duplicate, AdmissionInputs, replay_config_of, run_admission_checks_inner,
}
use local_first_p2p_app.Transport.Admission.Pipeline.{seen_outcome, check_content-replay_cache}
use local_first_p2p_app.Transport.Admission.Verdicts.{Unchanged, duplicate-dropped}

module _ (N : Numbers) (inputs : AdmissionInputs N) (effective : RateLimitConfig N) where
  seen-or-dropped :
      (size : ℕ)
      → inputs.envelope.byte_size ≡ some size
      → (run_admission_checks_inner N inputs effective).decision.action ≢ drop_duplicate
      → (seen_outcome N inputs effective ≡ first_seen)
        × ((run_admission_checks_inner N inputs effective).replay_cache
            ≡ (record_seen inputs.replay_cache inputs.envelope.idempotency_key inputs.now
                (replay_config_of N inputs.config)).cache)
  unfolding run_admission_checks_inner
  seen-or-dropped size sized kept = ground (
    arith,
    sized,
    kept,
    check_content-replay_cache N inputs effective size
        (record_seen inputs.replay_cache inputs.envelope.idempotency_key inputs.now
          (replay_config_of N inputs.config)).cache,
  )

  -- An envelope of proper size that was not dropped as a duplicate, whether it was admitted, rejected or
  -- rate-limited, is dropped as one when its key is delivered again before the key's lifetime ends,
  -- with the replay cache that the first run left and the same replay configuration; the second run
  -- changes no state. So a peer that obeys `rate-limit` and sends the envelope again loses it.
  pub redelivery-dropped :
      (again : AdmissionInputs N) (later : RateLimitConfig N) (size size' : ℕ)
      → IsValid inputs.replay_cache
      → inputs.envelope.byte_size ≡ some size
      → again.envelope.byte_size ≡ some size'
      → (run_admission_checks_inner N inputs effective).decision.action ≢ drop_duplicate
      → again.replay_cache ≡ (run_admission_checks_inner N inputs effective).replay_cache
      → again.envelope.idempotency_key ≡ inputs.envelope.idempotency_key
      → replay_config_of N again.config ≡ replay_config_of N inputs.config
      → 0 < (replay_config_of N inputs.config).max_entries
      → again.now < inputs.now + (replay_config_of N inputs.config).ttl_ms
      → ((run_admission_checks_inner N again later).decision.action ≡ drop_duplicate)
        × Unchanged N again later (run_admission_checks_inner N again later)
  redelivery-dropped again later size size' valid sized sized' kept cache key config room early =
      duplicate-dropped N again later size' sized' repeated
    where
      first :
          (seen_outcome N inputs effective ≡ first_seen)
          × ((run_admission_checks_inner N inputs effective).replay_cache
              ≡ (record_seen inputs.replay_cache inputs.envelope.idempotency_key inputs.now
                  (replay_config_of N inputs.config)).cache)
      first = seen-or-dropped size sized kept

      repeated : seen_outcome N again later ≡ duplicate
      repeated =
          let found =
            replay-detected (replay_config_of N inputs.config) inputs.replay_cache
              inputs.envelope.idempotency_key inputs.now again.now [] valid first.0 tt room early in
          cc (
            found,
            record_all-none (replay_config_of N inputs.config)
                (record_seen inputs.replay_cache inputs.envelope.idempotency_key inputs.now
                  (replay_config_of N inputs.config)).cache,
            cache,
            key,
            config,
            first.1,
          )
