-- ===== src/BlockStore/Fetch/Sound.antt =====
-- The attempts at one fetcher in block-store.ts: what they hand over has been verified, they throw
-- only for a reason, and they are bounded.
use local_first_p2p_app.Common.{
  ℕ, suc, zero, ◌+◌, ◌≡◌, refl, inl, inr, String, Bool, true, false, Option, none, some, List, [],
  ◌∷◌, ◌++◌, arith, length, ◌==◌, Bool-cases, if-intro,
}
use local_first_p2p_app.Common.Numbers.{Numbers}
use local_first_p2p_app.Common.Result.{Result, err, ok}
use local_first_p2p_app.Content.Digest.{CaErrorCode, DigestRef, Platform, verify_digest}
use local_first_p2p_app.BlockStore.Errors.{BsErrorCode, bs_aborted, ThrownCode, bs_error, ca_error}
use local_first_p2p_app.BlockStore.Backoff.{compute_backoff_delay_ms}
use local_first_p2p_app.BlockStore.Health.{BreakerConfig, Tracker, can_attempt}
use local_first_p2p_app.BlockStore.Fetch.Attempt.{
  RetryConfig, World, BlockFetchResult, fetched, not_found_result, transient_result, threw,
  malformed, FetchAttemptOutcome, Progress, Verdict, delivered, next_fetcher, thrown, Step, settled,
  again, next_round, await, penalize, reward, wait_result, check_digest, after_transient,
  verify_bytes, handle_result, attempt_once, attempt_loop, try_fetcher, transient_error, not_found,
  length_mismatch, digest_mismatch, verified,
}
use local_first_p2p_app.BlockStore.Fetch.Runs.{
  Runs, Runs-trans, can_attempt-Keeps, record_failure-Keeps, record_success-Keeps, interleave-Keeps,
  length-note,
}

module _ (N : Numbers) (platform : Platform) (world : World N) (retry : RetryConfig)
    (breaker : BreakerConfig) (byte_length : ℕ) (digest : DigestRef) where
  -- Bytes of the length and the digest that the reference gives.
  abbrev pub Genuine : List ℕ → Type 0
  Genuine bytes = (length bytes ≡ byte_length) × (verify_digest platform bytes digest ≡ ok true)

  -- An abort, a random number out of range, or a platform that cannot verify.
  pub data Fault : ThrownCode → Type 0 where
    was_aborted : (k : ℕ) → world.aborted k ≡ true → Fault (bs_error bs_aborted)
    bad_random :
        (attempt k : ℕ) (code : BsErrorCode)
        → compute_backoff_delay_ms N attempt retry.backoff (world.random k) ≡ err code
        → Fault (bs_error code)
    bad_digest :
        (bytes : List ℕ) (code : CaErrorCode)
        → verify_digest platform bytes digest ≡ err code
        → Fault (ca_error code)

  abbrev pub Sound : Verdict → Type 0
  Sound (delivered bytes) = Genuine bytes
  Sound next_fetcher = Unit
  Sound (thrown code) = Fault code

  abbrev pub SoundStep : Step → Type 0
  SoundStep (settled verdict) = Sound verdict
  SoundStep again = Unit

  -- A step about `id` from `p` is sound and records at most `n` attempts.
  abbrev Leads : ℕ → String → Progress → Step × Progress → Type 0
  Leads n id p (step, q) = SoundStep step × Runs N world n id p q

  abbrev pub Ends : ℕ → String → Progress → Verdict × Progress → Type 0
  Ends n id p (verdict, q) = Sound verdict × Runs N world n id p q

  Leads-trans :
      (m n : ℕ) (id : String) (p q : Progress) (r : Step × Progress)
      → Runs N world m id p q
      → Leads n id q r
      → Leads (m + n) id p r
  Leads-trans m n id p q (step, r) first (sound, rest) =
      (sound, Runs-trans N world m n id p q r first rest)

  await-Runs : (id : String) (p : Progress) → Runs N world 0 id p (await N platform world p)
  await-Runs id p = (omega arith, interleave-Keeps N world p.health id p.readings)

  penalize-Runs :
      (id : String) (outcome : FetchAttemptOutcome) (p : Progress)
      → Runs N world 1 id p (penalize N platform world retry breaker id outcome p)
  penalize-Runs id outcome p = (
    omega (arith, length-note N world id outcome p),
    record_failure-Keeps N world breaker p.health id (world.clock p.readings),
  )

  reward-Runs :
      (id : String) (outcome : FetchAttemptOutcome) (p : Progress)
      → Runs N world 1 id p (reward N platform world retry breaker id outcome p)
  reward-Runs id outcome p =
      (omega (arith, length-note N world id outcome p), record_success-Keeps N world p.health id)

  stays : (n : ℕ) (id : String) (p : Progress) → Runs N world n id p p
  stays n id p = (omega arith, λ j calm other shut. shut)

  after_transient-Leads :
      (is_last : Bool) (attempt : ℕ) (id : String) (p : Progress)
      → Leads 0 id p (after_transient N platform world retry breaker is_last attempt id p)
  unfolding after_transient
  after_transient-Leads is_last attempt id p =
      if-intro (Leads 0 id p) is_last _ _ (tt, stays 0 id p)
        (if-intro (Leads 0 id p) granted.0 _ _
          (waits (compute_backoff_delay_ms N attempt retry.backoff (world.random p.readings)) refl)
          (tt, asked))
    where
      granted : Bool × Tracker
      granted = can_attempt p.health id (world.clock p.readings)

      next : Progress
      next = record p { health = granted.1; readings = suc p.readings }

      asked : Runs N world 0 id p next
      asked = (omega arith, can_attempt-Keeps N world p.health id (world.clock p.readings))

      waits :
          (r : Result BsErrorCode ℕ)
          → compute_backoff_delay_ms N attempt retry.backoff (world.random p.readings) ≡ r
          → Leads 0 id p (wait_result N platform world retry breaker r next)
      waits (err code) e = (bad_random attempt p.readings code e, asked)
      waits (ok delay) e =
          let waiting : Progress = record next { delays = next.delays ++ delay ∷ [] } in
          (
            tt,
            Runs-trans N world 0 0 id p next (await N platform world waiting) asked
                (await-Runs id waiting),
          )

  check_digest-Leads :
      (id : String) (bytes : List ℕ) (p : Progress) (r : Result CaErrorCode Bool)
      → length bytes ≡ byte_length
      → verify_digest platform bytes digest ≡ r
      → Leads 1 id p (check_digest N platform world retry breaker id bytes r p)
  check_digest-Leads id bytes p (err code) right e = (bad_digest bytes code e, stays 1 id p)
  check_digest-Leads id bytes p (ok false) right e = (tt, penalize-Runs id digest_mismatch p)
  check_digest-Leads id bytes p (ok true) right e = ((right, e), reward-Runs id verified p)

  verify_bytes-Leads :
      (id : String) (bytes : Option (List ℕ)) (p : Progress)
      → Leads 1 id p (verify_bytes N platform world retry breaker byte_length digest id bytes p)
  unfolding verify_bytes
  verify_bytes-Leads id none p = (tt, penalize-Runs id length_mismatch p)
  verify_bytes-Leads id (some bytes) p = elim (Bool-cases (length bytes == byte_length)) [
    | inl e ↦
        let p' = await N platform world p in
        let checked =
          check_digest-Leads id bytes p' (verify_digest platform bytes digest) (ground arith)
            refl in
        rw e (
          Leads-trans 0 1 id p p'
            (check_digest N platform world retry breaker id bytes
              (verify_digest platform bytes digest) p')
            (await-Runs id p) checked)
    | inr e ↦ rw e (tt, penalize-Runs id length_mismatch p)
  ]

  penalized :
      (is_last : Bool) (attempt : ℕ) (id : String) (p : Progress)
      → Leads 1 id p (
          after_transient N platform world retry breaker is_last attempt id
            (penalize N platform world retry breaker id transient_error p))
  penalized is_last attempt id p =
      let p' = penalize N platform world retry breaker id transient_error p in
      Leads-trans 1 0 id p p' (after_transient N platform world retry breaker is_last attempt id p')
        (penalize-Runs id transient_error p) (after_transient-Leads is_last attempt id p')

  handle_result-Leads :
      (is_last : Bool) (attempt : ℕ) (id : String) (reply : BlockFetchResult) (p : Progress)
      → Leads 1 id p (
          handle_result N platform world retry breaker byte_length digest is_last attempt id reply
            p)
  unfolding handle_result
  handle_result-Leads is_last attempt id (fetched bytes) p = verify_bytes-Leads id bytes p
  handle_result-Leads is_last attempt id not_found_result p = (tt, reward-Runs id not_found p)
  handle_result-Leads is_last attempt id transient_result p = penalized is_last attempt id p
  handle_result-Leads is_last attempt id threw p = penalized is_last attempt id p
  handle_result-Leads is_last attempt id malformed p = penalized is_last attempt id p

  attempt_once-Leads :
      (is_last : Bool) (attempt : ℕ) (id : String) (p : Progress)
      → Leads 1 id p
          (attempt_once N platform world retry breaker byte_length digest is_last attempt id p)
  unfolding attempt_once
  attempt_once-Leads is_last attempt id p = elim (Bool-cases (world.aborted p.readings)) [
    | inl e ↦ rw e (was_aborted p.readings e, stays 1 id p)
    | inr e ↦ elim (Bool-cases (world.aborted (suc p.readings))) [
      | inl e' ↦ rw (e, e') (was_aborted (suc p.readings) e', (omega arith, (await-Runs id p).1))
      | inr e' ↦
          rw (e, e')
            (Leads-trans 0 1 id p (await N platform world p)
              (handle_result N platform world retry breaker byte_length digest is_last attempt id
                (world.reply id p.readings) (await N platform world p))
              (await-Runs id p)
              (handle_result-Leads is_last attempt id (world.reply id p.readings)
                (await N platform world p)))
    ]
  ]

  next_round-Ends :
      (n : ℕ) (id : String) (p : Progress) (r : Step × Progress)
      (more : Progress → Verdict × Progress)
      → Leads 1 id p r
      → ((q : Progress) → Ends n id q (more q))
      → Ends (suc n) id p (next_round r more)
  next_round-Ends n id p (settled verdict, q) more (sound, (short, keep)) rest =
      (sound, (omega (arith, short), keep))
  next_round-Ends n id p (again, q) more (sound, first) rest =
      let (sound', later) = rest q in
      let (short, keep) = Runs-trans N world 1 n id p q (more q).1 first later in
      (sound', (omega (arith, short), keep))

  attempt_loop-Ends :
      (left attempt : ℕ) (id : String) (p : Progress)
      → Ends left id p
          (attempt_loop N platform world retry breaker byte_length digest left attempt id p)
  unfolding attempt_loop
  attempt_loop-Ends zero attempt id p = (tt, stays 0 id p)
  attempt_loop-Ends (suc left) attempt id p =
      next_round-Ends left id p _ _ (attempt_once-Leads (left == 0) attempt id p)
        (attempt_loop-Ends left (attempt + 1) id)

  pub try_fetcher-Ends :
      (id : String) (p : Progress)
      → Ends retry.max_attempts_per_fetcher id p
          (try_fetcher N platform world retry breaker byte_length digest id p)
  unfolding try_fetcher
  try_fetcher-Ends id p = attempt_loop-Ends retry.max_attempts_per_fetcher 0 id p
