-- ===== src/BlockStore/Fetch/Attempt.antt =====
-- packages/block-store/src/block-store.ts: the attempts at one fetcher.
use local_first_p2p_app.Common.{
  ℕ, suc, zero, ◌+◌, String, Bool, true, false, Option, none, some, List, [], ◌∷◌, ◌++◌, length,
  ◌==◌, if◌then◌else◌,
}
use local_first_p2p_app.Common.Numbers.{Numbers}
use local_first_p2p_app.Common.Result.{Result, err, ok}
use local_first_p2p_app.Content.Digest.{DigestRef, Platform, CaErrorCode, verify_digest}
use local_first_p2p_app.BlockStore.Errors.{BsErrorCode, bs_aborted, ThrownCode, bs_error, ca_error}
use local_first_p2p_app.BlockStore.Backoff.{BackoffConfig, compute_backoff_delay_ms}
use local_first_p2p_app.BlockStore.Health.{
  BreakerConfig, Tracker, can_attempt, record_success, record_failure,
}

pub record RetryConfig : Type 0 where
  pub backoff : BackoffConfig
  pub max_attempts_per_fetcher : ℕ

-- A fetcher's answer: bytes, `none` where they are no Uint8Array, which an unknown outcome has too; a
-- definitive or a transient failure; an exception; or a value of no known shape.
pub data BlockFetchResult : Type 0 where
  fetched : Option (List ℕ) → BlockFetchResult
  not_found_result transient_result threw malformed : BlockFetchResult

pub data FetchAttemptOutcome : Type 0 where
  verified not_found transient_error length_mismatch : FetchAttemptOutcome
  digest_mismatch skipped_unhealthy : FetchAttemptOutcome

pub record FetchAttempt : Type 0 where
  pub fetcher_id : String
  pub outcome : FetchAttemptOutcome

pub record World (N : Numbers) : Type 0 where
  pub reply : String → ℕ → BlockFetchResult
  pub clock : ℕ → ℕ
  pub random : ℕ → Option N.Num
  pub aborted : ℕ → Bool
  pub interleave : ℕ → Tracker → Tracker

-- The tracker, the attempts so far, the readings of the world so far, and the waits.
pub record Progress : Type 0 where
  pub health : Tracker
  pub attempts : List FetchAttempt
  pub readings : ℕ
  pub delays : List ℕ

-- How the attempts at a fetcher end.
pub data Verdict : Type 0 where
  delivered : List ℕ → Verdict
  next_fetcher : Verdict
  thrown : ThrownCode → Verdict

-- After an attempt the fetcher is done with, or is to be tried again.
pub data Step : Type 0 where
  settled : Verdict → Step
  again : Step

abbrev pub next_round : Step × Progress → (Progress → Verdict × Progress) → Verdict × Progress
next_round (settled verdict, q) more = (verdict, q)
next_round (again, q) more = more q

abbrev pub note : String → FetchAttemptOutcome → Progress → Progress
note id outcome p = record p {
  attempts = p.attempts ++ record { fetcher_id = id; outcome = outcome } ∷ [];
}

abbrev pub is_right_length : ℕ → Option (List ℕ) → Bool
is_right_length byte_length none = false
is_right_length byte_length (some bytes) = length bytes == byte_length

abbrev pub bytes_of : Option (List ℕ) → List ℕ
bytes_of none = []
bytes_of (some bytes) = bytes

module _ (N : Numbers) (platform : Platform) (world : World N) where
  open world use {reply, clock, random, aborted, interleave}

  -- Other requests run while this one waits.
  abbrev pub await : Progress → Progress
  await p = record p { health = interleave p.readings p.health; readings = suc p.readings }

  module _ (retry : RetryConfig) (breaker : BreakerConfig) where
    abbrev pub penalize : String → FetchAttemptOutcome → Progress → Progress
    penalize id outcome p = note id outcome (record p {
      health = record_failure breaker p.health id (clock p.readings);
      readings = suc p.readings;
    })

    abbrev pub reward : String → FetchAttemptOutcome → Progress → Progress
    reward id outcome p = note id outcome (record p { health = record_success p.health id })

    -- A transient failure: whether the fetcher may be tried again, and the wait before it.
    abbrev pub wait_result : Result BsErrorCode ℕ → Progress → Step × Progress
    wait_result (err code) p = (settled (thrown (bs_error code)), p)
    wait_result (ok delay) p = (again, await (record p { delays = p.delays ++ delay ∷ [] }))

    unfoldable pub after_transient : Bool → ℕ → String → Progress → Step × Progress
    after_transient is_last_attempt attempt id p =
        let (granted, health) = can_attempt p.health id (clock p.readings) in
        let p' = record p { health = health; readings = suc p.readings } in
        if is_last_attempt
        then (settled next_fetcher, p)
        else if granted
        then wait_result (compute_backoff_delay_ms N attempt retry.backoff (random p.readings)) p'
        else (settled next_fetcher, p')

    abbrev pub check_digest : String → List ℕ → Result CaErrorCode Bool → Progress → Step × Progress
    check_digest id bytes (err code) p = (settled (thrown (ca_error code)), p)
    check_digest id bytes (ok false) p = (settled next_fetcher, penalize id digest_mismatch p)
    check_digest id bytes (ok true) p = (settled (delivered bytes), reward id verified p)

    -- Length, then digest.
    unfoldable pub verify_bytes :
        ℕ → DigestRef → String → Option (List ℕ) → Progress → Step × Progress
    verify_bytes byte_length digest id bytes p =
        if is_right_length byte_length bytes
        then check_digest id (bytes_of bytes) (verify_digest platform (bytes_of bytes) digest)
            (await p)
        else (settled next_fetcher, penalize id length_mismatch p)

    -- What is done with the fetcher's answer.
    unfoldable pub handle_result :
        ℕ → DigestRef → Bool → ℕ → String → BlockFetchResult → Progress → Step × Progress
    handle_result byte_length digest is_last attempt id (fetched bytes) p =
        verify_bytes byte_length digest id bytes p
    handle_result byte_length digest is_last attempt id not_found_result p =
        (settled next_fetcher, reward id not_found p)
    handle_result byte_length digest is_last attempt id transient_result p =
        after_transient is_last attempt id (penalize id transient_error p)
    handle_result byte_length digest is_last attempt id threw p =
        after_transient is_last attempt id (penalize id transient_error p)
    handle_result byte_length digest is_last attempt id malformed p =
        after_transient is_last attempt id (penalize id transient_error p)

    -- One round of the loop.
    unfoldable pub attempt_once : ℕ → DigestRef → Bool → ℕ → String → Progress → Step × Progress
    attempt_once byte_length digest is_last attempt id p =
        if aborted p.readings
        then (settled (thrown (bs_error bs_aborted)), p)
        else if aborted (suc p.readings)
        then (settled (thrown (bs_error bs_aborted)), await p)
        else handle_result byte_length digest is_last attempt id (reply id p.readings) (await p)

    -- The loop, with the number of attempts that are left.
    unfoldable pub attempt_loop : ℕ → DigestRef → ℕ → ℕ → String → Progress → Verdict × Progress
    attempt_loop byte_length digest zero attempt id p = (next_fetcher, p)
    attempt_loop byte_length digest (suc left) attempt id p =
        next_round (attempt_once byte_length digest (left == 0) attempt id p)
          (attempt_loop byte_length digest left (attempt + 1) id)

    unfoldable pub try_fetcher : ℕ → DigestRef → String → Progress → Verdict × Progress
    try_fetcher byte_length digest id p =
        attempt_loop byte_length digest retry.max_attempts_per_fetcher 0 id p
