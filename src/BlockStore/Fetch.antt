-- ===== src/BlockStore/Fetch.antt =====
-- packages/block-store/src/block-store.ts: the configuration of a block store and `getBlock`.
-- What the request meets is a record of functions of the number of readings made so far: the answers
-- of the fetchers, the clock, the random numbers, the caller's abort signal, and what other requests
-- do to the shared health tracker while this one waits. A sleep that an abort ends is the abort that
-- the next check sees.
pub mod Attempt
pub mod Runs
pub mod Sound
pub mod Prepare
pub mod Delivery
pub mod Verified
pub mod Served
pub mod Abandoned
mod Tests
use local_first_p2p_app.Common.{
  ℕ, suc, zero, String, Bool, true, false, not, ◌&&◌, ◌||◌, Option, none, some, List, [], ◌∷◌, ◌++◌,
  map, length, ltb, ◌==◌, if◌then◌else◌, is_some, contains, str_eq,
}
use local_first_p2p_app.Common.Numbers.{Numbers}
use local_first_p2p_app.Common.Result.{Result, err, ok, ◌>>=◌, ◌>>◌, require}
use local_first_p2p_app.Content.Digest.{HashAlgorithm, blake3, is_computable, DigestRef, Platform}
use local_first_p2p_app.Content.BlockRef.{
  BlockSource, digest_source, content_link, EncryptionDescriptor, CompressionDescriptor, BlockRef,
  max_block_byte_length, max_decoded_byte_length, validate_block_ref,
}
use local_first_p2p_app.BlockStore.Errors.{
  BsErrorCode, bs_invalid_input, bs_invalid_config, bs_byte_cap_exceeded, bs_decoded_size_exceeded,
  bs_verification_unsupported, bs_block_unavailable, bs_aborted, ThrownCode, bs_error, ca_error,
  from_ca, from_bs,
}
use local_first_p2p_app.BlockStore.Backoff.{default_backoff, is_valid_backoff}
use local_first_p2p_app.BlockStore.Decode.{Decoders, decode_block_bytes}
use local_first_p2p_app.BlockStore.Health.{
  BreakerConfig, default_breaker, is_valid_breaker, Tracker, can_attempt,
}
use Attempt.{
  RetryConfig, World, FetchAttempt, skipped_unhealthy, Progress, Verdict, delivered, next_fetcher,
  thrown, note, try_fetcher,
}

abbrev pub max_attempts_per_fetcher_limit : ℕ
max_attempts_per_fetcher_limit = 10

abbrev pub default_max_block_bytes : ℕ
default_max_block_bytes = 33_554_432

abbrev pub default_max_decoded_bytes : ℕ
default_max_decoded_bytes = 268_435_456

-- `Partial<RetryConfig>`
pub record PartialRetry : Type 0 where
  pub base_delay_ms : Option ℕ
  pub max_delay_ms : Option ℕ
  pub max_attempts_per_fetcher : Option ℕ

-- A fetcher is known by its id.
pub record BlockStoreConfig : Type 0 where
  pub fetchers : List String
  pub max_block_bytes : Option ℕ
  pub max_decoded_bytes : Option ℕ
  pub retry : PartialRetry
  pub breaker : Option BreakerConfig

pub record BlockStore : Type 0 where
  pub fetchers : List String
  pub max_block_bytes : ℕ
  pub max_decoded_bytes : ℕ
  pub retry : RetryConfig
  pub breaker : BreakerConfig
  pub health : Tracker

-- `value ?? fallback`
abbrev pub or_else {ℓ} : {A : Type ℓ} → Option A → A → A
or_else none fallback = fallback
or_else (some value) fallback = value

-- Every id is a text that is not empty, and new.
unfoldable pub has_good_ids : List String → List String → Bool
has_good_ids met [] = true
has_good_ids met (id ∷ rest) =
    not (str_eq id "") && not (contains met id) && has_good_ids (id ∷ met) rest

abbrev pub is_between : ℕ → ℕ → ℕ → Bool
is_between lo hi n = not (ltb n lo) && not (ltb hi n)

abbrev pub merged_retry : PartialRetry → RetryConfig
merged_retry retry = record {
  backoff = record {
    base_delay_ms = or_else retry.base_delay_ms default_backoff.base_delay_ms;
    max_delay_ms = or_else retry.max_delay_ms default_backoff.max_delay_ms;
  };
  max_attempts_per_fetcher = or_else retry.max_attempts_per_fetcher 3;
}

abbrev pub is_empty : List String → Bool
is_empty [] = true
is_empty (id ∷ rest) = false

-- The constructor of `BlockStore`.
unfoldable pub new_block_store : BlockStoreConfig → Result BsErrorCode BlockStore
new_block_store config =
    let max_block_bytes = or_else config.max_block_bytes default_max_block_bytes in
    let max_decoded_bytes = or_else config.max_decoded_bytes default_max_decoded_bytes in
    let retry = merged_retry config.retry in
    let breaker = or_else config.breaker default_breaker in
    require (not (is_empty config.fetchers)) bs_invalid_config
    >> require (has_good_ids [] config.fetchers) bs_invalid_config
    >> require (is_between 1 max_block_byte_length max_block_bytes) bs_invalid_config
    >> require (is_between max_block_bytes max_decoded_byte_length max_decoded_bytes)
        bs_invalid_config
    >> require (is_valid_backoff retry.backoff) bs_invalid_config
    >> require (is_between 1 max_attempts_per_fetcher_limit retry.max_attempts_per_fetcher)
        bs_invalid_config
    >> require (is_valid_breaker breaker) bs_invalid_config
    >> ok (record {
      fetchers = config.fetchers;
      max_block_bytes = max_block_bytes;
      max_decoded_bytes = max_decoded_bytes;
      retry = retry;
      breaker = breaker;
      health = [];
    })

pub record VerifiedBlock : Type 0 where
  pub ref : BlockRef
  pub bytes : List ℕ
  pub encrypted : Bool
  pub attempts : List FetchAttempt

-- The digest that the bytes are checked against, for a source that can be checked.
abbrev pub verifiable_digest : BlockSource → Result BsErrorCode DigestRef
verifiable_digest (content_link codec cid) = err bs_verification_unsupported
verifiable_digest (digest_source digest) =
    if is_computable digest.algorithm then ok digest else err bs_verification_unsupported

abbrev pub check_compression_caps :
    BlockStore → ℕ → Option CompressionDescriptor → Result BsErrorCode (Unit {0})
check_compression_caps store byte_length none = ok tt
check_compression_caps store byte_length (some c) =
    require (c.encoded_size == byte_length) bs_invalid_input
    >> require (not (ltb store.max_decoded_bytes c.decoded_size)) bs_decoded_size_exceeded

-- The caps that are checked before any byte moves.
unfoldable pub check_caps : BlockStore → BlockRef → Result BsErrorCode (Unit {0})
check_caps store ref =
    require (not (ltb store.max_block_bytes ref.byte_length)) bs_byte_cap_exceeded
    >> (if is_some ref.encryption
        then ok tt
        else check_compression_caps store ref.byte_length ref.compression)

-- The checks before the first fetch: the digest that `getBlock` goes on with.
unfoldable pub prepare : BlockStore → BlockRef → Bool → Result ThrownCode DigestRef
prepare store ref is_aborted =
    require (not is_aborted) (bs_error bs_aborted) >> from_ca (validate_block_ref ref) >>= λ valid.
    from_bs (verifiable_digest valid.source) >>= λ digest.
    from_bs (check_caps store valid) >> ok digest

-- Ciphertext is returned untouched; only cleartext is decoded.
abbrev pub unpack :
    Decoders
    → Option EncryptionDescriptor
    → Option CompressionDescriptor
    → List ℕ
    → Result ThrownCode (List ℕ)
unpack decoders (some encryption) compression bytes = ok bytes
unpack decoders none compression bytes = from_bs (decode_block_bytes bytes compression decoders)

unfoldable pub open_block :
    Decoders → BlockRef → List ℕ → List FetchAttempt → Result ThrownCode VerifiedBlock
open_block decoders ref bytes attempts =
    unpack decoders ref.encryption ref.compression bytes >>= λ decoded.
    ok (record {
      ref = ref;
      bytes = decoded;
      encrypted = is_some ref.encryption;
      attempts = attempts;
    })

abbrev pub after_fetcher :
    Verdict × Progress
    → (Progress → Result ThrownCode (List ℕ) × Progress)
    → Result ThrownCode (List ℕ) × Progress
after_fetcher (delivered bytes, q) more = (ok bytes, q)
after_fetcher (next_fetcher, q) more = more q
after_fetcher (thrown code, q) more = (err code, q)

module _ (N : Numbers) (platform : Platform) (world : World N) (store : BlockStore) where
  -- One fetcher: asked where its breaker lets it, and `more` where it has not settled the request.
  unfoldable pub visit_fetcher :
      BlockRef
      → DigestRef
      → String
      → (Progress → Result ThrownCode (List ℕ) × Progress)
      → Progress
      → Result ThrownCode (List ℕ) × Progress
  visit_fetcher ref digest id more p =
      let (granted, health) = can_attempt p.health id (world.clock p.readings) in
      let p' = record p { health = health; readings = suc p.readings } in
      if granted
      then after_fetcher
          (try_fetcher N platform world store.retry store.breaker ref.byte_length digest id p') more
      else more (note id skipped_unhealthy p')

  -- The loop over the fetchers: the first verified bytes, or what is thrown.
  unfoldable pub fetch_from :
      BlockRef → DigestRef → List String → Progress → Result ThrownCode (List ℕ) × Progress
  fetch_from ref digest [] p = (err (bs_error bs_block_unavailable), p)
  fetch_from ref digest (id ∷ rest) p = visit_fetcher ref digest id (fetch_from ref digest rest) p

  abbrev pub start : Progress
  start = record { health = store.health; attempts = []; readings = 0; delays = [] }

  abbrev pub finish :
      Decoders
      → BlockRef
      → Result ThrownCode (List ℕ) × Progress
      → Result ThrownCode VerifiedBlock × Progress
  finish decoders ref (err code, p) = (err code, p)
  finish decoders ref (ok bytes, p) = (open_block decoders ref bytes p.attempts, p)

  abbrev pub fetch_prepared :
      Decoders → BlockRef → Result ThrownCode DigestRef → Result ThrownCode VerifiedBlock × Progress
  fetch_prepared decoders ref (err code) = (err code, start)
  fetch_prepared decoders ref (ok digest) =
      finish decoders ref (fetch_from ref digest store.fetchers start)

  unfoldable pub get_block : Decoders → BlockRef → Result ThrownCode VerifiedBlock × Progress
  get_block decoders ref = fetch_prepared decoders ref (prepare store ref (world.aborted 0))
