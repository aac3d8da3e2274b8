-- ===== src/BlockStore/Fetch/Served.antt =====
-- Fall-through in block-store.ts: faulty fetchers do not keep a block from being found.
use local_first_p2p_app.Common.{
  ℕ, zero, suc, ◌≤◌, ◌≡◌, refl, ap, ◌∙◌, subst, inl, inr, String, Bool, true, false, Option, none,
  is_some, some, List, [], ◌∷◌, arith, length, ◌==◌, contains, Bool-cases, str_eq, eq_iff, if-intro,
}
use local_first_p2p_app.Common.Numbers.{Numbers, lt}
use local_first_p2p_app.Common.Result.{Result, err, ok}
use local_first_p2p_app.Content.Digest.{
  DigestRef, Platform, is_computable, digest_raw_length, create_digest, verify_digest,
}
use local_first_p2p_app.Content.BlockRef.{
  BlockRef, EncryptionDescriptor, CompressionDescriptor, CompressionAlgorithm, identity, zstd, gzip,
  br,
}
use local_first_p2p_app.BlockStore.Errors.{ThrownCode}
use local_first_p2p_app.BlockStore.Backoff.{compute_backoff_delay_ms}
use local_first_p2p_app.BlockStore.Decode.{
  Decoders, decompress, check_size, decode_with, decode_block_bytes,
}
use local_first_p2p_app.BlockStore.Health.{attempt, can_attempt}
use local_first_p2p_app.BlockStore.Fetch.{
  unpack, BlockStore, prepare, open_block, visit_fetcher, fetch_from, after_fetcher, start,
  get_block, fetch_prepared, finish,
}
use local_first_p2p_app.BlockStore.Fetch.Attempt.{
  World, FetchAttempt, Progress, Verdict, delivered, next_fetcher, thrown, settled, fetched,
  skipped_unhealthy, note, verify_bytes, handle_result, attempt_once, attempt_loop, try_fetcher,
}
use local_first_p2p_app.BlockStore.Fetch.Runs.{IsClosed, IsCalm, can_attempt-Keeps}
use local_first_p2p_app.BlockStore.Fetch.Sound.{
  Fault, was_aborted, bad_random, bad_digest, Ends, try_fetcher-Ends,
}
use local_first_p2p_app.BlockStore.Fetch.Delivery.{Answers, fetch_from-Closes}
use local_first_p2p_app.BlockStore.Fetch.Verified.{verify_digest-true}

-- What the platform and the caller promise: hashes of their length, random numbers in [0, 1), and no
-- abort.
pub record IsQuiet (N : Numbers) (platform : Platform) (world : World N) (digest : DigestRef)
    : Type 0 where
  pub computable : is_computable digest.algorithm ≡ true
  pub hashes :
      (bytes : List ℕ)
      → length (platform.hash digest.algorithm bytes) ≡ digest_raw_length digest.algorithm
  pub draws :
      (k : ℕ)
      → (r : N.Num) × (world.random k ≡ some r)
        × (N.le (N.of_ℕ 0) r ≡ true)
        × (lt N r (N.of_ℕ 1) ≡ true)
  pub goes_on : (k : ℕ) → world.aborted k ≡ false

-- A fetcher that has the block, whose breaker is closed and stays so while other requests run.
pub record Serves (N : Numbers) (platform : Platform) (world : World N) (store : BlockStore)
    (ref : BlockRef) (digest : DigestRef) (good : String) : Type 0 where
  pub content : List ℕ
  pub replies : (k : ℕ) → world.reply good k ≡ fetched (some content)
  pub sized : length content ≡ ref.byte_length
  pub hashed : platform.base64_url_encode (platform.hash digest.algorithm content) ≡ digest.digest
  pub closed : IsClosed good store.health
  pub calm : IsCalm N world good

-- What genuine bytes are read as: themselves where they are encrypted or not compressed, and else what
-- the decompressor makes of them, if it has the size declared and there is no dictionary.
abbrev pub Readable :
    Decoders → Option EncryptionDescriptor → Option CompressionDescriptor → List ℕ → List ℕ → Type 0
Readable decoders (some encryption) compression bytes out = out ≡ bytes
Readable decoders none none bytes out = out ≡ bytes
Readable decoders none (some c) bytes out =
    (c.dictionary_ref ≡ none)
    × (decompress decoders c.algorithm bytes c.decoded_size ≡ ok out)
    × (length out ≡ c.decoded_size)

check_size-exact :
    (out : List ℕ) (declared : ℕ) → length out ≡ declared → check_size declared out ≡ ok out
check_size-exact out declared sized = ground (arith, sized)

decode_with-exact :
    (decoders : Decoders) (bytes out : List ℕ) (algorithm : CompressionAlgorithm) (declared : ℕ)
    → decompress decoders algorithm bytes declared ≡ ok out
    → length out ≡ declared
    → decode_with decoders bytes algorithm declared none ≡ ok out
decode_with-exact decoders bytes out identity declared made sized = made
decode_with-exact decoders bytes out zstd declared made sized =
    rw made (check_size-exact out declared sized)
decode_with-exact decoders bytes out gzip declared made sized =
    rw made (check_size-exact out declared sized)
decode_with-exact decoders bytes out br declared made sized =
    rw made (check_size-exact out declared sized)

unpack-Readable :
    (decoders : Decoders) (encryption : Option EncryptionDescriptor)
    (compression : Option CompressionDescriptor) (bytes out : List ℕ)
    → Readable decoders encryption compression bytes out
    → unpack decoders encryption compression bytes ≡ ok out
unfolding decode_block_bytes
unpack-Readable decoders (some encryption) compression bytes out same = cc
unpack-Readable decoders none none bytes out same = cc
unpack-Readable decoders none (some c) bytes out (bare, made, sized) =
    rw (bare, decode_with-exact decoders bytes out c.algorithm c.decoded_size made sized) refl

open_block-Readable :
    (decoders : Decoders) (ref : BlockRef) (bytes out : List ℕ) (attempts : List FetchAttempt)
    → Readable decoders ref.encryption ref.compression bytes out
    → open_block decoders ref bytes attempts
      ≡ ok (record {
        ref = ref;
        bytes = out;
        encrypted = is_some ref.encryption;
        attempts = attempts;
      })
unfolding open_block
open_block-Readable decoders ref bytes out attempts readable =
    rw (unpack-Readable decoders ref.encryption ref.compression bytes out readable) refl

module _ (N : Numbers) (platform : Platform) (world : World N) (store : BlockStore) (ref : BlockRef)
    (digest : DigestRef) (good : String) (quiet : IsQuiet N platform world digest)
    (serves : Serves N platform world store ref digest good) where
  verify_digest-returns :
      (bytes : List ℕ) (code : _) → verify_digest platform bytes digest ≡ err code → ⊥
  unfolding verify_digest create_digest
  verify_digest-returns bytes code h = ground (arith, quiet.computable, quiet.hashes bytes, h)

  content-verified : verify_digest platform serves.content digest ≡ ok true
  unfolding verify_digest create_digest
  content-verified = ground (
    arith,
    quiet.computable,
    quiet.hashes serves.content,
    serves.hashed,
    eq_iff (platform.base64_url_encode (platform.hash digest.algorithm serves.content))
        digest.digest,
  )

  compute_backoff-returns :
      (attempt k : ℕ) (code : _)
      → compute_backoff_delay_ms N attempt store.retry.backoff (world.random k) ≡ err code
      → ⊥
  unfolding compute_backoff_delay_ms
  compute_backoff-returns attempt k code h =
      let (r, drawn, low, high) = quiet.draws k in ground (arith, drawn, low, high, h)

  no-Fault :
      (code : ThrownCode)
      → Fault N platform world store.retry store.breaker ref.byte_length digest code
      → ⊥
  no-Fault code (was_aborted k e) = absurd (cc (quiet.goes_on k, e))
  no-Fault code (bad_random attempt k c e) = compute_backoff-returns attempt k c e
  no-Fault code (bad_digest bytes c e) = verify_digest-returns bytes c e

  attempt_once-delivers :
      (is_last : Bool) (n : ℕ) (p : Progress)
      → (attempt_once N platform world store.retry store.breaker ref.byte_length digest is_last n
          good p).0
        ≡ settled (delivered serves.content)
  unfolding attempt_once handle_result verify_bytes
  attempt_once-delivers is_last n p = ground (
    arith,
    quiet.goes_on p.readings,
    quiet.goes_on (suc p.readings),
    serves.replies p.readings,
    serves.sized,
    content-verified,
  )

  attempt_loop-delivers :
      (left n : ℕ) (p : Progress)
      → 1 ≤ left
      → (attempt_loop N platform world store.retry store.breaker ref.byte_length digest left n good
          p).0
        ≡ delivered serves.content
  unfolding attempt_loop
  attempt_loop-delivers zero n p h = absurd (omega arith)
  attempt_loop-delivers (suc left) n p h = ground (arith, attempt_once-delivers (left == 0) n p)

  -- What a request answers once it has come to the end of the fetchers it asks.
  abbrev Found : Result ThrownCode (List ℕ) × Progress → Type 0
  Found (ok bytes, p) = Unit
  Found (err code, p) = ⊥

  good-Found :
      (v : Verdict × Progress) (more : Progress → Result ThrownCode (List ℕ) × Progress)
      → v.0 ≡ delivered serves.content
      → Found (after_fetcher v more)
  good-Found (delivered bytes, q) more h = tt
  good-Found (next_fetcher, q) more h = cc
  good-Found (thrown code, q) more h = cc

  other-Found :
      (n : ℕ) (id : String) (p : Progress) (v : Verdict × Progress)
      (more : Progress → Result ThrownCode (List ℕ) × Progress)
      → str_eq id good ≡ false
      → IsClosed good p.health
      → Ends N platform world store.retry store.breaker ref.byte_length digest n id p v
      → ((q : Progress) → IsClosed good q.health → Found (more q))
      → Found (after_fetcher v more)
  other-Found n id p (delivered bytes, q) more other shut ends rest = tt
  other-Found n id p (next_fetcher, q) more other shut (sound, (short, keep)) rest =
      rest q (keep good serves.calm other shut)
  other-Found n id p (thrown code, q) more other shut (fault, runs) rest = no-Fault code fault

  visit_other-Found :
      (id : String) (p : Progress) (more : Progress → Result ThrownCode (List ℕ) × Progress)
      → str_eq id good ≡ false
      → IsClosed good p.health
      → ((q : Progress) → IsClosed good q.health → Found (more q))
      → Found (visit_fetcher N platform world store ref digest id more p)
  unfolding visit_fetcher
  visit_other-Found id p more other shut rest =
      if-intro Found (can_attempt p.health id (world.clock p.readings)).0 (after_fetcher tried more)
        (more (note id skipped_unhealthy p'))
        (other-Found store.retry.max_attempts_per_fetcher id p' tried more other shut'
          (try_fetcher-Ends N platform world store.retry store.breaker ref.byte_length digest id p')
          rest)
        (rest (note id skipped_unhealthy p') shut')
    where
      p' : Progress
      p' = record p {
        health = (can_attempt p.health id (world.clock p.readings)).1;
        readings = suc p.readings;
      }

      tried : Verdict × Progress
      tried = try_fetcher N platform world store.retry store.breaker ref.byte_length digest id p'

      shut' : IsClosed good p'.health
      shut' =
          can_attempt-Keeps N world p.health id (world.clock p.readings) good serves.calm other shut

  visit_good-Found :
      (p : Progress) (more : Progress → Result ThrownCode (List ℕ) × Progress)
      → 1 ≤ store.retry.max_attempts_per_fetcher
      → IsClosed good p.health
      → Found (visit_fetcher N platform world store ref digest good more p)
  unfolding visit_fetcher try_fetcher can_attempt attempt
  visit_good-Found p more positive shut =
      rw shut (
        good-Found _ more (attempt_loop-delivers store.retry.max_attempts_per_fetcher 0 _ positive))

  fetch_from-Found :
      (ids : List String) (p : Progress)
      → 1 ≤ store.retry.max_attempts_per_fetcher
      → contains ids good ≡ true
      → IsClosed good p.health
      → Found (fetch_from N platform world store ref digest ids p)
  unfolding fetch_from
  fetch_from-Found [] p positive listed shut = absurd (cc listed)
  fetch_from-Found (id ∷ rest) p positive listed shut = elim (Bool-cases (str_eq id good)) [
    | inl e ↦
        let same : good ≡ id = ground (arith, e, eq_iff id good) in
        subst
          (λ j. Found (
            visit_fetcher N platform world store ref digest j
              (fetch_from N platform world store ref digest rest) p))
          same
          (visit_good-Found p (fetch_from N platform world store ref digest rest) positive shut)
    | inr e ↦
        let later : contains rest good ≡ true = ground (arith, e, listed) in
        visit_other-Found id p (fetch_from N platform world store ref digest rest) e shut
          (λ q shut'. fetch_from-Found rest q positive later shut')
  ]

  Found-ok :
      (r : Result ThrownCode (List ℕ) × Progress)
      → Found r
      → (bytes : List ℕ) × (r ≡ (ok bytes, r.1))
  Found-ok (ok bytes, p) found = (bytes, refl)
  Found-ok (err code, p) found = absurd found

  -- Where hashes have their length, random numbers lie in [0, 1), the request is not aborted, a
  -- fetcher is tried at least once, and one of them answers with bytes of the reference's length and
  -- digest while its breaker is closed and left closed by other requests, a reference that passes the
  -- checks is served from bytes of its length and digest, whatever the other fetchers do. The block is
  -- returned where the bytes are encrypted or not compressed, and where they name no dictionary and the
  -- decompressor makes the declared number of bytes of them; its content is the bytes or that output.
  pub get_block-served :
      (decoders : Decoders)
      → 1 ≤ store.retry.max_attempts_per_fetcher
      → contains store.fetchers good ≡ true
      → prepare store ref (world.aborted 0) ≡ ok digest
      → (bytes : List ℕ) × (attempts : List FetchAttempt) × (length bytes ≡ ref.byte_length)
        × (platform.base64_url_encode (platform.hash digest.algorithm bytes) ≡ digest.digest)
        × ((get_block N platform world store decoders ref).0
            ≡ open_block decoders ref bytes attempts)
        × ((out : List ℕ)
            → Readable decoders ref.encryption ref.compression bytes out
            → (get_block N platform world store decoders ref).0
              ≡ ok (record {
                ref = ref;
                bytes = out;
                encrypted = is_some ref.encryption;
                attempts = attempts;
              }))
  unfolding get_block
  get_block-served decoders positive listed prepared =
      let first = start N platform world store in
      let r = fetch_from N platform world store ref digest store.fetchers first in
      let (bytes, found) =
        Found-ok r (fetch_from-Found store.fetchers first positive listed serves.closed) in
      let answers =
        (fetch_from-Closes N platform world store ref digest store.fetchers first positive).0 in
      let (sized, hashed) =
        subst
          (λ (x : Result ThrownCode (List ℕ) × Progress).
            Answers N platform world store ref digest x.0)
          found answers in
      let served : (get_block N platform world store decoders ref).0
          ≡ open_block decoders ref bytes r.1.attempts =
        ap (λ x. (fetch_prepared N platform world store decoders ref x).0) prepared
        ∙ ap (λ x. (finish N platform world store decoders ref x).0) found in
      (
        bytes,
        r.1.attempts,
        sized,
        verify_digest-true platform bytes digest hashed,
        served,
        λ out readable. served ∙ open_block-Readable decoders ref bytes out r.1.attempts readable,
      )
