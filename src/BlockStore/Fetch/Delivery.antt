-- ===== src/BlockStore/Fetch/Delivery.antt =====
-- The requests of block-store.ts: what a fetcher loop answers, and where a block comes from.
use local_first_p2p_app.Common.{
  ℕ, suc, ◌+◌, ◌*◌, ◌≤◌, ◌≡◌, refl, ap, subst, ◌⊎◌, inl, inr, String, true, List, [], ◌∷◌, arith,
  length, if-intro,
}
use local_first_p2p_app.Common.Numbers.{Numbers}
use local_first_p2p_app.Common.Result.{Result, err, ok}
use local_first_p2p_app.Content.Digest.{DigestRef, Platform, verify_digest}
use local_first_p2p_app.Content.BlockRef.{BlockRef}
use local_first_p2p_app.BlockStore.Errors.{ThrownCode, bs_error, bs_block_unavailable}
use local_first_p2p_app.BlockStore.Decode.{Decoders}
use local_first_p2p_app.BlockStore.Health.{can_attempt}
use local_first_p2p_app.BlockStore.Fetch.{
  BlockStore, VerifiedBlock, prepare, open_block, fetch_from, visit_fetcher, after_fetcher, start,
  fetch_prepared, finish, get_block,
}
use local_first_p2p_app.BlockStore.Fetch.Attempt.{
  World, FetchAttempt, Progress, Verdict, delivered, next_fetcher, thrown, skipped_unhealthy, note,
  try_fetcher,
}
use local_first_p2p_app.BlockStore.Fetch.Runs.{length-note}
use local_first_p2p_app.BlockStore.Fetch.Sound.{Genuine, Fault, Ends, try_fetcher-Ends}

module _ (N : Numbers) (platform : Platform) (world : World N) (store : BlockStore) where
  abbrev pub limit : ℕ
  limit = store.retry.max_attempts_per_fetcher

  module _ (ref : BlockRef) (digest : DigestRef) where
    -- The bytes are genuine, and an error is a fault or says that nobody had them.
    abbrev pub Answers : Result ThrownCode (List ℕ) → Type 0
    Answers (ok bytes) =
        Genuine N platform world store.retry store.breaker ref.byte_length digest bytes
    Answers (err code) =
        Fault N platform world store.retry store.breaker ref.byte_length digest code
        ⊎ (code ≡ bs_error bs_block_unavailable)

    -- From `p` on at most `n` attempts are recorded.
    abbrev pub Closes : ℕ → Progress → Result ThrownCode (List ℕ) × Progress → Type 0
    Closes n p (r, q) = Answers r × (length q.attempts ≤ n + length p.attempts)

    after_fetcher-Closes :
        (n : ℕ) (id : String) (p : Progress) (v : Verdict × Progress)
        (more : Progress → Result ThrownCode (List ℕ) × Progress)
        → Ends N platform world store.retry store.breaker ref.byte_length digest limit id p v
        → ((q : Progress) → Closes n q (more q))
        → Closes (limit + n) p (after_fetcher v more)
    after_fetcher-Closes n id p (delivered bytes, q) more (sound, (short, keep)) rest =
        (sound, omega (arith, short))
    after_fetcher-Closes n id p (next_fetcher, q) more (sound, (short, keep)) rest =
        let (answers, later) = rest q in (answers, omega (arith, short, later))
    after_fetcher-Closes n id p (thrown code, q) more (sound, (short, keep)) rest =
        (inl sound, omega (arith, short))

    visit_fetcher-Closes :
        (n : ℕ) (id : String) (p : Progress)
        (more : Progress → Result ThrownCode (List ℕ) × Progress)
        → 1 ≤ limit
        → ((q : Progress) → Closes n q (more q))
        → Closes (limit + n) p (visit_fetcher N platform world store ref digest id more p)
    unfolding visit_fetcher
    visit_fetcher-Closes n id p more positive rest =
        if-intro (Closes (limit + n) p) (can_attempt p.health id (world.clock p.readings)).0
          (after_fetcher tried more) (more (note id skipped_unhealthy p'))
          (after_fetcher-Closes n id p' tried more ends rest)
          (let (answers, later) = rest (note id skipped_unhealthy p') in
            (answers, omega (arith, later, length-note N world id skipped_unhealthy p')))
      where
        p' : Progress
        p' = record p {
          health = (can_attempt p.health id (world.clock p.readings)).1;
          readings = suc p.readings;
        }

        tried : Verdict × Progress
        tried = try_fetcher N platform world store.retry store.breaker ref.byte_length digest id p'

        ends :
            Ends N platform world store.retry store.breaker ref.byte_length digest limit id p' tried
        ends =
            try_fetcher-Ends N platform world store.retry store.breaker ref.byte_length digest id p'

    pub fetch_from-Closes :
        (ids : List String) (p : Progress)
        → 1 ≤ limit
        → Closes (length ids * limit) p (fetch_from N platform world store ref digest ids p)
    unfolding fetch_from
    fetch_from-Closes [] p positive = (inr refl, omega arith)
    fetch_from-Closes (id ∷ rest) p positive =
        let (answers, short) =
          visit_fetcher-Closes (length rest * limit) id p _ positive
            (λ q. fetch_from-Closes rest q positive) in
        (answers, grind (arith, short))

  module _ (decoders : Decoders) (ref : BlockRef) where
    abbrev pub run : Result ThrownCode VerifiedBlock × Progress
    run = get_block N platform world store decoders ref

    finish-eq-ok :
        (r : Result ThrownCode (List ℕ) × Progress) (block : VerifiedBlock)
        → (finish N platform world store decoders ref r).0 ≡ ok block
        → (bytes : List ℕ) × (r.0 ≡ ok bytes)
          × (open_block decoders ref bytes r.1.attempts ≡ ok block)
    finish-eq-ok (err code, p) block h = cc
    finish-eq-ok (ok bytes, p) block h = (bytes, refl, h)

    finish-progress :
        (r : Result ThrownCode (List ℕ) × Progress)
        → (finish N platform world store decoders ref r).1 ≡ r.1
    finish-progress (err code, p) = refl
    finish-progress (ok bytes, p) = refl

    -- A block comes from genuine bytes, of a reference by digest that has passed the checks.
    abbrev pub Delivery : VerifiedBlock → Type 0
    Delivery block =
        (digest : DigestRef) × (bytes : List ℕ) × (attempts : List FetchAttempt) × (prepare store
            ref (world.aborted 0)
          ≡ ok digest)
        × (length bytes ≡ ref.byte_length)
        × (verify_digest platform bytes digest ≡ ok true)
        × (open_block decoders ref bytes attempts ≡ ok block)

    fetch_prepared-eq-ok :
        (prepared : Result ThrownCode DigestRef) (block : VerifiedBlock)
        → 1 ≤ limit
        → prepare store ref (world.aborted 0) ≡ prepared
        → (fetch_prepared N platform world store decoders ref prepared).0 ≡ ok block
        → Delivery block
    fetch_prepared-eq-ok (err code) block positive e h = cc
    fetch_prepared-eq-ok (ok digest) block positive e h =
        let first = start N platform world store in
        let r = fetch_from N platform world store ref digest store.fetchers first in
        let (bytes, got, opened) = finish-eq-ok r block h in
        let (sized, hashed) =
          subst (Answers ref digest) got
            (fetch_from-Closes ref digest store.fetchers first positive).0 in
        (digest, bytes, r.1.attempts, e, sized, hashed, opened)

    pub get_block-Delivery : (block : VerifiedBlock) → 1 ≤ limit → run.0 ≡ ok block → Delivery block
    unfolding get_block
    get_block-Delivery block positive h =
        fetch_prepared-eq-ok (prepare store ref (world.aborted 0)) block positive refl h

    fetch_prepared-attempts :
        (prepared : Result ThrownCode DigestRef)
        → 1 ≤ limit
        → length (fetch_prepared N platform world store decoders ref prepared).1.attempts
          ≤ length store.fetchers * limit
    fetch_prepared-attempts (err code) positive = omega arith
    fetch_prepared-attempts (ok digest) positive =
        let first = start N platform world store in
        let r = fetch_from N platform world store ref digest store.fetchers first in
        let same = finish-progress r in
        let short = (fetch_from-Closes ref digest store.fetchers first positive).1 in
        omega (arith, short, ap (λ (p : Progress). length p.attempts) same)

    -- Where a fetcher is tried at least once, a request records at most `maxAttemptsPerFetcher`
    -- attempts for each fetcher, skips included.
    pub get_block-attempts : 1 ≤ limit → length run.1.attempts ≤ length store.fetchers * limit
    unfolding get_block
    get_block-attempts positive =
        fetch_prepared-attempts (prepare store ref (world.aborted 0)) positive
