-- ===== src/BlockStore/Memory/Reads.antt =====
-- What the cache of memory-fetcher.ts gives back.
use local_first_p2p_app.Common.{
  ℕ, ◌≡◌, refl, ap, subst, sym, true, false, Option, none, some, List, arith, length, ltb,
  Bool-cases, eq_refl, inl, inr, is_some, String,
}
use local_first_p2p_app.Common.Dict.{lookup, delete, lookup-insert}
use local_first_p2p_app.Common.Result.{Result, ok, err}
use local_first_p2p_app.Content.Digest.{
  CaErrorCode, HashAlgorithm, is_computable, DigestRef, Platform, create_digest, verify_digest,
}
use local_first_p2p_app.Content.BlockRef.{digest_source, BlockRef}
use local_first_p2p_app.BlockStore.Fetch.Attempt.{fetched}
use local_first_p2p_app.BlockStore.Memory.{
  MemoryBlockStore, cache_key, evict, refresh, store_block, put_digest, put, has, fetch_block,
}
use local_first_p2p_app.BlockStore.Memory.Entries.{IsKeyOf, lookup-Own, cache_key-eq}
use local_first_p2p_app.BlockStore.Memory.Cache.{IsValid, put-IsSound, same-IsOwned}

module _ (platform : Platform) where
  create_digest-computable :
      (bytes : List ℕ) (algorithm : HashAlgorithm) (digest : DigestRef)
      → create_digest platform bytes algorithm ≡ ok digest
      → (is_computable digest.algorithm ≡ true) × (digest.algorithm ≡ algorithm)
  unfolding create_digest
  create_digest-computable bytes algorithm digest h = ground arith

  created-verified :
      (bytes : List ℕ) (algorithm : HashAlgorithm) (digest : DigestRef)
      → create_digest platform bytes algorithm ≡ ok digest
      → verify_digest platform bytes digest ≡ ok true
  unfolding verify_digest
  created-verified bytes algorithm digest h =
      let (computable, same) = create_digest-computable bytes algorithm digest h in
      rw (same, h) (ground (arith, eq_refl digest.digest))

  -- Bytes under the key of a digest that can be computed have that digest.
  held-verified :
      (m : MemoryBlockStore) (digest : DigestRef) (bytes : List ℕ)
      → IsValid platform m
      → is_computable digest.algorithm ≡ true
      → lookup (cache_key digest) m.blocks ≡ some bytes
      → verify_digest platform bytes digest ≡ ok true
  held-verified m digest bytes valid computable found =
      let (algorithm, own, made, key) =
        lookup-Own (IsKeyOf platform) (cache_key digest) m.blocks bytes valid.entries found in
      let (own_computable, _) = create_digest-computable bytes algorithm own made in
      let same = cache_key-eq own digest own_computable computable key in
      subst (λ d. verify_digest platform bytes d ≡ ok true) same
        (created-verified bytes algorithm own made)

  stored-lookup :
      (m : MemoryBlockStore) (bytes : List ℕ) (key : String) (found : Option (List ℕ))
      → (held : List ℕ) × (lookup key (store_block m bytes key found).blocks ≡ some held)
        × (is_some found ≡ false → held ≡ bytes)
  unfolding refresh
  stored-lookup m bytes key none =
      let left = (evict m.max_total_bytes (length bytes) m.blocks m.total).0 in
      (bytes, ground (arith, lookup-insert key key bytes left, eq_refl key), λ h. refl)
  stored-lookup m bytes key (some existing) = (
    existing,
    ground (arith, lookup-insert key key existing (delete key m.blocks), eq_refl key),
    λ h. absurd (cc h),
  )

  put_digest-cases :
      (m : MemoryBlockStore) (bytes : List ℕ) (made : Result CaErrorCode DigestRef)
      (digest : DigestRef)
      → (put_digest m bytes made).0 ≡ ok digest
      → (made ≡ ok digest)
        × ((put_digest m bytes made).1
            ≡ store_block m bytes (cache_key digest) (lookup (cache_key digest) m.blocks))
  put_digest-cases m bytes (err code) digest h = absurd (cc h)
  put_digest-cases m bytes (ok own) digest h = let same : own ≡ digest = cc in (cc, rw same refl)

  put-cases :
      (m : MemoryBlockStore) (bytes copied : List ℕ) (algorithm : HashAlgorithm)
      (digest : DigestRef)
      → (put platform m bytes copied algorithm).0 ≡ ok digest
      → (create_digest platform bytes algorithm ≡ ok digest)
        × ((put platform m bytes copied algorithm).1
            ≡ store_block m copied (cache_key digest) (lookup (cache_key digest) m.blocks))
  unfolding put
  put-cases m bytes copied algorithm digest h =
      elim (Bool-cases (ltb m.max_block_bytes (length bytes))) [
        | inl e ↦ absurd (ground (arith, e, h))
        | inr e ↦
            let taken : (put_digest m copied (create_digest platform bytes algorithm)).0
                ≡ ok digest =
              ground (arith, e, h) in
            rw e (put_digest-cases m copied (create_digest platform bytes algorithm) digest taken)
      ]

  -- After a `put` that returns a digest, of a buffer that did not change while it waited, a valid
  -- cache answers a reference by that digest with bytes that have it, and with the bytes that were put
  -- where the cache had none under that digest.
  pub put-fetch_block :
      (m : MemoryBlockStore) (bytes : List ℕ) (algorithm : HashAlgorithm) (digest : DigestRef)
      (ref : BlockRef)
      → IsValid platform m
      → (put platform m bytes bytes algorithm).0 ≡ ok digest
      → ref.source ≡ digest_source digest
      → (held : List ℕ) × ((fetch_block (put platform m bytes bytes algorithm).1 ref).0
          ≡ fetched (some held))
        × (verify_digest platform held digest ≡ ok true)
        × (has m digest ≡ false → held ≡ bytes)
  unfolding fetch_block has
  put-fetch_block m bytes algorithm digest ref valid h source =
      let key = cache_key digest in
      let after = (put platform m bytes bytes algorithm).1 in
      let (made, stored) = put-cases m bytes bytes algorithm digest h in
      let (computable, _) = create_digest-computable bytes algorithm digest made in
      let (held, found, own) = stored-lookup m bytes key (lookup key m.blocks) in
      let here : lookup key after.blocks ≡ some held =
        subst (λ (s : MemoryBlockStore). lookup key s.blocks ≡ some held) (sym stored) found in
      let valid' =
        put-IsSound platform (IsKeyOf platform) m bytes bytes algorithm valid
          (same-IsOwned platform bytes algorithm) in
      (held, rw (source, here) refl, held-verified after digest held valid' computable here, own)

  -- After a `put` that returns a digest the cache did not hold, of a buffer that changed while it
  -- waited to bytes without that digest, the cache answers a reference by the digest with the changed
  -- bytes, and is no longer one whose entries have the digests of their keys.
  pub put_changed-fetch_block :
      (m : MemoryBlockStore) (bytes copied : List ℕ) (algorithm : HashAlgorithm)
      (digest : DigestRef) (ref : BlockRef)
      → (put platform m bytes copied algorithm).0 ≡ ok digest
      → ref.source ≡ digest_source digest
      → has m digest ≡ false
      → verify_digest platform copied digest ≡ ok false
      → ((fetch_block (put platform m bytes copied algorithm).1 ref).0 ≡ fetched (some copied))
        × ¬ IsValid platform (put platform m bytes copied algorithm).1
  unfolding fetch_block has
  put_changed-fetch_block m bytes copied algorithm digest ref h source new wrong =
      let key = cache_key digest in
      let after = (put platform m bytes copied algorithm).1 in
      let (made, stored) = put-cases m bytes copied algorithm digest h in
      let (computable, _) = create_digest-computable bytes algorithm digest made in
      let (held, found, own) = stored-lookup m copied key (lookup key m.blocks) in
      let here : lookup key after.blocks ≡ some held =
        subst (λ (s : MemoryBlockStore). lookup key s.blocks ≡ some held) (sym stored) found in
      let changed : lookup key after.blocks ≡ some copied = rw here (ap some (own new)) in
      (
        rw (source, changed) refl,
        λ valid.
            let right = held-verified after digest copied valid computable changed in
            cc (right, wrong),
      )
