-- ===== src/BlockStore/Memory/Cache.antt =====
-- What the cache of memory-fetcher.ts keeps true, and what it gives back.
use local_first_p2p_app.Common.{
  ℕ, ◌≤◌, ◌≡◌, refl, subst, inl, inr, String, Option, none, some, List, [], ◌∷◌, arith, length, ltb,
  Bool-cases,
}
use local_first_p2p_app.Common.Dict.{lookup}
use local_first_p2p_app.Common.Result.{Result, ok, err}
use local_first_p2p_app.Content.Digest.{
  CaErrorCode, HashAlgorithm, DigestRef, Platform, create_digest,
}
use local_first_p2p_app.Content.BlockRef.{BlockSource, digest_source, content_link, BlockRef}
use local_first_p2p_app.BlockStore.Memory.{
  MemoryBlockStore, cache_key, evict, refresh, store_block, put_digest, put, remove_found, remove,
  fetch_found, fetch_source, fetch_block,
}
use local_first_p2p_app.BlockStore.Memory.Entries.{
  sizes, sizes-insert, IsKeyOf, AreEntries, insert-AreEntries, delete-AreEntries, sizes-delete,
  refresh-AreEntries, evict_lem,
}

module _ (Own : String → List ℕ → Type 0) where
  -- Entries of bytes that are their keys' own, each key once, of the total counted, within the budget.
  pub record IsSound (m : MemoryBlockStore) : Type 0 where
    pub entries : AreEntries Own m.blocks
    pub counted : m.total ≡ sizes m.blocks
    pub bounded : m.total ≤ m.max_total_bytes
    pub ordered : m.max_block_bytes ≤ m.max_total_bytes

  refreshed-IsSound :
      (m : MemoryBlockStore) (key : String) (bytes : List ℕ)
      → IsSound m
      → lookup key m.blocks ≡ some bytes
      → IsSound (record m { blocks = refresh key bytes m.blocks })
  refreshed-IsSound m key bytes valid found =
      let (entries, size) = refresh-AreEntries Own key bytes m.blocks valid.entries found in
      record {
        entries = entries;
        counted = omega (arith, valid.counted, size);
        bounded = valid.bounded;
        ordered = valid.ordered;
      }

  store_block-IsSound :
      (m : MemoryBlockStore) (bytes : List ℕ) (key : String) (found : Option (List ℕ))
      → IsSound m
      → length bytes ≤ m.max_block_bytes
      → Own key bytes
      → lookup key m.blocks ≡ found
      → IsSound (store_block m bytes key found)
  store_block-IsSound m bytes key (some existing) valid small own found =
      refreshed-IsSound m key existing valid found
  store_block-IsSound m bytes key none valid small own missing =
      let fits : length bytes ≤ m.max_total_bytes = omega (arith, valid.ordered) in
      let (entries, counts, room, none_new) =
        evict_lem Own m.max_total_bytes (length bytes) m.blocks m.total fits valid.entries
          valid.counted in
      let left = (evict m.max_total_bytes (length bytes) m.blocks m.total).0 in
      let absent = none_new key missing in
      record {
        entries = insert-AreEntries Own key bytes left entries absent own;
        counted = omega (arith, counts, sizes-insert key bytes left absent);
        bounded = room;
        ordered = valid.ordered;
      }

  remove_found-IsSound :
      (m : MemoryBlockStore) (key : String) (found : Option (List ℕ))
      → IsSound m
      → lookup key m.blocks ≡ found
      → IsSound (remove_found m key found).1
  remove_found-IsSound m key none valid e = valid
  remove_found-IsSound m key (some existing) valid e =
      let size = sizes-delete Own key m.blocks existing valid.entries e in
      record {
        entries = delete-AreEntries Own key m.blocks valid.entries;
        counted = omega (arith, size, valid.counted);
        bounded = omega (arith, valid.bounded);
        ordered = valid.ordered;
      }

  fetch_found-IsSound :
      (m : MemoryBlockStore) (key : String) (found : Option (List ℕ))
      → IsSound m
      → lookup key m.blocks ≡ found
      → IsSound (fetch_found m key found).1
  fetch_found-IsSound m key none valid e = valid
  fetch_found-IsSound m key (some bytes) valid e = refreshed-IsSound m key bytes valid e

  fetch_source-IsSound :
      (m : MemoryBlockStore) (source : BlockSource) → IsSound m → IsSound (fetch_source m source).1
  fetch_source-IsSound m (content_link codec cid) valid = valid
  fetch_source-IsSound m (digest_source digest) valid =
      fetch_found-IsSound m (cache_key digest) (lookup (cache_key digest) m.blocks) valid refl

-- The bytes of every entry have the digest of its key.
abbrev pub IsValid : Platform → MemoryBlockStore → Type 0
IsValid platform m = IsSound (IsKeyOf platform) m

-- The entries may be any bytes.
abbrev pub IsBounded : MemoryBlockStore → Type 0
IsBounded m = IsSound (λ key bytes. Unit) m

module _ (platform : Platform) where
  module _ (Own : String → List ℕ → Type 0) where
    -- What is copied is as long as what was hashed, and own to its key.
    abbrev pub IsOwned : List ℕ → List ℕ → HashAlgorithm → Type 0
    IsOwned bytes copied algorithm =
        (length copied ≡ length bytes)
        × ((digest : DigestRef)
            → create_digest platform bytes algorithm ≡ ok digest
            → Own (cache_key digest) copied)

    put_digest-IsSound :
        (m : MemoryBlockStore) (bytes copied : List ℕ) (algorithm : HashAlgorithm)
        (made : Result CaErrorCode DigestRef)
        → IsSound Own m
        → length bytes ≤ m.max_block_bytes
        → IsOwned bytes copied algorithm
        → create_digest platform bytes algorithm ≡ made
        → IsSound Own (put_digest m copied made).1
    put_digest-IsSound m bytes copied algorithm (err code) sound small owned e = sound
    put_digest-IsSound m bytes copied algorithm (ok digest) sound small (long, own) e =
        store_block-IsSound Own m copied (cache_key digest) (lookup (cache_key digest) m.blocks)
          sound (omega (arith, long, small)) (own digest e) refl

    pub put-IsSound :
        (m : MemoryBlockStore) (bytes copied : List ℕ) (algorithm : HashAlgorithm)
        → IsSound Own m
        → IsOwned bytes copied algorithm
        → IsSound Own (put platform m bytes copied algorithm).1
    unfolding put
    put-IsSound m bytes copied algorithm sound owned =
        elim (Bool-cases (ltb m.max_block_bytes (length bytes))) [
          | inl e ↦ rw e sound
          | inr e ↦ rw e (
              put_digest-IsSound m bytes copied algorithm (create_digest platform bytes algorithm)
                sound (ground (arith, e)) owned refl)
        ]

  pub same-IsOwned :
      (bytes : List ℕ) (algorithm : HashAlgorithm)
      → IsOwned (IsKeyOf platform) bytes bytes algorithm
  same-IsOwned bytes algorithm = (refl, λ digest made. (algorithm, digest, made, refl))

  -- Any sequence of calls: of a `put`, the bytes that are hashed and those that are copied then.
  pub data Call : Type 0 where
    puts : List ℕ → List ℕ → HashAlgorithm → Call
    removes : DigestRef → Call
    fetches : BlockRef → Call

  unfoldable pub call : MemoryBlockStore → Call → MemoryBlockStore
  unfolding put remove fetch_block
  call m (puts bytes copied algorithm) = (put platform m bytes copied algorithm).1
  call m (removes digest) = (remove m digest).1
  call m (fetches ref) = (fetch_block m ref).1

  unfoldable pub call_all : MemoryBlockStore → List Call → MemoryBlockStore
  call_all m [] = m
  call_all m (c ∷ rest) = call_all (call m c) rest

  -- No buffer changes its length while `put` waits for the digest.
  abbrev pub KeepLength : List Call → Type 0
  KeepLength [] = Unit
  KeepLength (puts bytes copied algorithm ∷ rest) = (length copied ≡ length bytes) × KeepLength rest
  KeepLength (removes digest ∷ rest) = KeepLength rest
  KeepLength (fetches ref ∷ rest) = KeepLength rest

  -- No buffer changes while `put` waits for the digest.
  abbrev pub KeepBytes : List Call → Type 0
  KeepBytes [] = Unit
  KeepBytes (puts bytes copied algorithm ∷ rest) = (bytes ≡ copied) × KeepBytes rest
  KeepBytes (removes digest ∷ rest) = KeepBytes rest
  KeepBytes (fetches ref ∷ rest) = KeepBytes rest

  module _ (Own : String → List ℕ → Type 0) where
    removes-IsSound :
        (m : MemoryBlockStore) (digest : DigestRef)
        → IsSound Own m
        → IsSound Own (call m (removes digest))
    unfolding call remove
    removes-IsSound m digest sound =
        remove_found-IsSound Own m (cache_key digest) (lookup (cache_key digest) m.blocks) sound
          refl

    fetches-IsSound :
        (m : MemoryBlockStore) (ref : BlockRef) → IsSound Own m → IsSound Own (call m (fetches ref))
    unfolding call fetch_block
    fetches-IsSound m ref sound = fetch_source-IsSound Own m ref.source sound

  -- However the cache is called, it stays within its budget, counts its bytes rightly and holds each
  -- key once, also where callers change the bytes of a buffer, but not its length, while `put` waits
  -- for the digest.
  pub call_all-IsBounded :
      (m : MemoryBlockStore) (calls : List Call)
      → KeepLength calls
      → IsBounded m
      → IsBounded (call_all m calls)
  unfolding call_all call
  call_all-IsBounded m [] kept sound = sound
  call_all-IsBounded m (puts bytes copied algorithm ∷ rest) (long, kept) sound =
      call_all-IsBounded (put platform m bytes copied algorithm).1 rest kept
        (put-IsSound (λ key b. Unit) m bytes copied algorithm sound (long, λ digest made. tt))
  call_all-IsBounded m (removes digest ∷ rest) kept sound =
      call_all-IsBounded (call m (removes digest)) rest kept
        (removes-IsSound (λ key b. Unit) m digest sound)
  call_all-IsBounded m (fetches ref ∷ rest) kept sound =
      call_all-IsBounded (call m (fetches ref)) rest kept
        (fetches-IsSound (λ key b. Unit) m ref sound)

  -- However the cache is called by callers that leave their buffers as they are while `put` waits for
  -- the digest, it stays within its budget, counts its bytes rightly, and holds each key once, over
  -- bytes whose digest it is.
  pub call_all-IsValid :
      (m : MemoryBlockStore) (calls : List Call)
      → KeepBytes calls
      → IsValid platform m
      → IsValid platform (call_all m calls)
  unfolding call_all call
  call_all-IsValid m [] kept valid = valid
  call_all-IsValid m (puts bytes copied algorithm ∷ rest) (same, kept) valid =
      call_all-IsValid (put platform m bytes copied algorithm).1 rest kept (
        put-IsSound (IsKeyOf platform) m bytes copied algorithm valid (
          subst (λ c. IsOwned (IsKeyOf platform) bytes c algorithm) same
            (same-IsOwned bytes algorithm)))
  call_all-IsValid m (removes digest ∷ rest) kept valid =
      call_all-IsValid (call m (removes digest)) rest kept
        (removes-IsSound (IsKeyOf platform) m digest valid)
  call_all-IsValid m (fetches ref ∷ rest) kept valid =
      call_all-IsValid (call m (fetches ref)) rest kept
        (fetches-IsSound (IsKeyOf platform) m ref valid)
