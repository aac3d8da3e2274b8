-- ===== src/BlockStore/Memory.antt =====
-- packages/block-store/src/memory-fetcher.ts: the in-memory cache of blocks, least recently used
-- first. `put` waits for the digest before it reads or writes the cache, and copies the caller's buffer
-- only then: the model takes the bytes of the buffer at the call, which are hashed, and those at the
-- copy, which are stored. The cache is the one that `put` finds after the wait.
pub mod Entries
pub mod Cache
pub mod Reads
mod Tests
use Prim.Native.String.{◌++◌ as append}
use local_first_p2p_app.Common.{
  ℕ, ◌+◌, ◌-◌, String, Bool, true, false, not, Option, none, some, List, [], ◌∷◌, length, ltb,
  if◌then◌else◌, is_some, str_eq,
}
use local_first_p2p_app.Common.Dict.{Dict, lookup, insert, delete}
use local_first_p2p_app.Common.Result.{Result, err, ok, ◌>>◌, require}
use local_first_p2p_app.Content.Digest.{
  CaErrorCode, HashAlgorithm, sha_256, sha_512, blake3, DigestRef, Platform, create_digest,
}
use local_first_p2p_app.Content.BlockRef.{
  BlockSource, digest_source, content_link, BlockRef, max_block_byte_length,
}
use local_first_p2p_app.BlockStore.Errors.{
  BsErrorCode, bs_invalid_config, bs_byte_cap_exceeded, ThrownCode, bs_error, ca_error,
}
use local_first_p2p_app.BlockStore.Fetch.Attempt.{BlockFetchResult, fetched, not_found_result}
use local_first_p2p_app.BlockStore.Fetch.{or_else, is_between, default_max_block_bytes}

abbrev pub default_max_total_bytes : ℕ
default_max_total_bytes = 268_435_456

pub record MemoryBlockStoreConfig : Type 0 where
  pub id : Option String
  pub max_block_bytes : Option ℕ
  pub max_total_bytes : Option ℕ

pub record MemoryBlockStore : Type 0 where
  pub id : String
  pub max_block_bytes : ℕ
  pub max_total_bytes : ℕ
  pub blocks : Dict (List ℕ)
  pub total : ℕ

abbrev pub algorithm_name : HashAlgorithm → String
algorithm_name sha_256 = "sha-256"
algorithm_name sha_512 = "sha-512"
algorithm_name blake3 = "blake3"

unfoldable pub cache_key : DigestRef → String
cache_key ref = append (append (algorithm_name ref.algorithm) ":") ref.digest

-- The constructor of `MemoryBlockStore`.
unfoldable pub new_memory_block_store : MemoryBlockStoreConfig → Result BsErrorCode MemoryBlockStore
new_memory_block_store config =
    let id = or_else config.id "memory" in
    let max_block_bytes = or_else config.max_block_bytes default_max_block_bytes in
    let max_total_bytes = or_else config.max_total_bytes default_max_total_bytes in
    require (not (str_eq id "")) bs_invalid_config
    >> require (is_between 1 max_block_byte_length max_block_bytes) bs_invalid_config
    >> require (not (ltb max_total_bytes max_block_bytes)) bs_invalid_config
    >> ok (record {
      id = id;
      max_block_bytes = max_block_bytes;
      max_total_bytes = max_total_bytes;
      blocks = [];
      total = 0;
    })

-- The loop that makes room for `size` bytes: the blocks and the total that are left.
unfoldable pub evict : ℕ → ℕ → Dict (List ℕ) → ℕ → Dict (List ℕ) × ℕ
evict max_total size [] total = ([], total)
evict max_total size ((key, oldest) ∷ rest) total =
    let evicted = evict max_total size rest (total - length oldest) in
    if ltb max_total (total + size) then evicted else ((key, oldest) ∷ rest, total)

-- A block that is there goes to the end, as the one used last.
unfoldable pub refresh : String → List ℕ → Dict (List ℕ) → Dict (List ℕ)
refresh key bytes blocks = insert key bytes (delete key blocks)

-- `put`, once the digest is there.
abbrev pub store_block : MemoryBlockStore → List ℕ → String → Option (List ℕ) → MemoryBlockStore
store_block m bytes key (some existing) = record m { blocks = refresh key existing m.blocks }
store_block m bytes key none =
    let (blocks, total) = evict m.max_total_bytes (length bytes) m.blocks m.total in
    record m { blocks = insert key bytes blocks; total = total + length bytes }

abbrev pub put_digest :
    MemoryBlockStore
    → List ℕ
    → Result CaErrorCode DigestRef
    → Result ThrownCode DigestRef × MemoryBlockStore
put_digest m copied (err code) = (err (ca_error code), m)
put_digest m copied (ok digest) =
    let key = cache_key digest in (ok digest, store_block m copied key (lookup key m.blocks))

module _ (platform : Platform) where
  unfoldable pub put :
      MemoryBlockStore
      → List ℕ
      → List ℕ
      → HashAlgorithm
      → Result ThrownCode DigestRef × MemoryBlockStore
  put m bytes copied algorithm =
      if ltb m.max_block_bytes (length bytes)
      then (err (bs_error bs_byte_cap_exceeded), m)
      else put_digest m copied (create_digest platform bytes algorithm)

-- `delete`
abbrev pub remove_found : MemoryBlockStore → String → Option (List ℕ) → Bool × MemoryBlockStore
remove_found m key none = (false, m)
remove_found m key (some existing) =
    (true, record m { blocks = delete key m.blocks; total = m.total - length existing })

unfoldable pub remove : MemoryBlockStore → DigestRef → Bool × MemoryBlockStore
remove m digest = let key = cache_key digest in remove_found m key (lookup key m.blocks)

unfoldable pub has : MemoryBlockStore → DigestRef → Bool
has m digest = is_some (lookup (cache_key digest) m.blocks)

abbrev pub fetch_found :
    MemoryBlockStore → String → Option (List ℕ) → BlockFetchResult × MemoryBlockStore
fetch_found m key none = (not_found_result, m)
fetch_found m key (some bytes) =
    (fetched (some bytes), record m { blocks = refresh key bytes m.blocks })

abbrev pub fetch_source : MemoryBlockStore → BlockSource → BlockFetchResult × MemoryBlockStore
fetch_source m (content_link codec cid) = (not_found_result, m)
fetch_source m (digest_source digest) =
    let key = cache_key digest in fetch_found m key (lookup key m.blocks)

unfoldable pub fetch_block : MemoryBlockStore → BlockRef → BlockFetchResult × MemoryBlockStore
fetch_block m ref = fetch_source m ref.source
