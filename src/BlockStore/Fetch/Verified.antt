-- ===== src/BlockStore/Fetch/Verified.antt =====
-- What `getBlock` of block-store.ts promises of the block that it returns.
use local_first_p2p_app.Common.{
  ℕ, ◌*◌, ◌≤◌, ◌≡◌, refl, ap, inl, inr, true, Option, none, some, List, arith, length, eq_iff,
}
use local_first_p2p_app.Common.Numbers.{Numbers}
use local_first_p2p_app.Common.Result.{ok, >>=-eq-ok, >>-eq-ok}
use local_first_p2p_app.Content.Digest.{DigestRef, Platform, create_digest, verify_digest}
use local_first_p2p_app.Content.BlockRef.{
  EncryptionDescriptor, CompressionDescriptor, BlockRef, digest_source, check_block_ref,
  validate_compression, validate_block_ref,
}
use local_first_p2p_app.BlockStore.Errors.{from_bs-eq-ok}
use local_first_p2p_app.BlockStore.Decode.{Decoders, decode_block_bytes}
use local_first_p2p_app.BlockStore.Decode.Bounds.{
  validate_compression-ratio, decode_block_bytes-length,
}
use local_first_p2p_app.BlockStore.Health.{Tracker}
use local_first_p2p_app.BlockStore.Fetch.{
  BlockStoreConfig, BlockStore, VerifiedBlock, new_block_store, check_caps, unpack, open_block,
  get_block,
}
use local_first_p2p_app.BlockStore.Fetch.Attempt.{World, FetchAttempt}
use local_first_p2p_app.BlockStore.Fetch.Prepare.{prepare-eq-ok, new_block_store-bounds}
use local_first_p2p_app.BlockStore.Fetch.Delivery.{get_block-Delivery}

pub verify_digest-true :
    (platform : Platform) (bytes : List ℕ) (ref : DigestRef)
    → verify_digest platform bytes ref ≡ ok true
    → platform.base64_url_encode (platform.hash ref.algorithm bytes) ≡ ref.digest
unfolding verify_digest create_digest
verify_digest-true platform bytes ref h =
    ground
      (arith, eq_iff (platform.base64_url_encode (platform.hash ref.algorithm bytes)) ref.digest)

module _ (decoders : Decoders) where
  -- The bytes as they came where they are encrypted, and decoded otherwise.
  abbrev pub Unpacked :
      Option EncryptionDescriptor → Option CompressionDescriptor → List ℕ → List ℕ → Type 0
  Unpacked (some encryption) compression bytes out = out ≡ bytes
  Unpacked none compression bytes out = decode_block_bytes bytes compression decoders ≡ ok out

  unpack-Unpacked :
      (encryption : Option EncryptionDescriptor) (compression : Option CompressionDescriptor)
      (bytes out : List ℕ)
      → unpack decoders encryption compression bytes ≡ ok out
      → Unpacked encryption compression bytes out
  unpack-Unpacked (some encryption) compression bytes out h = cc
  unpack-Unpacked none compression bytes out h = from_bs-eq-ok _ out h

  open_block-Unpacked :
      (ref : BlockRef) (bytes : List ℕ) (attempts : List FetchAttempt) (block : VerifiedBlock)
      → open_block decoders ref bytes attempts ≡ ok block
      → Unpacked ref.encryption ref.compression bytes block.bytes
  unfolding open_block
  open_block-Unpacked ref bytes attempts block h =
      let (out, unpacked, same) =
        >>=-eq-ok (unpack decoders ref.encryption ref.compression bytes) _ h in
      let same_bytes : out ≡ block.bytes = cc in
      unpack-Unpacked ref.encryption ref.compression bytes block.bytes cc

check_caps-within :
    (store : BlockStore) (ref : BlockRef)
    → check_caps store ref ≡ ok tt
    → ref.byte_length ≤ store.max_block_bytes
unfolding check_caps
check_caps-within store ref h = ground arith

check_caps-declared :
    (store : BlockStore) (ref : BlockRef) (c : CompressionDescriptor)
    → check_caps store ref ≡ ok tt
    → ref.encryption ≡ none
    → ref.compression ≡ some c
    → (c.encoded_size ≡ ref.byte_length) × (c.decoded_size ≤ store.max_decoded_bytes)
unfolding check_caps
check_caps-declared store ref c h clear compressed = ground arith

-- A block within its reference: at most 1024 times the bytes fetched, and within the store's cap.
module _ (store : BlockStore) (decoders : Decoders) (ref : BlockRef) (bytes out : List ℕ) where
  abbrev Within : Type 0
  Within = (length out ≤ ref.byte_length * 1_024) × (length out ≤ store.max_decoded_bytes)

  as_they_are :
      length bytes ≡ ref.byte_length
      → store.max_block_bytes ≤ store.max_decoded_bytes
      → check_caps store ref ≡ ok tt
      → out ≡ bytes
      → Within
  as_they_are sized ordered capped same =
      let fits = check_caps-within store ref capped in
      (omega (arith, ap length same), omega (arith, ap length same))

  Unpacked-Within :
      (encryption : Option EncryptionDescriptor) (compression : Option CompressionDescriptor)
      → ref.encryption ≡ encryption
      → ref.compression ≡ compression
      → length bytes ≡ ref.byte_length
      → store.max_block_bytes ≤ store.max_decoded_bytes
      → check_caps store ref ≡ ok tt
      → validate_compression compression ref.source ≡ ok tt
      → Unpacked decoders encryption compression bytes out
      → Within
  unfolding decode_block_bytes
  Unpacked-Within (some e) compression e1 e2 sized ordered capped valid opened =
      as_they_are sized ordered capped opened
  Unpacked-Within none none e1 e2 sized ordered capped valid opened =
      as_they_are sized ordered capped cc
  Unpacked-Within none (some c) e1 e2 sized ordered capped valid opened =
      let (encoded, decoded) = check_caps-declared store ref c capped e1 e2 in
      let ratio = validate_compression-ratio c ref.source valid in
      elim (decode_block_bytes-length bytes c decoders out opened) [
        | inl same ↦ as_they_are sized ordered capped same
        | inr declared ↦ (omega arith, omega arith)
      ]

validate_block_ref-compression :
    (ref : BlockRef)
    → validate_block_ref ref ≡ ok ref
    → validate_compression ref.compression ref.source ≡ ok tt
unfolding validate_block_ref check_block_ref
validate_block_ref-compression ref h =
    let (checked, same) = >>-eq-ok (check_block_ref ref) (ok ref) h in ground (arith, checked)

module _ (N : Numbers) (platform : Platform) (world : World N) (store : BlockStore)
    (decoders : Decoders) (ref : BlockRef) (block : VerifiedBlock)
    (positive : 1 ≤ store.retry.max_attempts_per_fetcher)
    (returned : (get_block N platform world store decoders ref).0 ≡ ok block) where
  -- Where a fetcher is tried at least once, a block that is returned comes from bytes of the
  -- reference's length, within the store's cap, whose hash encodes to the reference's digest: it is
  -- those bytes where the reference is encrypted, and their decoding otherwise. What the fetchers
  -- answer and other requests do does not matter.
  pub get_block-verified :
      (digest : DigestRef) × (bytes : List ℕ) × (ref.source ≡ digest_source digest)
      × (length bytes ≡ ref.byte_length)
      × (ref.byte_length ≤ store.max_block_bytes)
      × (platform.base64_url_encode (platform.hash digest.algorithm bytes) ≡ digest.digest)
      × Unpacked decoders ref.encryption ref.compression bytes block.bytes
  get_block-verified =
      let (digest, bytes, attempts, prepared, sized, hashed, opened) =
        get_block-Delivery N platform world store decoders ref block positive returned in
      let (quiet, valid, source, computable, capped) =
        prepare-eq-ok store ref (world.aborted 0) digest prepared in
      (
        digest,
        bytes,
        source,
        sized,
        check_caps-within store ref capped,
        verify_digest-true platform bytes digest hashed,
        open_block-Unpacked decoders ref bytes attempts block opened,
      )

  get_block-Within :
      store.max_block_bytes ≤ store.max_decoded_bytes
      → (length block.bytes ≤ ref.byte_length * 1_024)
        × (length block.bytes ≤ store.max_decoded_bytes)
  get_block-Within ordered =
      let (digest, bytes, attempts, prepared, sized, hashed, opened) =
        get_block-Delivery N platform world store decoders ref block positive returned in
      let (quiet, valid, source, computable, capped) =
        prepare-eq-ok store ref (world.aborted 0) digest prepared in
      Unpacked-Within store decoders ref bytes block.bytes ref.encryption ref.compression refl refl
        sized ordered capped (validate_block_ref-compression ref valid)
        (open_block-Unpacked decoders ref bytes attempts block opened)

-- From a store that the constructor has accepted, after whatever its health tracker has been through,
-- a block that is returned has at most 1024 times the bytes of its reference, and at most the store's
-- `maxDecodedBytes`.
pub get_block-size :
    (config : BlockStoreConfig) (made : BlockStore) (health : Tracker)
    → new_block_store config ≡ ok made
    → (N : Numbers) (platform : Platform) (world : World N) (decoders : Decoders) (ref : BlockRef)
      (block : VerifiedBlock)
    → (get_block N platform world (record made { health = health }) decoders ref).0 ≡ ok block
    → (length block.bytes ≤ ref.byte_length * 1_024) × (length block.bytes ≤ made.max_decoded_bytes)
get_block-size config made health accepted N platform world decoders ref block returned =
    let (positive, few, ordered) = new_block_store-bounds config made accepted in
    get_block-Within N platform world (record made { health = health }) decoders ref block positive
      returned ordered
