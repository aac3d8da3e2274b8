-- ===== src/BlockStore/Fetch/Prepare.antt =====
-- The checks of `getBlock` in block-store.ts that come before any fetch, and its configuration.
use local_first_p2p_app.Common.{◌≤◌, ◌≡◌, Bool, true, false, not, arith}
use local_first_p2p_app.Common.Result.{ok, ◌>>◌, require, require-eq-ok, >>-eq-ok, >>=-eq-ok}
use local_first_p2p_app.Content.Digest.{DigestRef, is_computable}
use local_first_p2p_app.Content.BlockRef.{
  BlockSource, digest_source, content_link, BlockRef, check_block_ref, validate_block_ref,
}
use local_first_p2p_app.BlockStore.Errors.{
  bs_aborted, bs_error, from_ca, from_bs, from_ca-eq-ok, from_bs-eq-ok,
}
use local_first_p2p_app.BlockStore.Fetch.{
  BlockStoreConfig, BlockStore, new_block_store, verifiable_digest, check_caps, prepare,
}

pub validate_block_ref-same :
    (ref valid : BlockRef) → validate_block_ref ref ≡ ok valid → valid ≡ ref
unfolding validate_block_ref
validate_block_ref-same ref valid h =
    let (checked, same) = >>-eq-ok (check_block_ref ref) (ok ref) h in cc

verifiable_digest-source :
    (source : BlockSource) (digest : DigestRef)
    → verifiable_digest source ≡ ok digest
    → (source ≡ digest_source digest) × (is_computable digest.algorithm ≡ true)
verifiable_digest-source (content_link codec cid) digest h = cc
verifiable_digest-source (digest_source own) digest h = ground arith

-- What has passed the checks: a valid reference by digest within the caps, and no abort.
pub prepare-eq-ok :
    (store : BlockStore) (ref : BlockRef) (is_aborted : Bool) (digest : DigestRef)
    → prepare store ref is_aborted ≡ ok digest
    → (is_aborted ≡ false)
      × (validate_block_ref ref ≡ ok ref)
      × (ref.source ≡ digest_source digest)
      × (is_computable digest.algorithm ≡ true)
      × (check_caps store ref ≡ ok tt)
unfolding prepare
prepare-eq-ok store ref is_aborted digest h =
    let (valid, first, rest) =
      >>=-eq-ok (require (not is_aborted) (bs_error bs_aborted) >> from_ca (validate_block_ref ref))
        _ h in
    let (quiet, checked) = require-eq-ok (not is_aborted) _ _ first in
    let validated = from_ca-eq-ok _ _ checked in
    let same = validate_block_ref-same ref valid validated in
    let (own, sourced, capped) = >>=-eq-ok (from_bs (verifiable_digest valid.source)) _ rest in
    let source = verifiable_digest-source valid.source own (from_bs-eq-ok _ _ sourced) in
    let (caps, own_is) = >>-eq-ok (from_bs (check_caps store valid)) (ok own) capped in
    let within = from_bs-eq-ok (check_caps store valid) tt caps in
    (ground (arith, quiet), cc, cc, cc, cc)

pub new_block_store-bounds :
    (config : BlockStoreConfig) (store : BlockStore)
    → new_block_store config ≡ ok store
    → (1 ≤ store.retry.max_attempts_per_fetcher)
      × (store.retry.max_attempts_per_fetcher ≤ 10)
      × (store.max_block_bytes ≤ store.max_decoded_bytes)
unfolding new_block_store
new_block_store-bounds config store h = ground arith
