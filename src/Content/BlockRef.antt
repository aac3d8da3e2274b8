-- ===== src/Content/BlockRef.antt =====
-- packages/content-addressing/src/block-ref.ts: references to blocks. The input is a value of the
-- right shape, so that the checks of shape and of the parts of a digest or a link are left out; the
-- storage hints are counted only.

use local_first_p2p_app.Common.{
  ℕ, ◌*◌, String, Bool, true, false, not, Option, none, some, ltb, ◌==◌, str_eq,
}
use local_first_p2p_app.Common.Result.{Result, ok, ◌>>◌, require}
use local_first_p2p_app.Content.Digest.{
  CaErrorCode, ca_invalid_input, ca_invalid_byte_length, ca_missing_encryption_descriptor,
  ca_invalid_compression_descriptor, ca_unsafe_compression, ca_unsafe_dictionary_ref, DigestRef,
}

abbrev pub max_block_byte_length : ℕ
max_block_byte_length = 1_073_741_824

abbrev pub max_decoded_byte_length : ℕ
max_decoded_byte_length = 17_179_869_184

abbrev pub max_compression_ratio : ℕ
max_compression_ratio = 1_024

abbrev pub max_storage_hints : ℕ
max_storage_hints = 32

pub data EncryptionScheme : Type 0 where
  aes_256_gcm xchacha20_poly1305 mls_v1 lfp2p_envelope_v1 : EncryptionScheme

pub data CompressionAlgorithm : Type 0 where
  identity zstd gzip br : CompressionAlgorithm

pub data Privacy : Type 0 where
  public private : Privacy

pub record EncryptionDescriptor : Type 0 where
  pub scheme : EncryptionScheme
  pub key_ref : DigestRef

pub record CompressionDescriptor : Type 0 where
  pub algorithm : CompressionAlgorithm
  pub encoded_size : ℕ
  pub decoded_size : ℕ
  pub dictionary_ref : Option DigestRef

-- A content link is its codec and its identifier.
pub data BlockSource : Type 0 where
  digest_source : DigestRef → BlockSource
  content_link : String → String → BlockSource

pub record BlockRef : Type 0 where
  pub source : BlockSource
  pub byte_length : ℕ
  pub offset : ℕ
  pub privacy : Privacy
  pub encryption : Option EncryptionDescriptor
  pub compression : Option CompressionDescriptor
  pub storage_hints : ℕ

-- `privacy === 'private' && encryption === undefined` does not hold.
abbrev pub has_needed_encryption : Privacy → Option EncryptionDescriptor → Bool
has_needed_encryption private none = false
has_needed_encryption private (some encryption) = true
has_needed_encryption public encryption = true

-- The sizes that go with the algorithm. The quotient of two sizes this small is above the ratio in
-- binary64 exactly where it is in ℕ.
unfoldable pub check_sizes : CompressionAlgorithm → ℕ → ℕ → Result CaErrorCode (Unit {0})
check_sizes identity encoded decoded =
    require (encoded == decoded) ca_invalid_compression_descriptor
check_sizes _ encoded decoded =
    require (not (encoded == 0)) ca_invalid_compression_descriptor
    >> require (not (ltb (encoded * max_compression_ratio) decoded)) ca_unsafe_compression

-- The dictionary is not the block itself.
abbrev pub is_safe_dictionary : Option DigestRef → BlockSource → Bool
is_safe_dictionary none source = true
is_safe_dictionary (some dictionary) (digest_source own) = not (str_eq dictionary.digest own.digest)
is_safe_dictionary (some dictionary) (content_link codec cid) = true

unfoldable pub validate_compression :
    Option CompressionDescriptor → BlockSource → Result CaErrorCode (Unit {0})
validate_compression none source = ok tt
validate_compression (some c) source =
    require (not (ltb max_decoded_byte_length c.decoded_size)) ca_unsafe_compression
    >> check_sizes c.algorithm c.encoded_size c.decoded_size
    >> require (is_safe_dictionary c.dictionary_ref source) ca_unsafe_dictionary_ref

unfoldable pub check_block_ref : BlockRef → Result CaErrorCode (Unit {0})
check_block_ref ref =
    require (not (ltb max_block_byte_length ref.byte_length)) ca_invalid_byte_length
    >> require (has_needed_encryption ref.privacy ref.encryption) ca_missing_encryption_descriptor
    >> validate_compression ref.compression ref.source
    >> require (not (ltb max_storage_hints ref.storage_hints)) ca_invalid_input

unfoldable pub validate_block_ref : BlockRef → Result CaErrorCode BlockRef
validate_block_ref ref = check_block_ref ref >> ok ref
