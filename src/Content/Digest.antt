-- ===== src/Content/Digest.antt =====
-- packages/content-addressing/src/digest.ts: digest references and their verification. The hash
-- functions and base64url are the platform's; `constantTimeStringEqual` is equality of texts. Of the
-- validation of a reference the model has the type only.
use local_first_p2p_app.Common.{ℕ, String, Bool, true, List, length, ◌==◌, if◌then◌else◌, str_eq}
use local_first_p2p_app.Common.Result.{Result, err, ok}

-- The error codes that the model gives.
pub data CaErrorCode : Type 0 where
  ca_invalid_input ca_unsupported_algorithm ca_wrong_digest_length : CaErrorCode
  ca_invalid_byte_length ca_missing_encryption_descriptor : CaErrorCode
  ca_invalid_compression_descriptor ca_unsafe_compression ca_unsafe_dictionary_ref : CaErrorCode

pub data HashAlgorithm : Type 0 where
  sha_256 sha_512 blake3 : HashAlgorithm

abbrev pub digest_raw_length : HashAlgorithm → ℕ
digest_raw_length sha_256 = 32
digest_raw_length sha_512 = 64
digest_raw_length blake3 = 32

abbrev pub is_computable : HashAlgorithm → Bool
is_computable blake3 = Bool.false
is_computable _ = true

pub record DigestRef : Type 0 where
  pub algorithm : HashAlgorithm
  pub digest : String

-- WebCrypto or node:crypto, and `Buffer` or `btoa`.
pub record Platform : Type 0 where
  pub hash : HashAlgorithm → List ℕ → List ℕ
  pub base64_url_encode : List ℕ → String

module _ (platform : Platform) where
  open platform use {hash, base64_url_encode}

  unfoldable pub create_digest : List ℕ → HashAlgorithm → Result CaErrorCode DigestRef
  create_digest bytes algorithm =
      if is_computable algorithm
      then if length (hash algorithm bytes) == digest_raw_length algorithm
        then ok
            (record { algorithm = algorithm; digest = base64_url_encode (hash algorithm bytes) })
        else err ca_wrong_digest_length
      else err ca_unsupported_algorithm

  abbrev pub same_digest : DigestRef → Result CaErrorCode DigestRef → Result CaErrorCode Bool
  same_digest expected (ok computed) = ok (str_eq computed.digest expected.digest)
  same_digest expected (err code) = err code

  unfoldable pub verify_digest : List ℕ → DigestRef → Result CaErrorCode Bool
  verify_digest bytes ref = same_digest ref (create_digest bytes ref.algorithm)
