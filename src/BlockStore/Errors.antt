-- ===== src/BlockStore/Errors.antt =====
-- packages/block-store/src/errors.ts: what the block store throws, its own codes and those that
-- packages/content-addressing throws through it.
use local_first_p2p_app.Common.{◌≡◌}
use local_first_p2p_app.Common.Result.{Result, err, ok}
use local_first_p2p_app.Content.Digest.{CaErrorCode}

pub data BsErrorCode : Type 0 where
  bs_invalid_input bs_invalid_config bs_byte_cap_exceeded bs_decoded_size_exceeded : BsErrorCode
  bs_length_mismatch bs_digest_mismatch bs_verification_unsupported : BsErrorCode
  bs_decode_unsupported bs_decode_failed bs_block_unavailable bs_aborted : BsErrorCode

pub data ThrownCode : Type 0 where
  bs_error : BsErrorCode → ThrownCode
  ca_error : CaErrorCode → ThrownCode

-- An error of one package, thrown through the store.
abbrev pub from_ca {ℓ} : {A : Type ℓ} → Result CaErrorCode A → Result ThrownCode A
from_ca (ok value) = ok value
from_ca (err code) = err (ca_error code)

abbrev pub from_bs {ℓ} : {A : Type ℓ} → Result BsErrorCode A → Result ThrownCode A
from_bs (ok value) = ok value
from_bs (err code) = err (bs_error code)

pub from_ca-eq-ok {ℓ} :
    {A : Type ℓ} (r : Result CaErrorCode A) (value : A) → from_ca r ≡ ok value → r ≡ ok value
from_ca-eq-ok (ok own) value h = cc
from_ca-eq-ok (err code) value h = cc

pub from_bs-eq-ok {ℓ} :
    {A : Type ℓ} (r : Result BsErrorCode A) (value : A) → from_bs r ≡ ok value → r ≡ ok value
from_bs-eq-ok (ok own) value h = cc
from_bs-eq-ok (err code) value h = cc
