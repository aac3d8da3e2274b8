-- ===== src/BlockStore/Decode.antt =====
-- packages/block-store/src/decode.ts: the bounded decoding of a block. The platform's inflater hands
-- over its output in chunks; the injected decoders and the inflater are parameters.
pub mod Bounds
use local_first_p2p_app.Common.{
  ℕ, ◌+◌, Option, none, some, List, [], ◌++◌, length, ltb, ◌==◌, if◌then◌else◌,
}
use local_first_p2p_app.Common.Result.{Result, err, ok, ◌>>=◌}
use local_first_p2p_app.Content.Digest.{DigestRef}
use local_first_p2p_app.Content.BlockRef.{
  CompressionAlgorithm, identity, zstd, gzip, br, CompressionDescriptor,
}
use local_first_p2p_app.BlockStore.Errors.{
  BsErrorCode, bs_decoded_size_exceeded, bs_decode_unsupported, bs_decode_failed,
}

-- The error is the code of a BlockStoreError, and `none` for any other.
abbrev pub BoundedDecoder : Type 0
BoundedDecoder = List ℕ → ℕ → Result (Option BsErrorCode) (List ℕ)

pub record DecoderMap : Type 0 where
  pub zstd_decoder : Option BoundedDecoder
  pub br_decoder : Option BoundedDecoder

-- What the reader of a DecompressionStream gives, one read after another.
pub data ByteStream : Type 0 where
  done : ByteStream
  broken : ByteStream
  chunk : List ℕ → ByteStream → ByteStream

pub record Decoders : Type 0 where
  pub injected : DecoderMap
  -- `none` without DecompressionStream, and where the stream cannot be set up
  pub inflate : Option (List ℕ → Option ByteStream)

-- The loop of reads: `out` is what has come so far, `total` long.
unfoldable pub read_chunks : ℕ → List ℕ → ByteStream → Result BsErrorCode (List ℕ)
read_chunks max_decoded_bytes out done = ok out
read_chunks max_decoded_bytes out broken = err bs_decode_failed
read_chunks max_decoded_bytes out (chunk value more) =
    let rest = read_chunks max_decoded_bytes (out ++ value) more in
    if ltb max_decoded_bytes (length out + length value) then err bs_decoded_size_exceeded else rest

abbrev pub read_stream : ℕ → Option ByteStream → Result BsErrorCode (List ℕ)
read_stream max_decoded_bytes none = err bs_decode_failed
read_stream max_decoded_bytes (some stream) = read_chunks max_decoded_bytes [] stream

abbrev pub gunzip_bounded :
    Option (List ℕ → Option ByteStream) → List ℕ → ℕ → Result BsErrorCode (List ℕ)
gunzip_bounded none bytes max_decoded_bytes = err bs_decode_unsupported
gunzip_bounded (some inflate) bytes max_decoded_bytes =
    read_stream max_decoded_bytes (inflate bytes)

abbrev pub keep_own_error : Result (Option BsErrorCode) (List ℕ) → Result BsErrorCode (List ℕ)
keep_own_error (ok decoded) = ok decoded
keep_own_error (err (some code)) = err code
keep_own_error (err none) = err bs_decode_failed

abbrev pub run_decoder : Option BoundedDecoder → List ℕ → ℕ → Result BsErrorCode (List ℕ)
run_decoder none bytes declared = err bs_decode_unsupported
run_decoder (some decoder) bytes declared = keep_own_error (decoder bytes declared)

-- `identity` does not get here: `decode_with` has handed the bytes back.
abbrev pub decompress : Decoders → CompressionAlgorithm → List ℕ → ℕ → Result BsErrorCode (List ℕ)
decompress decoders identity bytes declared = ok bytes
decompress decoders gzip bytes declared = gunzip_bounded decoders.inflate bytes declared
decompress decoders zstd bytes declared = run_decoder decoders.injected.zstd_decoder bytes declared
decompress decoders br bytes declared = run_decoder decoders.injected.br_decoder bytes declared

-- The output has exactly the size declared.
abbrev pub check_size : ℕ → List ℕ → Result BsErrorCode (List ℕ)
check_size declared decoded =
    if ltb declared (length decoded)
    then err bs_decoded_size_exceeded
    else if length decoded == declared
    then ok decoded
    else err bs_decode_failed

abbrev pub decode_with :
    Decoders → List ℕ → CompressionAlgorithm → ℕ → Option DigestRef → Result BsErrorCode (List ℕ)
decode_with decoders bytes identity declared dictionary = ok bytes
decode_with decoders bytes algorithm declared (some dictionary) = err bs_decode_unsupported
decode_with decoders bytes algorithm declared none =
    decompress decoders algorithm bytes declared >>= λ decoded. check_size declared decoded

unfoldable pub decode_block_bytes :
    List ℕ → Option CompressionDescriptor → Decoders → Result BsErrorCode (List ℕ)
decode_block_bytes bytes none decoders = ok bytes
decode_block_bytes bytes (some d) decoders =
    decode_with decoders bytes d.algorithm d.decoded_size d.dictionary_ref
