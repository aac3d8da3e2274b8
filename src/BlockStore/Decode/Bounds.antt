-- ===== src/BlockStore/Decode/Bounds.antt =====
-- The size of what decode.ts gives back.
use local_first_p2p_app.Common.{
  ℕ, ◌+◌, ◌*◌, ◌≤◌, ◌≡◌, ◌⊎◌, inl, inr, Option, none, some, List, arith, length, length-append, ltb,
  ◌++◌, not-ltb→le, Bool-cases,
}
use local_first_p2p_app.Common.Result.{ok, ◌>>=◌, >>=-eq-ok}
use local_first_p2p_app.Content.Digest.{DigestRef}
use local_first_p2p_app.Content.BlockRef.{
  CompressionAlgorithm, identity, zstd, gzip, br, CompressionDescriptor, BlockSource, check_sizes,
  validate_compression,
}
use local_first_p2p_app.BlockStore.Decode.{
  Decoders, ByteStream, done, broken, chunk, read_chunks, decompress, check_size, decode_with,
  decode_block_bytes,
}

-- The loop of reads never holds more than the bound, whatever the stream goes on to give.
pub read_chunks-le :
    (bound : ℕ) (out : List ℕ) (stream : ByteStream) (result : List ℕ)
    → length out ≤ bound
    → read_chunks bound out stream ≡ ok result
    → length result ≤ bound
unfolding read_chunks
read_chunks-le bound out done result small h = ground arith
read_chunks-le bound out broken result small h = cc
read_chunks-le bound out (chunk value more) result small h =
    elim (Bool-cases (ltb bound (length out + length value))) [
      | inl e ↦ ground (arith, e, h)
      | inr e ↦
          read_chunks-le bound (out ++ value) more result
            (omega (arith, not-ltb→le _ _ e, length-append {0} out value)) (ground (arith, e, h))
    ]

check_size-length :
    (declared : ℕ) (decoded out : List ℕ)
    → check_size declared decoded ≡ ok out
    → length out ≡ declared
check_size-length declared decoded out h = ground arith

sized :
    (decoders : Decoders) (algorithm : CompressionAlgorithm) (bytes : List ℕ) (declared : ℕ)
    (out : List ℕ)
    → (decompress decoders algorithm bytes declared >>= λ decoded. check_size declared decoded)
      ≡ ok out
    → (out ≡ bytes) ⊎ (length out ≡ declared)
sized decoders algorithm bytes declared out h =
    let (decoded, _, fits) =
      >>=-eq-ok (decompress decoders algorithm bytes declared)
        (λ decoded. check_size declared decoded) h in
    inr (check_size-length declared decoded out fits)

-- The bytes as they are, or exactly as many as declared.
decode_with-length :
    (decoders : Decoders) (bytes : List ℕ) (algorithm : CompressionAlgorithm) (declared : ℕ)
    (dictionary : Option DigestRef) (out : List ℕ)
    → decode_with decoders bytes algorithm declared dictionary ≡ ok out
    → (out ≡ bytes) ⊎ (length out ≡ declared)
decode_with-length decoders bytes identity declared dictionary out h = inl cc
decode_with-length decoders bytes zstd declared (some d) out h = cc
decode_with-length decoders bytes gzip declared (some d) out h = cc
decode_with-length decoders bytes br declared (some d) out h = cc
decode_with-length decoders bytes zstd declared none out h =
    sized decoders zstd bytes declared out h
decode_with-length decoders bytes gzip declared none out h =
    sized decoders gzip bytes declared out h
decode_with-length decoders bytes br declared none out h = sized decoders br bytes declared out h

check_sizes-ratio :
    (algorithm : CompressionAlgorithm) (encoded decoded : ℕ)
    → check_sizes algorithm encoded decoded ≡ ok tt
    → decoded ≤ encoded * 1_024
unfolding check_sizes
check_sizes-ratio identity encoded decoded h = ground arith
check_sizes-ratio zstd encoded decoded h = ground arith
check_sizes-ratio gzip encoded decoded h = ground arith
check_sizes-ratio br encoded decoded h = ground arith

-- A valid descriptor declares at most 1024 times the encoded size.
pub validate_compression-ratio :
    (c : CompressionDescriptor) (source : BlockSource)
    → validate_compression (some c) source ≡ ok tt
    → c.decoded_size ≤ c.encoded_size * 1_024
unfolding validate_compression
validate_compression-ratio c source h =
    ground (arith, check_sizes-ratio c.algorithm c.encoded_size c.decoded_size)

pub decode_block_bytes-length :
    (bytes : List ℕ) (c : CompressionDescriptor) (decoders : Decoders) (out : List ℕ)
    → decode_block_bytes bytes (some c) decoders ≡ ok out
    → (out ≡ bytes) ⊎ (length out ≡ c.decoded_size)
unfolding decode_block_bytes
decode_block_bytes-length bytes c decoders out h =
    decode_with-length decoders bytes c.algorithm c.decoded_size c.dictionary_ref out h
