-- ===== src/Content/Varint/Tests.antt =====
-- Runs of the reader of varint.ts, and its round trip at a concrete number.
use local_first_p2p_app.Content.Varint.Minimal.{read_unsigned_varint-minimal}
use local_first_p2p_app.Common.{
  take, drop, ℕ, List, ◌≡◌, refl, some, none, [], ◌∷◌, ◌++◌, arith, length,
}
use local_first_p2p_app.Content.Varint.{read_unsigned_varint, read_loop}
use local_first_p2p_app.Content.Varint.Canonical.{
  encode, encode_varint, read_unsigned_varint-encode_varint,
}

abbrev lead : List ℕ
lead = 1 ∷ []

-- 300 takes two bytes, and a byte of padding is refused.
reads :
    read_unsigned_varint (1 ∷ 172 ∷ 2 ∷ 7 ∷ []) 1 ≡ some (record { value = 300; bytes_read = 2 })
unfolding read_unsigned_varint read_loop
reads = refl

refuses_padding : read_unsigned_varint (172 ∷ 130 ∷ 0 ∷ []) 0 ≡ none
unfolding read_unsigned_varint read_loop
refuses_padding = refl

encodes : encode_varint 300 ≡ 172 ∷ 2 ∷ []
unfolding encode
encodes = refl

read_unsigned_varint-encode_varint_example :
    read_unsigned_varint (lead ++ (encode_varint 300 ++ 7 ∷ [])) (length lead)
    ≡ some (record { value = 300; bytes_read = length (encode_varint 300) })
read_unsigned_varint-encode_varint_example =
    read_unsigned_varint-encode_varint lead (7 ∷ []) 300 (omega arith)

read_unsigned_varint-minimal_example : take 2 (drop 1 (1 ∷ 172 ∷ 2 ∷ 7 ∷ [])) ≡ encode_varint 300
read_unsigned_varint-minimal_example =
    read_unsigned_varint-minimal (1 ∷ 172 ∷ 2 ∷ 7 ∷ []) 1 (record { value = 300; bytes_read = 2 })
      (omega arith) reads
