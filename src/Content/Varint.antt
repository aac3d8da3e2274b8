-- ===== src/Content/Varint.antt =====
-- packages/content-addressing/src/varint.ts: reading an unsigned varint from bytes. A byte is a number
-- below 256, so that `byte & 0x7f` is `byte % 128` and the top bit is clear below 128; a thrown
-- CA_INVALID_CID is `none`. The sum is a double: while it is safe it is exact, and one that is not
-- safe is not rounded to one that is.
pub mod Canonical
pub mod Minimal
mod Tests
use local_first_p2p_app.Common.{
  ℕ, suc, zero, ◌+◌, ◌*◌, ◌%◌, ◌/◌, ◌^◌, Option, none, some, List, [], ◌∷◌, ◌&&◌, ◌==◌, ltb, leb,
  if◌then◌else◌, drop,
}

abbrev pub max_varint_bytes : ℕ
max_varint_bytes = 9

abbrev pub max_safe_integer : ℕ
max_safe_integer = 9_007_199_254_740_991

pub record VarintRead : Type 0 where
  pub value : ℕ
  pub bytes_read : ℕ

-- The loop from byte `i` on, with `left` rounds to go and the bytes from its position on.
unfoldable pub read_loop : ℕ → ℕ → ℕ → ℕ → List ℕ → Option VarintRead
read_loop zero i value shift bytes = none
read_loop (suc left) i value shift [] = none
read_loop (suc left) i value shift (byte ∷ bytes) =
    let part = byte % 128 in
    let sum = value + part * 2 ^ shift in
    let more = read_loop left (i + 1) sum (shift + 7) bytes in
    if ltb 49 shift
    then none
    else if ltb max_safe_integer sum
    then none
    else if leb 128 byte
    then more
    else if ltb 0 i && part == 0
    then none
    else some (record { value = sum; bytes_read = i + 1 })

unfoldable pub read_unsigned_varint : List ℕ → ℕ → Option VarintRead
read_unsigned_varint bytes offset = read_loop max_varint_bytes 0 0 0 (drop offset bytes)
