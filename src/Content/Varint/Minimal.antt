-- ===== src/Content/Varint/Minimal.antt =====
-- The reader of varint.ts accepts the minimal encoding only.
use local_first_p2p_app.Common.{
  ℕ, suc, zero, ◌+◌, ◌-◌, ◌*◌, ◌%◌, ◌/◌, ◌^◌, ◌≤◌, ◌<◌, ◌≡◌, refl, sym, ap, ◌∙◌, some, List, [],
  ◌∷◌, arith, drop, take, All, inl, inr, ◌⊎◌, lt→ltb, le→not-ltb,
}
use local_first_p2p_app.Content.Varint.{VarintRead, read_loop, read_unsigned_varint}
use local_first_p2p_app.Content.Varint.Canonical.{encode, encode_varint, whole}

-- A round of the loop that leads to a number ends on its byte or goes on after it.
read_loop-cases :
    (left i value shift byte : ℕ) (bytes : List ℕ) (r : VarintRead)
    → read_loop (suc left) i value shift (byte ∷ bytes) ≡ some r
    → (shift ≤ 49)
      × ((byte < 128)
            × (0 < i → 0 < byte)
            × (r.value ≡ value + byte % 128 * 2 ^ shift)
            × (r.bytes_read ≡ i + 1)
          ⊎ (128 ≤ byte)
            × (read_loop left (i + 1) (value + byte % 128 * 2 ^ shift) (shift + 7) bytes ≡ some r))
unfolding read_loop
read_loop-cases left i value shift byte bytes r h = ground (arith, h)

-- What a number `w` adds to the value from byte `i` on, and that its bytes are the minimal ones.
record Reads (most i value shift : ℕ) (bytes : List ℕ) (r : VarintRead) (w : ℕ) : Type 0 where
  adds : r.value ≡ value + w * 2 ^ shift
  minimal : take (r.bytes_read - i) bytes ≡ encode most w
  advances : i < r.bytes_read
  positive : 0 < i → 0 < w

Reads-last :
    (most i value shift byte : ℕ) (bytes : List ℕ) (r : VarintRead)
    → byte < 128
    → (0 < i → 0 < byte)
    → r.value ≡ value + byte % 128 * 2 ^ shift
    → r.bytes_read ≡ i + 1
    → Reads (suc most) i value shift (byte ∷ bytes) r byte
unfolding encode
Reads-last most i value shift byte bytes r small nonzero value_of count = record {
  adds = value_of ∙ ap (λ d. value + d * 2 ^ shift) (omega (arith, small));
  minimal = ap (λ k. take k (byte ∷ bytes)) one ∙ rw (lt→ltb byte 128 small) refl;
  advances = omega (arith, count);
  positive = nonzero;
}
  where
    one : r.bytes_read - i ≡ 1
    one = omega (arith, count)

low : (byte w : ℕ) → (byte % 128 + 128 * w) % 128 ≡ byte % 128
low byte w = omega arith

high_part : (byte w : ℕ) → (byte % 128 + 128 * w) / 128 ≡ w
high_part byte w = omega arith

Reads-next :
    (most i value shift byte w : ℕ) (bytes : List ℕ) (r : VarintRead)
    → 128 ≤ byte
    → byte < 256
    → Reads most (i + 1) (value + byte % 128 * 2 ^ shift) (shift + 7) bytes r w
    → Reads (suc most) i value shift (byte ∷ bytes) r (byte % 128 + 128 * w)
unfolding encode
Reads-next most i value shift byte w bytes r high is_byte later = record {
  adds =
      later.adds
      ∙ ap (λ d. value + d * 2 ^ shift + w * 2 ^ (shift + 7)) (sym (low byte w))
      ∙ ap (λ q. value + (byte % 128 + 128 * w) % 128 * 2 ^ shift + q * 2 ^ (shift + 7))
          (sym (high_part byte w))
      ∙ whole value (byte % 128 + 128 * w) shift;
  minimal =
      ap (λ k. take k (byte ∷ bytes)) more
      ∙ rw (le→not-ltb (byte % 128 + 128 * w) 128 (omega (arith, later.positive (omega arith)))) (
          ap (λ b. b ∷ take (r.bytes_read - (i + 1)) bytes) first
          ∙ ap (λ bs. (128 + (byte % 128 + 128 * w) % 128) ∷ bs)
              (later.minimal ∙ ap (encode most) (sym (high_part byte w))));
  advances = omega (arith, later.advances);
  positive = λ h. omega (arith, later.positive (omega arith));
}
  where
    more : r.bytes_read - i ≡ suc (r.bytes_read - (i + 1))
    more = omega (arith, later.advances)

    first : byte ≡ 128 + (byte % 128 + 128 * w) % 128
    first = omega (arith, high, is_byte)

read_loop-Reads :
    (most left i value shift : ℕ) (bytes : List ℕ) (r : VarintRead)
    → shift ≡ 7 * i
    → i + most ≡ 8
    → All (λ b. b < 256) bytes
    → read_loop left i value shift bytes ≡ some r
    → (w : ℕ) × Reads most i value shift bytes r w
unfolding read_loop
read_loop-Reads most zero i value shift bytes r width count small h = cc h
read_loop-Reads most (suc left) i value shift [] r width count small h = cc h
read_loop-Reads zero (suc left) i value shift (byte ∷ bytes) r width count small h =
    absurd (omega (arith, width, count, (read_loop-cases left i value shift byte bytes r h).0))
read_loop-Reads (suc most) (suc left) i value shift (byte ∷ bytes) r width count small h =
    elim (read_loop-cases left i value shift byte bytes r h).1 [
      | inl (low_byte, nonzero, value_of, read) ↦
          (byte, Reads-last most i value shift byte bytes r low_byte nonzero value_of read)
      | inr (high, more) ↦
          let (w, later) =
            read_loop-Reads most left (i + 1) (value + byte % 128 * 2 ^ shift) (shift + 7) bytes r
              (omega (arith, width)) (omega (arith, count)) small.1 more in
          (byte % 128 + 128 * w, Reads-next most i value shift byte w bytes r high small.0 later)
    ]

-- What the reader accepts at an offset is the minimal encoding of the number that it returns, byte
-- for byte: a number has no other accepted encoding.
pub read_unsigned_varint-minimal :
    (bytes : List ℕ) (offset : ℕ) (r : VarintRead)
    → All (λ b. b < 256) bytes
    → read_unsigned_varint bytes offset ≡ some r
    → take r.bytes_read (drop offset bytes) ≡ encode_varint r.value
unfolding read_unsigned_varint
read_unsigned_varint-minimal bytes offset r small h =
    let (w, reads) =
      read_loop-Reads 8 9 0 0 0 (drop offset bytes) r (omega arith) (omega arith)
        (drop-All offset bytes small) h in
    let value_of : w ≡ r.value = omega (arith, reads.adds) in
    let all_bytes : r.bytes_read ≡ r.bytes_read - 0 = omega arith in
    ap (λ k. take k (drop offset bytes)) all_bytes ∙ reads.minimal ∙ ap encode_varint value_of
  where
    drop-All : (n : ℕ) (bs : List ℕ) → All (λ b. b < 256) bs → All (λ b. b < 256) (drop n bs)
    drop-All zero bs a = a
    drop-All (suc n) [] a = a
    drop-All (suc n) (b ∷ bs) a = drop-All n bs a.1
