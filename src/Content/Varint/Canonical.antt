-- ===== src/Content/Varint/Canonical.antt =====
-- The reader of varint.ts against the minimal encoding that multiformats describe.
use local_first_p2p_app.Common.{
  ℕ, suc, zero, ◌+◌, ◌*◌, ◌%◌, ◌/◌, ◌^◌, ◌≤◌, ◌<◌, ◌≡◌, refl, sym, ap, ◌∙◌, some, List, [], ◌∷◌,
  ◌++◌, arith, ltb, ltb→lt, not-ltb→le, Bool-cases, inl, inr, if◌then◌else◌, drop, length,
}
use native.Mathlib.Omega.{pow_step}
use native.Mathlib.Nat.{mul_assoc, mul_comm, add-mul, mod-add-div, mul-le-mul_right}
use local_first_p2p_app.Content.Varint.{read_loop, read_unsigned_varint, max_safe_integer}

-- The minimal encoding: seven bits to a byte, the lowest first, and the top bit on all but the last.
-- The first argument bounds the number of bytes.
unfoldable pub encode : ℕ → ℕ → List ℕ
encode zero n = []
encode (suc most) n =
    let rest = encode most (n / 128) in if ltb n 128 then n ∷ [] else (128 + n % 128) ∷ rest

-- Eight bytes are enough for every safe integer.
abbrev pub encode_varint : ℕ → List ℕ
encode_varint n = encode 8 n

split-digits : (n p : ℕ) → n % 128 * p + n / 128 * (p * 128) ≡ n * p
split-digits n p =
    ap (λ x. n % 128 * p + x)
      (sym (mul_assoc (n / 128) p 128)
        ∙ mul_comm (n / 128 * p) 128
        ∙ sym (mul_assoc 128 (n / 128) p))
    ∙ sym (add-mul (n % 128) (128 * (n / 128)) p)
    ∙ ap (λ x. x * p) (mod-add-div n 128)

pow-next : (s : ℕ) → 2 ^ (s + 7) ≡ 2 ^ s * 128
pow-next s =
    ap (λ k. 2 ^ k) seven
    ∙ omega (
      arith,
      pow_step 2 s,
      pow_step 2 (suc s),
      pow_step 2 (suc (suc s)),
      pow_step 2 (suc (suc (suc s))),
      pow_step 2 (suc (suc (suc (suc s)))),
      pow_step 2 (suc (suc (suc (suc (suc s))))),
      pow_step 2 (suc (suc (suc (suc (suc (suc s)))))),
    )
  where
    seven : s + 7 ≡ suc (suc (suc (suc (suc (suc (suc s))))))
    seven = omega arith

pub whole :
    (value n shift : ℕ)
    → value + n % 128 * 2 ^ shift + n / 128 * 2 ^ (shift + 7) ≡ value + n * 2 ^ shift
whole value n shift = rw (pow-next shift) (omega (arith, split-digits n (2 ^ shift)))

mod-le : (n : ℕ) → n % 128 ≤ n
mod-le n = omega arith

-- One round of the loop: the last byte, and one with a successor.
read_loop-last :
    (left i value shift n : ℕ) (rest : List ℕ)
    → shift ≤ 49
    → n < 128
    → value + n * 2 ^ shift ≤ max_safe_integer
    → (0 < i → 0 < n)
    → read_loop (suc left) i value shift (n ∷ rest)
      ≡ some (record { value = value + n * 2 ^ shift; bytes_read = i + 1 })
unfolding read_loop
read_loop-last left i value shift n rest width small safe positive =
    let digit : n % 128 ≡ n = omega (arith, small) in
    rw digit (ground (arith, width, small, safe, positive))

read_loop-next :
    (left i value shift d : ℕ) (rest : List ℕ)
    → shift ≤ 49
    → d < 128
    → value + d * 2 ^ shift ≤ max_safe_integer
    → read_loop (suc left) i value shift ((128 + d) ∷ rest)
      ≡ read_loop left (i + 1) (value + d * 2 ^ shift) (shift + 7) rest
unfolding read_loop
read_loop-next left i value shift d rest width small safe =
    let digit : (128 + d) % 128 ≡ d = omega (arith, small) in
    rw digit (ground (arith, width, small, safe))

read_loop-encode :
    (most i value shift left n : ℕ) (rest : List ℕ)
    → shift ≡ 7 * i
    → i + most ≡ 8
    → i + left ≡ 9
    → n < 128 ^ most
    → value + n * 2 ^ shift ≤ max_safe_integer
    → (0 < i → 0 < n)
    → read_loop left i value shift (encode most n ++ rest)
      ≡ some (record { value = value + n * 2 ^ shift; bytes_read = i + length (encode most n) })
unfolding read_loop encode
read_loop-encode zero i value shift left n rest width count room small safe positive =
    ground (arith, width, count, small, positive)
read_loop-encode (suc most) i value shift zero n rest width count room small safe positive =
    ground (arith, count, room)
read_loop-encode (suc most) i value shift (suc left) n rest width count room small safe positive =
    let tail = encode most (n / 128) in
    let bytes : i + 1 + length tail ≡ i + length ((128 + n % 128) ∷ tail) = omega arith in
    elim (Bool-cases (ltb n 128)) [
      | inl below ↦ rw below (
          read_loop-last left i value shift n rest (omega (arith, width, count))
            (ltb→lt n 128 below) safe positive)
      | inr above ↦ rw above (
          read_loop-next left i value shift (n % 128) (tail ++ rest) (omega (arith, width, count))
            (omega arith) (omega (arith, safe, mul-le-mul_right (2 ^ shift) (mod-le n)))
          ∙ read_loop-encode most (i + 1) (value + n % 128 * 2 ^ shift) (shift + 7) left (n / 128)
              rest (omega (arith, width)) (omega (arith, count)) (omega (arith, room))
              (omega (arith, small, pow_step 128 most)) (omega (arith, safe, whole value n shift))
              (λ h. omega (arith, not-ltb→le n 128 above))
          ∙ cc (whole value n shift, bytes))
    ]

-- Reading the minimal encoding of a safe integer, at any offset and whatever follows it, gives that
-- integer back, and the number of bytes that the encoding has.
pub read_unsigned_varint-encode_varint :
    (before rest : List ℕ) (n : ℕ)
    → n ≤ max_safe_integer
    → read_unsigned_varint (before ++ (encode_varint n ++ rest)) (length before)
      ≡ some (record { value = n; bytes_read = length (encode_varint n) })
unfolding read_unsigned_varint
read_unsigned_varint-encode_varint before rest n safe =
    ap (read_loop 9 0 0 0) (drop-before before (encode_varint n ++ rest))
    ∙ (read_loop-encode 8 0 0 0 9 n rest (omega arith) (omega arith) (omega arith)
          (omega (arith, safe)) (omega (arith, safe)) (λ h. omega (arith, h))
        ∙ cc (zero_plus, zero_length))
  where
    zero_plus : 0 + n * 2 ^ 0 ≡ n
    zero_plus = omega arith

    zero_length : 0 + length (encode_varint n) ≡ length (encode_varint n)
    zero_length = omega arith

    drop-before : (xs ys : List ℕ) → drop (length xs) (xs ++ ys) ≡ ys
    drop-before [] ys = refl
    drop-before (x ∷ xs) ys = ground (arith, drop-before xs ys)
