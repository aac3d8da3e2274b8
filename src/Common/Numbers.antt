-- ===== src/Common/Numbers.antt =====
-- JavaScript's finite numbers, which the language gives and the program only calls: the operations
-- are a parameter, and what the theorems use of IEEE 754 is a record of laws beside it.
use Prim.Native.Nat.{ℕ, suc, ◌+◌, ◌-◌, ◌*◌, ◌/◌}
use mathlib.Core.Path.{◌≡◌}
use mathlib.Core.Bool.{Bool, true, false, not, ◌&&◌}
use native.Mathlib.Omega.{arith}
use local_first_p2p_app.Common.Tests.{leb, if◌then◌else◌}

pub record Numbers : Type 1 where
  pub Num : Type 0
  pub of_ℕ : ℕ → Num
  pub neg : Num → Num
  pub add : Num → Num → Num
  pub sub : Num → Num → Num
  pub mul : Num → Num → Num
  pub div : Num → Num → Num
  -- `a <= b`
  pub le : Num → Num → Bool
  -- `Math.floor` of a number that is not negative
  pub floor : Num → ℕ

module _ (N : Numbers) where
  open N use {Num, of_ℕ, neg, sub, le}

  -- `a < b`; without NaN it is the negation of `b <= a`.
  abbrev pub lt : Num → Num → Bool
  lt a b = not (le b a)

  -- `a === 0`
  abbrev pub is_zero : Num → Bool
  is_zero a = le a (of_ℕ 0) && le (of_ℕ 0) a

  -- `Math.max`, `Math.min`, `Math.abs`
  abbrev pub max_num : Num → Num → Num
  max_num a b = if le a b then b else a

  abbrev pub min_num : Num → Num → Num
  min_num a b = if le a b then a else b

  abbrev pub abs : Num → Num
  abs a = if le (of_ℕ 0) a then a else neg a

  -- Laws of IEEE 754 comparison, negation and rounding on finite numbers.
  pub record NumberLaws : Type 0 where
    pub le_total : (a b : Num) → le a b ≡ false → le b a ≡ true
    pub le_trans : (a b c : Num) → le a b ≡ true → le b c ≡ true → le a c ≡ true
    pub neg-le-zero : (a : Num) → le (of_ℕ 0) a ≡ true → le (neg a) (of_ℕ 0) ≡ true
    pub zero-le-neg : (a : Num) → le a (of_ℕ 0) ≡ true → le (of_ℕ 0) (neg a) ≡ true
    pub neg-le-neg : (a b : Num) → le a b ≡ true → le (neg b) (neg a) ≡ true
    pub le-neg-neg : (a : Num) → (le (neg (neg a)) a ≡ true) × (le a (neg (neg a)) ≡ true)
    pub div-nonneg : (m n : ℕ) → le (of_ℕ 0) (N.div (of_ℕ m) (of_ℕ n)) ≡ true
    pub mul-nonneg :
        (a b : Num) → le (of_ℕ 0) a ≡ true → le (of_ℕ 0) b ≡ true → le (of_ℕ 0) (N.mul a b) ≡ true
    pub sub-le : (a b : Num) → le (of_ℕ 0) b ≡ true → le (sub a b) a ≡ true

-- The integers satisfy the laws, with truncated division.
pub data ℤ : Type 0 where
  pos : ℕ → ℤ
  negsuc : ℕ → ℤ

abbrev pub pos_part : ℤ → ℕ
pos_part (pos n) = n
pos_part (negsuc n) = 0

abbrev pub neg_part : ℤ → ℕ
neg_part (pos n) = 0
neg_part (negsuc n) = suc n

abbrev pub sub_ℕ : ℕ → ℕ → ℤ
sub_ℕ a b = if leb b a then pos (a - b) else negsuc (b - a - 1)

abbrev pub neg_ℤ : ℤ → ℤ
neg_ℤ a = sub_ℕ (neg_part a) (pos_part a)

abbrev pub add_ℤ : ℤ → ℤ → ℤ
add_ℤ a b = sub_ℕ (pos_part a + pos_part b) (neg_part a + neg_part b)

abbrev pub diff_ℤ : ℤ → ℤ → ℤ
diff_ℤ a b = sub_ℕ (pos_part a + neg_part b) (neg_part a + pos_part b)

abbrev pub mul_ℤ : ℤ → ℤ → ℤ
mul_ℤ a b =
    sub_ℕ (pos_part a * pos_part b + neg_part a * neg_part b)
      (pos_part a * neg_part b + neg_part a * pos_part b)

abbrev pub div_ℤ : ℤ → ℤ → ℤ
div_ℤ a b = sub_ℕ (pos_part a / pos_part b) (neg_part a / pos_part b)

abbrev pub leb_ℤ : ℤ → ℤ → Bool
leb_ℤ a b = leb (pos_part a + neg_part b) (pos_part b + neg_part a)

abbrev pub integers : Numbers
integers = record {
  Num = ℤ;
  of_ℕ = pos;
  neg = neg_ℤ;
  add = add_ℤ;
  sub = diff_ℤ;
  mul = mul_ℤ;
  div = div_ℤ;
  le = leb_ℤ;
  floor = pos_part;
}

mul_ℤ-nonneg :
    (a b : ℤ) → leb_ℤ (pos 0) a ≡ true → leb_ℤ (pos 0) b ≡ true → leb_ℤ (pos 0) (mul_ℤ a b) ≡ true
mul_ℤ-nonneg (pos a) (pos b) h k = ground arith
mul_ℤ-nonneg (pos a) (negsuc b) h k = ground arith
mul_ℤ-nonneg (negsuc a) b h k = ground arith

pub integer_laws : NumberLaws integers
integer_laws = record {
  le_total = λ a b h. ground arith;
  le_trans = λ a b c h k. ground arith;
  neg-le-zero = λ a h. ground arith;
  zero-le-neg = λ a h. ground arith;
  neg-le-neg = λ a b h. ground arith;
  le-neg-neg = λ a. (ground arith, ground arith);
  div-nonneg = λ m n. ground arith;
  mul-nonneg = mul_ℤ-nonneg;
  sub-le = λ a b h. ground arith;
}
