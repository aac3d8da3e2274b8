-- ===== src/Common/Text.antt =====
-- JavaScript's view of a text: its UTF-16 code units, their number, order and white space.
use Prim.Native.Nat.{ℕ, ◌+◌, ◌-◌, ◌/◌, ◌%◌}
use Prim.Native.Char.{code}
use Prim.Native.String.{String}
use mathlib.Core.Path.{◌≡◌, refl}
use mathlib.Core.Bool.{Bool, true, false, ◌&&◌, ◌||◌}
use mathlib.Core.List.{List, [], ◌∷◌, ◌++◌}
use native.Mathlib.Omega.{arith}
use local_first_p2p_app.Common.Tests.{ltb, leb, ◌==◌, if◌then◌else◌}
use local_first_p2p_app.Common.Lists.{length}

-- One unit for a code point of the basic plane, a surrogate pair for any other.
abbrev pub units_of : ℕ → List ℕ
units_of c =
    if ltb c 0x10000
    then c ∷ []
    else (0xd800 + (c - 0x10000) / 0x400) ∷ (0xdc00 + (c - 0x10000) % 0x400) ∷ []

unfoldable pub units : String → List ℕ
units String.[] = []
units (String.◌∷◌ c s) = units_of (code c) ++ units s

-- `value.length`
unfoldable pub text_length : String → ℕ
unfolding units
text_length s = length (units s)

-- The lexicographic order of code units, which `<` and `sort()` use.
unfoldable pub units_lt : List ℕ → List ℕ → Bool
units_lt xs [] = false
units_lt [] (y ∷ ys) = true
units_lt (x ∷ xs) (y ∷ ys) =
    let rest = units_lt xs ys in if ltb x y then true else if ltb y x then false else rest

unfoldable pub text_lt : String → String → Bool
unfolding units units_lt
text_lt s t = units_lt (units s) (units t)

-- What `trim` takes away.
abbrev pub is_white : ℕ → Bool
is_white c =
    (leb 9 c && leb c 13)
    || c == 32
    || c == 0xa0
    || c == 0x1680
    || (leb 0x2000 c && leb c 0x200a)
    || c == 0x2028
    || c == 0x2029
    || c == 0x202f
    || c == 0x205f
    || c == 0x3000
    || c == 0xfeff

-- `value.trim().length === 0`
unfoldable pub is_blank : String → Bool
is_blank String.[] = true
is_blank (String.◌∷◌ c s) = is_white (code c) && is_blank s

pub units_lt_irrefl : (xs : List ℕ) → units_lt xs xs ≡ false
unfolding units_lt
units_lt_irrefl [] = refl
units_lt_irrefl (x ∷ xs) = ground (arith, units_lt_irrefl xs)

pub units_lt_trans :
    (xs ys zs : List ℕ) → units_lt xs ys ≡ true → units_lt ys zs ≡ true → units_lt xs zs ≡ true
unfolding units_lt
units_lt_trans xs [] zs h k = cc
units_lt_trans [] (y ∷ ys) [] h k = cc
units_lt_trans [] (y ∷ ys) (z ∷ zs) h k = refl
units_lt_trans (x ∷ xs) (y ∷ ys) [] h k = cc
units_lt_trans (x ∷ xs) (y ∷ ys) (z ∷ zs) h k = ground (arith, h, k, units_lt_trans xs ys zs)
