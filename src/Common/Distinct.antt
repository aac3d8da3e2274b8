-- ===== src/Common/Distinct.antt =====
-- Lists of strings without repetition: membership and distinctness under the list operations.
use Prim.Native.Nat.{ℕ, zero, suc}
use Prim.Native.String.{String}
use mathlib.Core.Path.{◌≡◌, refl}
use mathlib.Core.Bool.{Bool, true, false, not, ◌&&◌, ◌||◌}
use mathlib.Core.List.{List, [], ◌∷◌, ◌++◌}
use native.Mathlib.Omega.{arith}
use text.Mathlib.Text.{◌==◌ as str_eq}
use text.Mathlib.TextEquality.{eq_iff}
use local_first_p2p_app.Common.Tests.{str_eq_sym}
use local_first_p2p_app.Common.Lists.{take, drop, keep, contains, IsDistinct}

abbrev pub differs : String → String → Bool
differs key k = not (str_eq k key)

pub contains-append :
    (xs ys : List String) (k : String) → contains (xs ++ ys) k ≡ (contains xs k || contains ys k)
contains-append [] ys k = refl
contains-append (x ∷ xs) ys k = ground (arith, contains-append xs ys k)

pub contains-keep-differs :
    (key : String) (xs : List String) (k : String)
    → contains (keep (differs key) xs) k ≡ (contains xs k && differs key k)
contains-keep-differs key [] k = refl
contains-keep-differs key (x ∷ xs) k =
    ground (arith, contains-keep-differs key xs k, eq_iff x k, eq_iff x key, eq_iff k key)

pub contains-take-drop :
    (n : ℕ) (xs : List String) (k : String)
    → contains xs k ≡ (contains (take n xs) k || contains (drop n xs) k)
contains-take-drop zero xs k = refl
contains-take-drop (suc n) [] k = refl
contains-take-drop (suc n) (x ∷ xs) k = ground (arith, contains-take-drop n xs k)

-- What is dropped is not kept.
pub take-disjoint :
    (n : ℕ) (xs : List String) (k : String)
    → IsDistinct xs
    → contains (take n xs) k ≡ true
    → contains (drop n xs) k ≡ false
take-disjoint zero xs k d h = ground arith
take-disjoint (suc n) [] k d h = refl
take-disjoint (suc n) (x ∷ xs) k d h =
    ground (arith, take-disjoint n xs k d.1, contains-take-drop n xs k, eq_iff x k)

pub contains-drop-false :
    (n : ℕ) (xs : List String) (k : String) → contains xs k ≡ false → contains (drop n xs) k ≡ false
contains-drop-false n xs k h = ground (arith, contains-take-drop n xs k)

pub IsDistinct-drop : (n : ℕ) (xs : List String) → IsDistinct xs → IsDistinct (drop n xs)
IsDistinct-drop zero xs d = d
IsDistinct-drop (suc n) [] d = d
IsDistinct-drop (suc n) (x ∷ xs) d = IsDistinct-drop n xs d.1

pub IsDistinct-keep :
    (key : String) (xs : List String) → IsDistinct xs → IsDistinct (keep (differs key) xs)
IsDistinct-keep key [] d = tt
IsDistinct-keep key (x ∷ xs) d =
    ground (arith, IsDistinct-keep key xs d.1, contains-keep-differs key xs x)

pub IsDistinct-append_last :
    (xs : List String) (k : String)
    → IsDistinct xs
    → contains xs k ≡ false
    → IsDistinct (xs ++ k ∷ [])
IsDistinct-append_last [] k d h = (refl, tt)
IsDistinct-append_last (x ∷ xs) k d h =
    ground (arith, IsDistinct-append_last xs k d.1, contains-append xs (k ∷ []) x, str_eq_sym x k)
