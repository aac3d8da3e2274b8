-- ===== src/Common/Dict.antt =====
-- A JavaScript `Record<string, V>` or `Map<string, V>` as an association list in insertion order:
-- setting a key that is there keeps its place, a new key goes to the end.
use Prim.Native.String.{String}
use mathlib.Core.Path.{◌≡◌, refl}
use mathlib.Core.Option.{Option, none, some}
use mathlib.Core.List.{List, [], ◌∷◌}
use native.Mathlib.Omega.{arith}
use text.Mathlib.Text.{◌==◌ as str_eq}
use text.Mathlib.TextEquality.{eq_iff}
use local_first_p2p_app.Common.Tests.{if◌then◌else◌}

abbrev pub Dict {ℓ} : Type ℓ → Type ℓ
Dict V = List (String × V)

module _ {ℓ} {V : Type ℓ} where
  unfoldable pub lookup : String → Dict V → Option V
  lookup key [] = none
  lookup key ((j, held) ∷ more) = if str_eq j key then some held else lookup key more

  unfoldable pub insert : String → V → Dict V → Dict V
  insert key value [] = (key, value) ∷ []
  insert key value ((j, held) ∷ more) =
      let rest = insert key value more in
      if str_eq j key then (j, value) ∷ more else (j, held) ∷ rest

  unfoldable pub delete : String → Dict V → Dict V
  delete key [] = []
  delete key ((j, held) ∷ more) =
      let rest = delete key more in if str_eq j key then rest else (j, held) ∷ rest

  -- What a setting and a removal do to every key.
  pub lookup-insert :
      (set asked : String) (value : V) (dict : Dict V)
      → lookup asked (insert set value dict)
        ≡ (if str_eq set asked then some value else lookup asked dict)
  unfolding insert lookup
  lookup-insert set asked value [] = refl
  lookup-insert set asked value ((j, held) ∷ more) =
      let ih = lookup-insert set asked value more in
      ground (arith, ih, eq_iff j set, eq_iff j asked, eq_iff set asked)

  pub lookup-delete :
      (gone asked : String) (dict : Dict V)
      → lookup asked (delete gone dict) ≡ (if str_eq gone asked then none else lookup asked dict)
  unfolding delete lookup
  lookup-delete gone asked [] = ground arith
  lookup-delete gone asked ((j, held) ∷ more) =
      let ih = lookup-delete gone asked more in
      ground (arith, ih, eq_iff j gone, eq_iff j asked, eq_iff gone asked)

  pub lookup-empty : (key : String) → lookup key [] ≡ none
  unfolding lookup
  lookup-empty key = refl
