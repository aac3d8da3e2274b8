-- ===== src/Common/Result.antt =====
-- A computation that returns or throws, for functions whose errors carry a code.
use mathlib.Core.Path.{◌≡◌, refl}
use mathlib.Core.Bool.{Bool, true, false}
use mathlib.Core.Option.{Option, none, some}

pub data Result {ℓ} (E : Type 0) (A : Type ℓ) : Type ℓ where
  err : E → Result E A
  ok : A → Result E A

module _ {E : Type 0} where
  infixl 5 ◌>>=◌ ◌>>◌
  abbrev pub ◌>>=◌ {ℓ κ} : {X : Type ℓ} {Y : Type κ} → Result E X → (X → Result E Y) → Result E Y
  err code >>= next = err code
  ok x >>= next = next x

  abbrev pub ◌>>◌ {κ} : {Y : Type κ} → Result E (Unit {0}) → Result E Y → Result E Y
  first >> second = first >>= λ done. second

  -- Throws where the condition fails.
  abbrev pub require : Bool → E → Result E (Unit {0})
  require holds code = elim holds [ false ↦ err code | true ↦ ok tt ]

  abbrev pub from_option {ℓ} : {X : Type ℓ} → Option X → E → Result E X
  from_option (some x) code = ok x
  from_option none code = err code

  -- What returns in the end has returned a value at the first step.
  pub >>=-eq-ok {ℓ κ} :
      {X : Type ℓ} {Y : Type κ} (first : Result E X) (next : X → Result E Y) {y : Y}
      → (first >>= next) ≡ ok y
      → (x : X) × (first ≡ ok x) × (next x ≡ ok y)
  >>=-eq-ok (err code) next throws = cc
  >>=-eq-ok (ok x) next returns = (x, refl, returns)

  -- Two continuations that agree on the value that is returned.
  pub >>=-same {ℓ κ} :
      {X : Type ℓ} {Y : Type κ} (first : Result E X) (next next' : X → Result E Y)
      → ((x : X) → first ≡ ok x → next x ≡ next' x)
      → (first >>= next) ≡ (first >>= next')
  >>=-same (err code) next next' same = refl
  >>=-same (ok x) next next' same = same x refl

  pub >>-eq-ok {κ} :
      {Y : Type κ} (first : Result E (Unit {0})) (next : Result E Y) {y : Y}
      → (first >> next) ≡ ok y
      → (first ≡ ok tt) × (next ≡ ok y)
  >>-eq-ok (err code) next throws = cc
  >>-eq-ok (ok done) next returns = (refl, returns)

  -- What returns behind a condition has met it.
  pub require-eq-ok {κ} :
      {Y : Type κ} (holds : Bool) (code : E) (next : Result E Y) {y : Y}
      → (require holds code >> next) ≡ ok y
      → (holds ≡ true) × (next ≡ ok y)
  require-eq-ok false code next throws = cc
  require-eq-ok true code next returns = (refl, returns)
