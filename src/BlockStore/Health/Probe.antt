-- ===== src/BlockStore/Health/Probe.antt =====
-- The half-open probe of health.ts: one at a time, and none during the cooldown.
use local_first_p2p_app.Common.{
  ℕ, ◌≤◌, ◌<◌, ◌≡◌, ◌≢◌, refl, sym, subst, ◌⊎◌, String, true, false, List, [], ◌∷◌, arith, All,
  if◌then◌else◌, str_eq, eq_iff,
}
use local_first_p2p_app.Common.Dict.{lookup-insert}
use local_first_p2p_app.BlockStore.Health.{
  BreakerState, Tracker, state_for, attempt, can_attempt, grants,
}

pub state_for-can_attempt :
    (t : Tracker) (id j : String) (now : ℕ)
    → state_for (can_attempt t j now).1 id
      ≡ (if str_eq j id then (attempt (state_for t j) now).1 else state_for t id)
unfolding can_attempt state_for
state_for-can_attempt t id j now =
    ground (arith, lookup-insert j id (attempt (state_for t j) now).1 t)

-- What one request does to the breaker of `id`.
module _ (id j : String) (t : Tracker) (now : ℕ) where
  abbrev before : BreakerState
  before = state_for t id

  abbrev next : BreakerState
  next = state_for (can_attempt t j now).1 id

  same-or-probe :
      before.open_until ≢ 0
      → (next ≡ before) ⊎ ((next.probing ≡ true) × (next.open_until ≡ before.open_until))
  unfolding attempt
  same-or-probe shut = ground (arith, state_for-can_attempt t id j now, eq_iff j id)

  probing-stays : before.open_until ≢ 0 → before.probing ≡ true → next ≡ before
  unfolding attempt
  probing-stays shut probing = ground (arith, state_for-can_attempt t id j now, eq_iff j id)

  early-stays : now < before.open_until → next ≡ before
  unfolding attempt
  early-stays early = ground (arith, state_for-can_attempt t id j now, eq_iff j id)

  -- A grant to `id` leaves its probe outstanding; there is none during a probe or the cooldown.
  granted-probing :
      before.open_until ≢ 0
      → (if str_eq j id then (can_attempt t j now).0 else false) ≡ true
      → (before.probing ≡ false)
        × (before.open_until ≤ now)
        × (next.probing ≡ true)
        × (next.open_until ≡ before.open_until)
  granted-probing shut granted =
      unfold attempt in ground (arith, state_for-can_attempt t id j now, granted_lem, eq_iff j id)
    where
      granted_lem : (can_attempt t j now).0 ≡ (attempt (state_for t j) now).0
      granted_lem = unfold can_attempt in refl

-- While a fetcher's breaker is open with a probe outstanding, nobody is let through.
pub probing-grants_none :
    (id : String) (t : Tracker) (asks : List (String × ℕ))
    → (state_for t id).open_until ≢ 0
    → (state_for t id).probing ≡ true
    → (grants id t asks).0 ≡ 0
unfolding grants
probing-grants_none id t [] shut probing = refl
probing-grants_none id t ((j, now) ∷ rest) shut probing =
    let same = probing-stays id j t now shut probing in
    ground (
      arith,
      probing,
      granted-probing id j t now shut,
      probing-grants_none id (can_attempt t j now).1 rest (rw same shut) (rw same probing),
    )

-- However many callers ask, for this fetcher or others, an open breaker lets at most one through
-- until an outcome is recorded.
pub open-one_probe :
    (id : String) (t : Tracker) (asks : List (String × ℕ))
    → (state_for t id).open_until ≢ 0
    → (grants id t asks).0 ≤ 1
unfolding grants
open-one_probe id t [] shut = omega arith
open-one_probe id t ((j, now) ∷ rest) shut =
    let shut' : (state_for (can_attempt t j now).1 id).open_until ≢ 0 =
      ground (arith, same-or-probe id j t now shut, shut) in
    let later = open-one_probe id (can_attempt t j now).1 rest shut' in
    ground (
      arith,
      later,
      granted-probing id j t now shut,
      probing-grants_none id (can_attempt t j now).1 rest shut',
    )

-- Before the cooldown ends an open breaker lets nobody through, however often it is asked.
cooldown-grants_none :
    (id : String) (t : Tracker) (asks : List (String × ℕ))
    → All (λ a. a.1 < (state_for t id).open_until) asks
    → (grants id t asks).0 ≡ 0
unfolding grants
cooldown-grants_none id t [] early = refl
cooldown-grants_none id t ((j, now) ∷ rest) (first, early) =
    let same = early-stays id j t now first in
    ground (
      arith,
      first,
      granted-probing id j t now (omega (arith, first)),
      cooldown-grants_none id (can_attempt t j now).1 rest
          (subst (λ s. All (λ a. a.1 < s.open_until) rest) (sym same) early),
    )
