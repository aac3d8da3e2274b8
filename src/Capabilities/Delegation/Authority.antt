-- ===== src/Capabilities/Delegation/Authority.antt =====
-- How far a delegated grant of packages/capabilities/src/delegation-graph.ts reaches
-- (validateDelegationStep, isDelegationPathValid, isCapabilityAuthorized).
use local_first_p2p_app.Common.{
  ℕ, suc, ◌≤◌, ◌+◌, ◌≡◌, refl, sym, ap, subst, ◌∙◌, String, true, Option, none, some, List, [], ◌∷◌,
  ◌++◌, arith, contains, str_eq, eq_iff, length, leb, All, inl, inr, Bool-cases, Option-cases,
}
use local_first_p2p_app.Common.Dict.{Dict}
use local_first_p2p_app.Capabilities.{CapabilityGrant, same_resource, same_scope}
use local_first_p2p_app.Capabilities.Delegation.{
  CapabilityDelegationGraph, create_path, both, starts_no_earlier, all_in, validate_delegation_step,
  validate_steps, validate_delegation_path, is_in_force, all_in_force, is_delegation_path_valid,
  is_capability_authorized,
}
use local_first_p2p_app.Capabilities.Delegation.Chains.{
  Proven, root, delegated, is_capability_authorized_iff,
}

all_in-contains :
    (xs ys : List String) (a : String)
    → all_in xs ys ≡ true
    → contains ys a ≡ true
    → contains xs a ≡ true
unfolding all_in
all_in-contains xs [] a h on = cc on
all_in-contains xs (y ∷ ys) a h on = elim (Bool-cases (str_eq y a)) [
  | inl same ↦ ap (contains xs) (sym ((eq_iff y a).0 same)) ∙ ground (arith, h)
  | inr differ ↦ all_in-contains xs ys a (ground (arith, h)) (ground (arith, on, differ))
]

module _ (parse : String → Option ℕ) where
  -- What the grants say without their caveats. What the holder of `given` may do, the holder of
  -- `source` could: the same resource in the same scope, no other action, no sooner, no later, and at
  -- least `levels` levels of delegation deeper.
  pub record Within (source : CapabilityGrant) (levels : ℕ) (given : CapabilityGrant) : Type 0 where
    pub resource : same_resource given.resource source.resource ≡ true
    pub scope : same_scope given.scope source.scope ≡ true
    pub actions : (a : String) → contains given.actions a ≡ true → contains source.actions a ≡ true
    pub start : starts_no_earlier parse source.not_before given.not_before ≡ true
    pub expiry : both leb (parse given.expires_at) (parse source.expires_at) ≡ true
    pub depth : given.delegation_depth + levels ≤ source.delegation_depth

  step-Within :
      (parent child : CapabilityGrant)
      → validate_delegation_step parse parent child ≡ true
      → Within parent 1 child
  unfolding validate_delegation_step
  step-Within parent child h = record {
    resource = ground (arith, h);
    scope = ground (arith, h);
    actions = λ a on. all_in-contains parent.actions child.actions a (ground (arith, h)) on;
    start = ground (arith, h);
    expiry = ground (arith, h);
    depth = ground (arith, h);
  }

  both_trans : (a b c : Option ℕ) → both leb a b ≡ true → both leb b c ≡ true → both leb a c ≡ true
  both_trans none b c p q = p
  both_trans (some a) none c p q = cc p
  both_trans (some a) (some b) none p q = q
  both_trans (some a) (some b) (some c) p q = ground (arith, p, q)

  starts_trans :
      (a b c : Option String)
      → starts_no_earlier parse a b ≡ true
      → starts_no_earlier parse b c ≡ true
      → starts_no_earlier parse a c ≡ true
  starts_trans none b c p q = refl
  starts_trans (some a) none c p q = cc p
  starts_trans (some a) (some b) none p q = q
  starts_trans (some a) (some b) (some c) p q = both_trans (parse a) (parse b) (parse c) p q

  Within-trans :
      (a b c : CapabilityGrant) (m n : ℕ) → Within a m b → Within b n c → Within a (m + n) c
  Within-trans a b c m n p q = record {
    resource = ground (
      arith,
      p.resource,
      q.resource,
      eq_iff c.resource.kind b.resource.kind,
      eq_iff c.resource.id b.resource.id,
    );
    scope =
        ground
          (arith, p.scope, q.scope, eq_iff c.scope.kind b.scope.kind, eq_iff c.scope.id b.scope.id);
    actions = λ x on. p.actions x (q.actions x on);
    start = starts_trans a.not_before b.not_before c.not_before p.start q.start;
    expiry =
        both_trans (parse c.expires_at) (parse b.expires_at) (parse a.expires_at) q.expiry p.expiry;
    depth = omega (arith, p.depth, q.depth);
  }

  -- The grants of a path, one level deeper each.
  abbrev pub Attenuates : CapabilityGrant → ℕ → List CapabilityGrant → Type 0
  Attenuates source levels [] = Unit
  Attenuates source levels (given ∷ rest) =
      Within source levels given × Attenuates source (suc levels) rest

  step-Attenuates :
      (a b : CapabilityGrant) (n : ℕ) (rest : List CapabilityGrant)
      → Within a 1 b
      → Attenuates b n rest
      → Attenuates a (suc n) rest
  step-Attenuates a b n [] w h = tt
  step-Attenuates a b n (c ∷ rest) w (p, h) =
      let next : 1 + n ≡ suc n = omega arith in
      (
        subst (λ k. Within a k c) next (Within-trans a b c 1 n w p),
        step-Attenuates a b (suc n) rest w h,
      )

  validate_steps-Attenuates :
      (source : CapabilityGrant) (rest : List CapabilityGrant)
      → validate_steps parse (source ∷ rest) ≡ true
      → Attenuates source 1 rest
  unfolding validate_steps
  validate_steps-Attenuates source [] h = tt
  validate_steps-Attenuates source (given ∷ rest) h =
      let w = step-Within source given (ground (arith, h)) in
      (
        w,
        step-Attenuates source given 1 rest w
            (validate_steps-Attenuates given rest (ground (arith, h))),
      )

  Attenuates-length :
      (source : CapabilityGrant) (n : ℕ) (rest : List CapabilityGrant)
      → n ≤ suc source.delegation_depth
      → Attenuates source n rest
      → length rest + n ≤ suc source.delegation_depth
  Attenuates-length source n [] enough h = omega (arith, enough)
  Attenuates-length source n (g ∷ rest) enough (w, h) =
      let ih = Attenuates-length source (suc n) rest (omega (arith, w.depth)) h in omega (arith, ih)

  Proven-root :
      (grants : Dict CapabilityGrant) (id : String) (proof : List CapabilityGrant)
      → Proven grants id proof
      → (source : CapabilityGrant) × (rest : List CapabilityGrant) × (proof ≡ source ∷ rest)
        × (source.proof_refs ≡ [])
  Proven-root grants id _ (root grant there bare) = (grant, [], refl, bare)
  Proven-root grants id _ (delegated {chain = up} grant parent there is_parent p) =
      let (source, rest, e, bare) = Proven-root grants parent up p in
      (source, rest ++ grant ∷ [], ap (λ xs. xs ++ grant ∷ []) e, bare)

  module _ (graph : CapabilityDelegationGraph) (instant : ℕ) where
    -- The checks of one grant by itself: expiry, start and revocations.
    abbrev pub InForce : CapabilityGrant → Type 0
    InForce grant = is_in_force parse graph instant grant ≡ true

    all_in_force-All :
        (grants : List CapabilityGrant)
        → all_in_force parse graph instant grants ≡ true
        → All InForce grants
    unfolding all_in_force
    all_in_force-All [] h = tt
    all_in_force-All (g ∷ rest) h = (ground (arith, h), all_in_force-All rest (ground (arith, h)))

  valid_parts :
      (graph : CapabilityDelegationGraph) (proof : List CapabilityGrant) (now : String)
      → is_delegation_path_valid parse graph (create_path proof) now ≡ true
      → (validate_steps parse proof ≡ true)
        × (instant : ℕ) × (parse now ≡ some instant)
        × (all_in_force parse graph instant proof ≡ true)
  unfolding is_delegation_path_valid validate_delegation_path create_path
  valid_parts graph proof now h = elim (Option-cases (parse now)) [
    | inl absent ↦ let h1 = rw absent at h in ground (arith, h1)
    | inr (instant, there) ↦
        let h1 = rw there at h in (ground (arith, h1), instant, there, ground (arith, h1))
  ]

  -- Resource, scope, actions and time of a grant only shrink on its way from one without proofs; of the
  -- caveats nothing is said. If a capability is authorized, a proof of it starts with a grant without
  -- proofs; each further grant is for the same resource in the same scope, has no action that the first
  -- has not, starts no earlier, expires no later and has a delegation depth that is lower by its place
  -- in the proof, so that there are at most as many of them as the first one's depth. All are in force
  -- at that time: started, not expired, and not revoked by their issuers.
  pub authorized-Attenuates :
      (graph : CapabilityDelegationGraph) (id now : String)
      → is_capability_authorized parse graph id now ≡ true
      → (source : CapabilityGrant) × (rest : List CapabilityGrant) × (instant : ℕ) × Proven
          graph.grants id
          (source ∷ rest)
        × (source.proof_refs ≡ [])
        × Attenuates source 1 rest
        × (length rest ≤ source.delegation_depth)
        × (parse now ≡ some instant)
        × All (InForce graph instant) (source ∷ rest)
  authorized-Attenuates graph id now h =
      let (_, proof, proven, good) = (is_capability_authorized_iff parse graph now id).0 h in
      let (source, rest, e, bare) = Proven-root graph.grants id proof proven in
      let (steps, instant, at, force) = valid_parts graph proof now good in
      let shrinks =
        validate_steps-Attenuates source rest
          (subst (λ xs. validate_steps parse xs ≡ true) e steps) in
      let long = Attenuates-length source 1 rest (omega arith) shrinks in
      (
        source,
        rest,
        instant,
        subst (Proven graph.grants id) e proven,
        bare,
        shrinks,
        omega (arith, long),
        at,
        all_in_force-All graph instant (source ∷ rest)
            (subst (λ xs. all_in_force parse graph instant xs ≡ true) e force),
      )
