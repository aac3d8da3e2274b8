-- ===== src/Capabilities/Evaluate/Decisions.antt =====
-- When packages/capabilities/src/evaluate.ts allows an invocation.
use local_first_p2p_app.Common.{
  ℕ, ◌≤◌, ◌≡◌, ◌≢◌, ◌↔◌, refl, String, Bool, true, false, Option, none, some, List, [], ◌∷◌, arith,
  leb, contains, eq_iff, inl, inr, Bool-cases, Option-cases, All,
}
use local_first_p2p_app.Capabilities.{CapabilityCaveat, CapabilityProofRef, CapabilityGrant}
use local_first_p2p_app.Capabilities.Evaluate.{
  CapabilityInvocation, CapabilityRevocation, EvaluateCapabilityInvocationInput, allow,
  max_safe_date_ms, failing, conditions, is_listed, is_allowed, is_revoked, all_verified, has_ended,
  has_ended_if_any, is_early_if_any, evaluate_caveat, all_caveats, reasons_of, decide, evaluate_at,
  evaluate_capability_invocation,
}

failing-All : (cs : List (Bool × String)) → failing cs ≡ [] → All (λ c. c.0 ≡ true) cs
unfolding failing
failing-All [] h = tt
failing-All ((true, reason) ∷ cs) h = (refl, failing-All cs h)
failing-All ((false, reason) ∷ cs) h = cc h

All-failing : (cs : List (Bool × String)) → All (λ c. c.0 ≡ true) cs → failing cs ≡ []
unfolding failing
All-failing [] h = refl
All-failing ((true, reason) ∷ cs) (_, h) = All-failing cs h
All-failing ((false, reason) ∷ cs) (no_c, h) = cc no_c

revoked-All :
    (grant : CapabilityGrant) (rs : List CapabilityRevocation)
    → is_revoked grant rs ≡ false
    → All (λ r. r.capability_id ≢ grant.capability_id) rs
unfolding is_revoked
revoked-All grant [] h = tt
revoked-All grant (r ∷ rs) h = (
  ground (arith, h, eq_iff r.capability_id grant.capability_id),
  revoked-All grant rs (ground (arith, h)),
)

All-revoked :
    (grant : CapabilityGrant) (rs : List CapabilityRevocation)
    → All (λ r. r.capability_id ≢ grant.capability_id) rs
    → is_revoked grant rs ≡ false
unfolding is_revoked
All-revoked grant [] h = refl
All-revoked grant (r ∷ rs) (differs, h) =
    ground (arith, differs, All-revoked grant rs h, eq_iff r.capability_id grant.capability_id)

verified-All :
    (verified : Option (List String)) (proofs : List CapabilityProofRef)
    → all_verified verified proofs ≡ true
    → All (λ p. is_allowed verified p.proof_id ≡ true) proofs
unfolding all_verified
verified-All verified [] h = tt
verified-All verified (p ∷ ps) h = (ground (arith, h), verified-All verified ps (ground (arith, h)))

All-verified :
    (verified : Option (List String)) (proofs : List CapabilityProofRef)
    → All (λ p. is_allowed verified p.proof_id ≡ true) proofs
    → all_verified verified proofs ≡ true
unfolding all_verified
All-verified verified [] h = refl
All-verified verified (p ∷ ps) (q, h) = ground (arith, q, All-verified verified ps h)

module _ (parse : String → Option ℕ) where
  caveats-All :
      (cs : List CapabilityCaveat) (grant : CapabilityGrant) (invocation : CapabilityInvocation)
      (now : ℕ) (context : String)
      → all_caveats parse cs grant invocation now context ≡ true
      → All (λ c. evaluate_caveat parse c.kind c.value grant invocation now context ≡ true) cs
  unfolding all_caveats
  caveats-All [] grant invocation now context h = tt
  caveats-All (c ∷ cs) grant invocation now context h =
      (ground (arith, h), caveats-All cs grant invocation now context (ground (arith, h)))

  All-caveats :
      (cs : List CapabilityCaveat) (grant : CapabilityGrant) (invocation : CapabilityInvocation)
      (now : ℕ) (context : String)
      → All (λ c. evaluate_caveat parse c.kind c.value grant invocation now context ≡ true) cs
      → all_caveats parse cs grant invocation now context ≡ true
  unfolding all_caveats
  All-caveats [] grant invocation now context h = refl
  All-caveats (c ∷ cs) grant invocation now context (q, h) =
      ground (arith, q, All-caveats cs grant invocation now context h)

  -- What an invocation needs at an instant.
  pub record Permits (input : EvaluateCapabilityInvocationInput) (grant : CapabilityGrant)
      (invocation : CapabilityInvocation) (revocations : List CapabilityRevocation) (now : ℕ)
      : Type 0 where
    pub capability : invocation.capability_id ≡ grant.capability_id
    pub grant_lasts : has_ended parse now grant.expires_at ≡ false
    pub grant_started : is_early_if_any parse now grant.not_before ≡ false
    pub invocation_lasts : has_ended_if_any parse now invocation.expires_at ≡ false
    pub unrevoked : All (λ r. r.capability_id ≢ grant.capability_id) revocations
    pub audience : invocation.invoker ≡ grant.audience
    pub resource : invocation.resource ≡ grant.resource
    pub action : contains grant.actions invocation.action ≡ true
    pub scope : invocation.scope ≡ grant.scope
    pub first_use : is_listed input.replayed_invocation_ids invocation.invocation_id ≡ false
    pub issuer : is_allowed input.trusted_issuer_ids grant.issuer.id ≡ true
    pub proofs : All (λ p. is_allowed input.verified_proof_ids p.proof_id ≡ true) grant.proof_refs
    pub caveats :
        All
          (λ c.
            evaluate_caveat parse c.kind c.value grant invocation now input.authority_context
            ≡ true)
          grant.caveats

  module _ (input : EvaluateCapabilityInvocationInput) (grant : CapabilityGrant)
      (invocation : CapabilityInvocation) (revocations : List CapabilityRevocation) (now : ℕ) where
    reasons-Permits :
        reasons_of parse input grant invocation revocations now ≡ []
        → Permits input grant invocation revocations now
    unfolding reasons_of
    reasons-Permits h =
        let (c1, (c2, (c3, (c4, (c5, (c6, (c7, (c8, (c9, (c10, (c11, (c12, (c13, _))))))))))))) =
          failing-All (conditions parse input grant invocation revocations now) h in
        record {
          capability = ground (arith, c1, eq_iff grant.capability_id invocation.capability_id);
          grant_lasts = ground (arith, c2);
          grant_started = ground (arith, c3);
          invocation_lasts = ground (arith, c4);
          unrevoked = revoked-All grant revocations (ground (arith, c5));
          audience = ground (
            arith,
            c6,
            eq_iff grant.audience.kind invocation.invoker.kind,
            eq_iff grant.audience.id invocation.invoker.id,
          );
          resource = ground (
            arith,
            c7,
            eq_iff grant.resource.kind invocation.resource.kind,
            eq_iff grant.resource.id invocation.resource.id,
          );
          action = c8;
          scope = ground (
            arith,
            c9,
            eq_iff grant.scope.kind invocation.scope.kind,
            eq_iff grant.scope.id invocation.scope.id,
          );
          first_use = ground (arith, c10);
          issuer = c11;
          proofs = verified-All input.verified_proof_ids grant.proof_refs c12;
          caveats = caveats-All grant.caveats grant invocation now input.authority_context c13;
        }

    Permits-reasons :
        Permits input grant invocation revocations now
        → reasons_of parse input grant invocation revocations now ≡ []
    unfolding reasons_of
    Permits-reasons p = All-failing (conditions parse input grant invocation revocations now) (
      ground (arith, p.capability, eq_iff grant.capability_id invocation.capability_id),
      (
        ground (arith, p.grant_lasts),
        (
          ground (arith, p.grant_started),
          (
            ground (arith, p.invocation_lasts),
            (
              ground (arith, All-revoked grant revocations p.unrevoked),
              (
                ground (
                  arith,
                  p.audience,
                  eq_iff grant.audience.kind invocation.invoker.kind,
                  eq_iff grant.audience.id invocation.invoker.id,
                ),
                (
                  ground (
                    arith,
                    p.resource,
                    eq_iff grant.resource.kind invocation.resource.kind,
                    eq_iff grant.resource.id invocation.resource.id,
                  ),
                  (
                    p.action,
                    (
                      ground (
                        arith,
                        p.scope,
                        eq_iff grant.scope.kind invocation.scope.kind,
                        eq_iff grant.scope.id invocation.scope.id,
                      ),
                      (
                        ground (arith, p.first_use),
                        (
                          p.issuer,
                          (
                            All-verified input.verified_proof_ids grant.proof_refs p.proofs,
                            (
                              All-caveats grant.caveats grant invocation now input.authority_context
                                  p.caveats,
                              tt,
                            ),
                          ),
                        ),
                      ),
                    ),
                  ),
                ),
              ),
            ),
          ),
        ),
      ),
    )

  status-Permits :
      (iso : ℕ → String) (input : EvaluateCapabilityInvocationInput) (grant : CapabilityGrant)
      (invocation : CapabilityInvocation) (revocations : List CapabilityRevocation) (now : ℕ)
      → (decide parse iso grant invocation now
          (reasons_of parse input grant invocation revocations now)).status
        ≡ allow
      → Permits input grant invocation revocations now
  status-Permits iso input grant invocation revocations now h =
      reasons-Permits input grant invocation revocations now
        (none_left (reasons_of parse input grant invocation revocations now) h)
    where
      none_left :
          (rs : List String) → (decide parse iso grant invocation now rs).status ≡ allow → rs ≡ []
      none_left [] h = refl
      none_left (r ∷ rs) h = cc h

  -- An input that is well formed, at an instant of JavaScript's, and permits the invocation.
  abbrev pub Allowed : EvaluateCapabilityInvocationInput → Type 0
  Allowed input =
      (grant : CapabilityGrant) × (invocation : CapabilityInvocation) × (revocations : List
        CapabilityRevocation)
      × (now : ℕ) × (input.grant ≡ some grant)
      × (input.invocation ≡ some invocation)
      × (input.revocations ≡ some revocations)
      × (parse input.now ≡ some now)
      × (now ≤ max_safe_date_ms)
      × Permits input grant invocation revocations now

  module _ (iso : ℕ → String) (input : EvaluateCapabilityInvocationInput) where
    at_allows :
        (g : Option CapabilityGrant) (i : Option CapabilityInvocation)
        (rs : Option (List CapabilityRevocation)) (now : ℕ)
        → (evaluate_at parse iso input g i rs now).status ≡ allow
        → (grant : CapabilityGrant) × (invocation : CapabilityInvocation) × (revocations : List
            CapabilityRevocation)
          × (g ≡ some grant)
          × (i ≡ some invocation)
          × (rs ≡ some revocations)
          × Permits input grant invocation revocations now
    unfolding evaluate_at
    at_allows none i rs now h = cc h
    at_allows (some grant) none rs now h = cc h
    at_allows (some grant) (some invocation) none now h = cc h
    at_allows (some grant) (some invocation) (some revocations) now h = (
      grant,
      invocation,
      revocations,
      refl,
      refl,
      refl,
      status-Permits iso input grant invocation revocations now h,
    )

    allows : (evaluate_capability_invocation parse iso input).status ≡ allow → Allowed input
    unfolding evaluate_capability_invocation
    allows h = elim (Option-cases (parse input.now)) [
      | inl absent ↦ cc (rw absent at h)
      | inr (now, at) ↦
          let h1 = rw at at h in
          elim (Bool-cases (leb now max_safe_date_ms)) [
            | inl small ↦
                let (grant, invocation, revocations, g, i, r, p) =
                  at_allows input.grant input.invocation input.revocations now (rw small at h1) in
                (grant, invocation, revocations, now, g, i, r, at, ground (arith, small), p)
            | inr big ↦ cc (rw big at h1)
          ]
    ]

    allowed : Allowed input → (evaluate_capability_invocation parse iso input).status ≡ allow
    unfolding evaluate_capability_invocation evaluate_at reasons_of
    allowed (grant, invocation, revocations, now, g, i, r, at, small, p) =
        let in_range : leb now max_safe_date_ms ≡ true = ground (arith, small) in
        rw at (
          rw in_range
            (rw (g, i, r) (rw (Permits-reasons input grant invocation revocations now p) refl)))

  -- An invocation is allowed exactly if its date is an instant of JavaScript's, the validators take
  -- the grant, the invocation and the revocations, and everything is met: the invocation names the
  -- grant, both last and the grant has started, no revocation names the grant, the invoker, resource
  -- and scope are the grant's, the action is one of its, the invocation id was not used before, the
  -- issuer is trusted and every proof verified where such sets are given, and every caveat holds.
  pub evaluate_capability_invocation_iff :
      (iso : ℕ → String) (input : EvaluateCapabilityInvocationInput)
      → ((evaluate_capability_invocation parse iso input).status ≡ allow) ↔ Allowed input
  evaluate_capability_invocation_iff iso input = (allows iso input, allowed iso input)
