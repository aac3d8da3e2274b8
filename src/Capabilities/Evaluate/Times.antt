-- ===== src/Capabilities/Evaluate/Times.antt =====
-- When packages/capabilities/src/evaluate.ts allows one and the same invocation: without a gap.
use local_first_p2p_app.Common.{
  ℕ, ◌≤◌, ◌≡◌, subst, String, true, false, Option, none, some, List, [], ◌∷◌, arith, All,
}
use local_first_p2p_app.Capabilities.{
  CapabilityJsonValue, text, flag, integer, other, CapabilityCaveatKind, expires_before, not_before,
  CapabilityCaveat, CapabilityGrant,
}
use local_first_p2p_app.Capabilities.Evaluate.{
  CapabilityInvocation, CapabilityRevocation, EvaluateCapabilityInvocationInput, allow, is_text,
  before_date, from_date, is_before, is_from, has_ended_if_any, is_early_if_any, evaluate_caveat,
  max_safe_date_ms, evaluate_capability_invocation,
}
use local_first_p2p_app.Capabilities.Evaluate.Decisions.{
  Permits, evaluate_capability_invocation_iff,
}

module _ (a b c : ℕ) (late : a ≤ b) (early : b ≤ c) where
  before_earlier : (date : Option ℕ) → before_date c date ≡ true → before_date b date ≡ true
  before_earlier none h = h
  before_earlier (some ms) h = ground (arith, h, early)

  from_later : (date : Option ℕ) → from_date a date ≡ true → from_date b date ≡ true
  from_later none h = h
  from_later (some ms) h = ground (arith, h, late)

  not_from_earlier : (date : Option ℕ) → from_date c date ≡ false → from_date b date ≡ false
  not_from_earlier none h = h
  not_from_earlier (some ms) h = ground (arith, h, early)

  not_before_later : (date : Option ℕ) → before_date a date ≡ false → before_date b date ≡ false
  not_before_later none h = h
  not_before_later (some ms) h = ground (arith, h, late)

  module _ (parse : String → Option ℕ) where
    lasts :
        (date : Option String)
        → has_ended_if_any parse c date ≡ false
        → has_ended_if_any parse b date ≡ false
    lasts none h = h
    lasts (some date) h = not_from_earlier (parse date) h

    started :
        (date : Option String)
        → is_early_if_any parse a date ≡ false
        → is_early_if_any parse b date ≡ false
    started none h = h
    started (some date) h = not_before_later (parse date) h

    text_before :
        (v : CapabilityJsonValue)
        → is_text (is_before parse c) v ≡ true
        → is_text (is_before parse b) v ≡ true
    text_before (text date) h = before_earlier (parse date) h
    text_before (flag x) h = h
    text_before (integer n) h = h
    text_before other h = h

    text_from :
        (v : CapabilityJsonValue)
        → is_text (is_from parse a) v ≡ true
        → is_text (is_from parse b) v ≡ true
    text_from (text date) h = from_later (parse date) h
    text_from (flag x) h = h
    text_from (integer n) h = h
    text_from other h = h

    caveat_between :
        (kind : CapabilityCaveatKind) (v : CapabilityJsonValue) (grant : CapabilityGrant)
        (invocation : CapabilityInvocation) (context : String)
        → evaluate_caveat parse kind v grant invocation a context ≡ true
        → evaluate_caveat parse kind v grant invocation c context ≡ true
        → evaluate_caveat parse kind v grant invocation b context ≡ true
    unfolding evaluate_caveat
    caveat_between expires_before v grant invocation context p q = text_before v q
    caveat_between not_before v grant invocation context p q = text_from v p
    caveat_between _ v grant invocation context p q = p

    caveats_between :
        (cs : List CapabilityCaveat) (grant : CapabilityGrant) (invocation : CapabilityInvocation)
        (context : String)
        → All (λ x. evaluate_caveat parse x.kind x.value grant invocation a context ≡ true) cs
        → All (λ x. evaluate_caveat parse x.kind x.value grant invocation c context ≡ true) cs
        → All (λ x. evaluate_caveat parse x.kind x.value grant invocation b context ≡ true) cs
    caveats_between [] grant invocation context p q = tt
    caveats_between (x ∷ cs) grant invocation context (p, ps) (q, qs) = (
      caveat_between x.kind x.value grant invocation context p q,
      caveats_between cs grant invocation context ps qs,
    )

    Permits-between :
        (input : EvaluateCapabilityInvocationInput) (first middle last : String)
        (grant : CapabilityGrant) (invocation : CapabilityInvocation)
        (revocations : List CapabilityRevocation)
        → Permits parse (record input { now = first }) grant invocation revocations a
        → Permits parse (record input { now = last }) grant invocation revocations c
        → Permits parse (record input { now = middle }) grant invocation revocations b
    Permits-between input first middle last grant invocation revocations p q = record {
      capability = p.capability;
      grant_lasts = not_from_earlier (parse grant.expires_at) q.grant_lasts;
      grant_started = started grant.not_before p.grant_started;
      invocation_lasts = lasts invocation.expires_at q.invocation_lasts;
      unrevoked = p.unrevoked;
      audience = p.audience;
      resource = p.resource;
      action = p.action;
      scope = p.scope;
      first_use = p.first_use;
      issuer = p.issuer;
      proofs = p.proofs;
      caveats =
          caveats_between grant.caveats grant invocation input.authority_context p.caveats
            q.caveats;
    }

-- Authority is one stretch of time: an invocation that is allowed at two instants, all else in the
-- input being the same, is allowed at every instant between them.
evaluate_between :
    (parse : String → Option ℕ) (iso : ℕ → String) (input : EvaluateCapabilityInvocationInput)
    (first middle last : String) (a b c : ℕ)
    → parse first ≡ some a
    → parse middle ≡ some b
    → parse last ≡ some c
    → a ≤ b
    → b ≤ c
    → (evaluate_capability_invocation parse iso (record input { now = first })).status ≡ allow
    → (evaluate_capability_invocation parse iso (record input { now = last })).status ≡ allow
    → (evaluate_capability_invocation parse iso (record input { now = middle })).status ≡ allow
evaluate_between parse iso input first middle last a b c at_a at_b at_c late early h k =
    let (g, i, r, a', eg, ei, er, ea, _, p) =
      (evaluate_capability_invocation_iff parse iso (record input { now = first })).0 h in
    let (g', i', r', c', eg', ei', er', ec, small, q) =
      (evaluate_capability_invocation_iff parse iso (record input { now = last })).0 k in
    let same_a : a' ≡ a = cc (ea, at_a) in
    let same_c : c' ≡ c = cc (ec, at_c) in
    let same_g : g' ≡ g = cc (eg, eg') in
    let same_i : i' ≡ i = cc (ei, ei') in
    let same_r : r' ≡ r = cc (er, er') in
    let p1 = subst (Permits parse (record input { now = first }) g i r) same_a p in
    let q1 = subst (λ x. Permits parse (record input { now = last }) x i' r' c') same_g q in
    let q2 = subst (λ x. Permits parse (record input { now = last }) g x r' c') same_i q1 in
    let q3 = subst (λ x. Permits parse (record input { now = last }) g i x c') same_r q2 in
    let q4 = subst (Permits parse (record input { now = last }) g i r) same_c q3 in
    let small_c : c ≤ max_safe_date_ms = subst (λ x. x ≤ max_safe_date_ms) same_c small in
    (evaluate_capability_invocation_iff parse iso (record input { now = middle })).1 (
      g,
      i,
      r,
      b,
      eg,
      ei,
      er,
      at_b,
      omega (arith, small_c, early),
      Permits-between a b c late early parse input first middle last g i r p1 q4,
    )
