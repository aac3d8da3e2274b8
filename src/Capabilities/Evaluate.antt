-- ===== src/Capabilities/Evaluate.antt =====
-- packages/capabilities/src/evaluate.ts: the decision on one invocation. `parse` is `Date.parse`, and
-- `none` where the date is not finite; `iso` is `toISOString`. In the input, a grant, an invocation or
-- a list of revocations is `none` where its validator throws.
pub mod Decisions
pub mod Times
mod Tests
use local_first_p2p_app.Common.{
  ℕ, String, Bool, true, false, not, ◌&&◌, Option, none, some, List, [], ◌∷◌, ◌++◌, ltb, leb, ◌==◌,
  if◌then◌else◌, is_some, contains, str_eq,
}
use local_first_p2p_app.Capabilities.{
  CapabilityPartyRef, CapabilityResourceRef, CapabilityScopeRef, CapabilityJsonValue, text, flag,
  integer, other, CapabilityCaveatKind, expires_before, not_before, audience_is, device_is,
  resource_is, action_is, scope_is, issuer_is, requires_freshness_check, requires_human_review,
  requires_private_envelope, requires_encrypted_evidence, max_uses, max_delegation_depth,
  network_surface_is, bridge_is, label_namespace_is, CapabilityCaveat, CapabilityProofRef,
  CapabilityGrant, same_party, same_resource, same_scope,
}

pub record CapabilityInvocation : Type 0 where
  pub invocation_id : String
  pub capability_id : String
  pub invoker : CapabilityPartyRef
  pub device : Option CapabilityPartyRef
  pub resource : CapabilityResourceRef
  pub action : String
  pub scope : CapabilityScopeRef
  pub arguments_digest : Option String
  pub expires_at : Option String

-- Of a revocation only the capability that it names is read.
pub record CapabilityRevocation : Type 0 where
  pub revocation_id : String
  pub capability_id : String

-- A `ReadonlySet` of ids is a list.
pub record EvaluateCapabilityInvocationInput : Type 0 where
  pub grant : Option CapabilityGrant
  pub invocation : Option CapabilityInvocation
  pub revocations : Option (List CapabilityRevocation)
  pub now : String
  pub replayed_invocation_ids : Option (List String)
  pub verified_proof_ids : Option (List String)
  pub trusted_issuer_ids : Option (List String)
  pub authority_context : String

pub data CapabilityDecisionStatus : Type 0 where
  allow warn require_confirmation quarantine deny : CapabilityDecisionStatus

pub record CapabilityDecision : Type 0 where
  pub status : CapabilityDecisionStatus
  pub reason_codes : List String
  pub capability_id : String
  pub invocation_id : Option String
  pub created_at : String
  pub expires_at : Option String

abbrev pub deny_with : String → Option String → List String → String → CapabilityDecision
deny_with capability_id invocation_id reason_codes created_at = record {
  status = deny;
  reason_codes = reason_codes;
  capability_id = capability_id;
  invocation_id = invocation_id;
  created_at = created_at;
  expires_at = none;
}

-- `[...new Set(reasons)]`
unfoldable pub dedupe : List String → List String → List String
dedupe kept [] = kept
dedupe kept (reason ∷ rest) =
    dedupe (if contains kept reason then kept else kept ++ reason ∷ []) rest

abbrev pub max_safe_date_ms : ℕ
max_safe_date_ms = 8_640_000_000_000_000

unfoldable pub failing : List (Bool × String) → List String
failing [] = []
failing ((holds, reason) ∷ rest) = let more = failing rest in if holds then more else reason ∷ more

abbrev pub is_text : (String → Bool) → CapabilityJsonValue → Bool
is_text test (text value) = test value
is_text test (flag value) = false
is_text test (integer value) = false
is_text test other = false

abbrev pub is_integer : (ℕ → Bool) → CapabilityJsonValue → Bool
is_integer test (integer value) = test value
is_integer test (text value) = false
is_integer test (flag value) = false
is_integer test other = false

abbrev pub is_false : CapabilityJsonValue → Bool
is_false (flag value) = not value
is_false (text value) = false
is_false (integer value) = false
is_false other = false

abbrev pub has_id : Option CapabilityPartyRef → String → Bool
has_id none id = false
has_id (some party) id = str_eq party.id id

-- `set?.has(id)`, and the same where no set means that all ids are there.
abbrev pub is_listed : Option (List String) → String → Bool
is_listed none id = false
is_listed (some set) id = contains set id

abbrev pub is_allowed : Option (List String) → String → Bool
is_allowed none id = true
is_allowed (some set) id = contains set id

unfoldable pub is_revoked : CapabilityGrant → List CapabilityRevocation → Bool
is_revoked grant [] = false
is_revoked grant (revocation ∷ rest) =
    if str_eq revocation.capability_id grant.capability_id then true else is_revoked grant rest

unfoldable pub all_verified : Option (List String) → List CapabilityProofRef → Bool
all_verified verified [] = true
all_verified verified (proof ∷ rest) =
    is_allowed verified proof.proof_id && all_verified verified rest

-- The instant is before, or not before, a date that is finite.
abbrev pub before_date : ℕ → Option ℕ → Bool
before_date now none = false
before_date now (some ms) = ltb now ms

abbrev pub from_date : ℕ → Option ℕ → Bool
from_date now none = false
from_date now (some ms) = leb ms now

module _ (parse : String → Option ℕ) where
  abbrev pub is_before : ℕ → String → Bool
  is_before now date = before_date now (parse date)

  abbrev pub is_from : ℕ → String → Bool
  is_from now date = from_date now (parse date)

  -- `Date.parse(date) <= now` and `Date.parse(date) > now`, which are false of a date that is not
  -- finite.
  abbrev pub has_ended : ℕ → String → Bool
  has_ended now date = is_from now date

  abbrev pub has_ended_if_any : ℕ → Option String → Bool
  has_ended_if_any now none = false
  has_ended_if_any now (some date) = has_ended now date

  abbrev pub is_early_if_any : ℕ → Option String → Bool
  is_early_if_any now none = false
  is_early_if_any now (some date) = is_before now date

  unfoldable pub evaluate_caveat :
      CapabilityCaveatKind
      → CapabilityJsonValue
      → CapabilityGrant
      → CapabilityInvocation
      → ℕ
      → String
      → Bool
  evaluate_caveat expires_before value grant invocation now context = is_text (is_before now) value
  evaluate_caveat not_before value grant invocation now context = is_text (is_from now) value
  evaluate_caveat audience_is value grant invocation now context =
      is_text (str_eq invocation.invoker.id) value
  evaluate_caveat device_is value grant invocation now context =
      is_text (has_id invocation.device) value
  evaluate_caveat resource_is value grant invocation now context =
      is_text (str_eq invocation.resource.id) value
  evaluate_caveat action_is value grant invocation now context =
      is_text (str_eq invocation.action) value
  evaluate_caveat scope_is value grant invocation now context =
      is_text (str_eq invocation.scope.id) value
  evaluate_caveat issuer_is value grant invocation now context =
      is_text (str_eq grant.issuer.id) value
  evaluate_caveat requires_freshness_check value grant invocation now context = is_false value
  evaluate_caveat requires_human_review value grant invocation now context =
      str_eq context "display"
  evaluate_caveat requires_private_envelope value grant invocation now context =
      str_eq invocation.scope.kind "private-envelope"
  evaluate_caveat requires_encrypted_evidence value grant invocation now context =
      is_some invocation.arguments_digest
  evaluate_caveat max_uses value grant invocation now context = is_integer (λ n. ltb 0 n) value
  evaluate_caveat max_delegation_depth value grant invocation now context =
      is_integer (λ n. leb grant.delegation_depth n) value
  evaluate_caveat network_surface_is value grant invocation now context =
      is_text (str_eq context) value
  evaluate_caveat bridge_is value grant invocation now context =
      is_text (λ v. str_eq invocation.resource.kind "bridge" && str_eq invocation.resource.id v)
        value
  evaluate_caveat label_namespace_is value grant invocation now context =
      is_text
        (λ v. str_eq invocation.resource.kind "label-namespace" && str_eq invocation.resource.id v)
        value

  unfoldable pub all_caveats :
      List CapabilityCaveat → CapabilityGrant → CapabilityInvocation → ℕ → String → Bool
  all_caveats [] grant invocation now context = true
  all_caveats (caveat ∷ rest) grant invocation now context =
      evaluate_caveat caveat.kind caveat.value grant invocation now context
      && all_caveats rest grant invocation now context

  -- The conditions in their order, each with the reason that is pushed where it does not hold.
  abbrev pub conditions :
      EvaluateCapabilityInvocationInput
      → CapabilityGrant
      → CapabilityInvocation
      → List CapabilityRevocation
      → ℕ
      → List (Bool × String)
  conditions input grant invocation revocations now =
      (str_eq grant.capability_id invocation.capability_id, "capability.wrong-resource")
      ∷ (not (has_ended now grant.expires_at), "capability.expired")
      ∷ (not (is_early_if_any now grant.not_before), "capability.not-yet-valid")
      ∷ (not (has_ended_if_any now invocation.expires_at), "capability.expired")
      ∷ (not (is_revoked grant revocations), "capability.revoked")
      ∷ (same_party grant.audience invocation.invoker, "capability.wrong-audience")
      ∷ (same_resource grant.resource invocation.resource, "capability.wrong-resource")
      ∷ (contains grant.actions invocation.action, "capability.wrong-action")
      ∷ (same_scope grant.scope invocation.scope, "capability.wrong-scope")
      ∷ (
        not (is_listed input.replayed_invocation_ids invocation.invocation_id),
        "capability.replayed-invocation",
      )
      ∷ (is_allowed input.trusted_issuer_ids grant.issuer.id, "capability.untrusted-issuer")
      ∷ (all_verified input.verified_proof_ids grant.proof_refs, "capability.unverified-proof")
      ∷ (
        all_caveats grant.caveats grant invocation now input.authority_context,
        "capability.unsatisfied-caveat",
      )
      ∷ []

  unfoldable pub reasons_of :
      EvaluateCapabilityInvocationInput
      → CapabilityGrant
      → CapabilityInvocation
      → List CapabilityRevocation
      → ℕ
      → List String
  unfolding failing
  reasons_of input grant invocation revocations now =
      failing (conditions input grant invocation revocations now)

  module _ (iso : ℕ → String) where
    abbrev pub decide :
        CapabilityGrant → CapabilityInvocation → ℕ → List String → CapabilityDecision
    decide grant invocation now [] = record {
      status = allow;
      reason_codes = "capability.valid" ∷ [];
      capability_id = grant.capability_id;
      invocation_id = some invocation.invocation_id;
      created_at = iso now;
      expires_at = some grant.expires_at;
    }
    decide grant invocation now (reason ∷ rest) =
        deny_with grant.capability_id (some invocation.invocation_id) (dedupe [] (reason ∷ rest))
          (iso now)

    abbrev pub malformed : String → CapabilityDecision
    malformed created_at = deny_with "unknown" none ("capability.malformed" ∷ []) created_at

    -- Once the date is read: the validators, and the decision by the reasons.
    unfoldable pub evaluate_at :
        EvaluateCapabilityInvocationInput
        → Option CapabilityGrant
        → Option CapabilityInvocation
        → Option (List CapabilityRevocation)
        → ℕ
        → CapabilityDecision
    evaluate_at input none invocation revocations now = malformed (iso now)
    evaluate_at input (some grant) none revocations now = malformed (iso now)
    evaluate_at input (some grant) (some invocation) none now = malformed (iso now)
    evaluate_at input (some grant) (some invocation) (some revocations) now =
        decide grant invocation now (reasons_of input grant invocation revocations now)

    abbrev pub evaluate_from : EvaluateCapabilityInvocationInput → Option ℕ → CapabilityDecision
    evaluate_from input none = malformed "1970-01-01T00:00:00.000Z"
    evaluate_from input (some now) =
        if leb now max_safe_date_ms
        then evaluate_at input input.grant input.invocation input.revocations now
        else malformed "1970-01-01T00:00:00.000Z"

    unfoldable pub evaluate_capability_invocation :
        EvaluateCapabilityInvocationInput → CapabilityDecision
    evaluate_capability_invocation input = evaluate_from input (parse input.now)
