-- ===== src/Capabilities/Evaluate/Tests.antt =====
-- Decisions of packages/capabilities/src/evaluate.ts, and the theorems at them.
use local_first_p2p_app.Common.{
  ℕ, ◌≡◌, ◌↔◌, refl, String, Option, none, some, [], ◌∷◌, if◌then◌else◌, str_eq,
}
use local_first_p2p_app.Capabilities.{CapabilityGrant, text, integer, max_uses, expires_before}
use local_first_p2p_app.Capabilities.Evaluate.{
  CapabilityInvocation, EvaluateCapabilityInvocationInput, allow, dedupe, failing, is_revoked,
  all_verified, evaluate_caveat, all_caveats, reasons_of, evaluate_at,
  evaluate_capability_invocation,
}
use local_first_p2p_app.Capabilities.Evaluate.Decisions.{
  Allowed, evaluate_capability_invocation_iff,
}

abbrev dates : String → Option ℕ
dates s =
    if str_eq s "monday"
    then some 100
    else if str_eq s "tuesday"
    then some 200
    else if str_eq s "wednesday"
    then some 300
    else if str_eq s "friday"
    then some 500
    else none

-- The instants are not written out again.
abbrev no_date : ℕ → String
no_date ms = "date"

abbrev grant : CapabilityGrant
grant = record {
  capability_id = "c";
  issuer = record { kind = "controller"; id = "ada" };
  audience = record { kind = "device"; id = "phone" };
  resource = record { kind = "room"; id = "garden" };
  actions = "read" ∷ [];
  scope = record { kind = "room"; id = "garden" };
  caveats =
      record { kind = expires_before; value = text "friday" }
      ∷ record { kind = max_uses; value = integer 1 }
      ∷ [];
  not_before = some "monday";
  expires_at = "friday";
  delegation_depth = 0;
  proof_refs = [];
}

abbrev invocation : CapabilityInvocation
invocation = record {
  invocation_id = "i";
  capability_id = "c";
  invoker = record { kind = "device"; id = "phone" };
  device = none;
  resource = record { kind = "room"; id = "garden" };
  action = "read";
  scope = record { kind = "room"; id = "garden" };
  arguments_digest = none;
  expires_at = none;
}

abbrev input : EvaluateCapabilityInvocationInput
input = record {
  grant = some grant;
  invocation = some invocation;
  revocations = some [];
  now = "monday";
  replayed_invocation_ids = none;
  verified_proof_ids = none;
  trusted_issuer_ids = some ("ada" ∷ []);
  authority_context = "mutation";
}

denied_at_end :
    (evaluate_capability_invocation dates no_date (record input { now = "friday" })).reason_codes
    ≡ "capability.expired" ∷ "capability.unsatisfied-caveat" ∷ []
unfolding evaluate_capability_invocation evaluate_at reasons_of failing is_revoked all_verified
    all_caveats evaluate_caveat dedupe
denied_at_end = refl

allowed_on_monday :
    (evaluate_capability_invocation dates no_date (record input { now = "monday" })).status ≡ allow
unfolding evaluate_capability_invocation evaluate_at reasons_of failing is_revoked all_verified
    all_caveats evaluate_caveat
allowed_on_monday = refl

allowed_on_wednesday :
    (evaluate_capability_invocation dates no_date (record input { now = "wednesday" })).status
    ≡ allow
unfolding evaluate_capability_invocation evaluate_at reasons_of failing is_revoked all_verified
    all_caveats evaluate_caveat
allowed_on_wednesday = refl

evaluate_capability_invocation_iff_example :
    ((evaluate_capability_invocation dates no_date input).status ≡ allow) ↔ Allowed dates input
evaluate_capability_invocation_iff_example = evaluate_capability_invocation_iff dates no_date input
