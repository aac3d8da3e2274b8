-- ===== src/Capabilities.antt =====
-- packages/capabilities: grants of authority, the chains by which they are delegated, and the decision
-- on an invocation. Every grant, invocation and revocation here has passed its validator
-- (validation.ts), which the code calls again on values that it has taken in, without effect. Fields
-- that no modelled code reads (versions, digests, nonces, hints) are left out.
pub mod Delegation
pub mod Evaluate
use local_first_p2p_app.Common.{ℕ, String, Bool, ◌&&◌, Option, List, str_eq}

-- The kinds are unions of string literals, and are compared as strings.
pub record CapabilityPartyRef : Type 0 where
  pub kind : String
  pub id : String

pub record CapabilityResourceRef : Type 0 where
  pub kind : String
  pub id : String

pub record CapabilityScopeRef : Type 0 where
  pub kind : String
  pub id : String

-- `integer` is a safe integer that is not negative; `other` is every value that is neither a text, a
-- flag nor such a number.
pub data CapabilityJsonValue : Type 0 where
  text : String → CapabilityJsonValue
  flag : Bool → CapabilityJsonValue
  integer : ℕ → CapabilityJsonValue
  other : CapabilityJsonValue

pub data CapabilityCaveatKind : Type 0 where
  expires_before not_before audience_is device_is resource_is action_is scope_is issuer_is :
      CapabilityCaveatKind
  requires_freshness_check requires_human_review requires_private_envelope
        requires_encrypted_evidence max_uses :
      CapabilityCaveatKind
  max_delegation_depth network_surface_is bridge_is label_namespace_is : CapabilityCaveatKind

pub record CapabilityCaveat : Type 0 where
  pub kind : CapabilityCaveatKind
  pub value : CapabilityJsonValue

pub record CapabilityProofRef : Type 0 where
  pub proof_id : String
  pub scheme : String

pub record CapabilityGrant : Type 0 where
  pub capability_id : String
  pub issuer : CapabilityPartyRef
  pub audience : CapabilityPartyRef
  pub resource : CapabilityResourceRef
  pub actions : List String
  pub scope : CapabilityScopeRef
  pub caveats : List CapabilityCaveat
  pub not_before : Option String
  pub expires_at : String
  pub delegation_depth : ℕ
  pub proof_refs : List CapabilityProofRef

abbrev pub same_party : CapabilityPartyRef → CapabilityPartyRef → Bool
same_party left right = str_eq left.kind right.kind && str_eq left.id right.id

abbrev pub same_resource : CapabilityResourceRef → CapabilityResourceRef → Bool
same_resource left right = str_eq left.kind right.kind && str_eq left.id right.id

abbrev pub same_scope : CapabilityScopeRef → CapabilityScopeRef → Bool
same_scope left right = str_eq left.kind right.kind && str_eq left.id right.id
