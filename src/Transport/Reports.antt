-- ===== src/Transport/Reports.antt =====
-- packages/trust-safety/src/reports-appeals/privacy.ts and transport-admission/report-forwarding.ts:
-- may a bridge forward a safety report? Of the object references the model keeps what the check
-- reads; a thrown `TS_PRIVATE_LEAK` is `false`.
pub mod Laws
mod Tests
use local_first_p2p_app.Common.{
  Bool, true, false, not, ◌&&◌, Option, none, some, List, [], ◌∷◌, if◌then◌else◌,
}

pub data SafetySubjectType : Type 0 where
  event actor device community thread media blob url domain : SafetySubjectType
  topic bridge relay super_peer policy_list : SafetySubjectType

-- `PRIVATE_BY_NATURE_SUBJECTS.has`
abbrev pub is_private_by_nature : SafetySubjectType → Bool
is_private_by_nature blob = true
is_private_by_nature media = true
is_private_by_nature thread = true
is_private_by_nature _ = false

pub data BlockPrivacy : Type 0 where
  public_block private_block : BlockPrivacy

pub record BlockRef : Type 0 where
  pub privacy : BlockPrivacy
  -- whether an encryption descriptor is there
  pub has_encryption : Bool

-- Kinds that carry a digest, and identity kinds, stand for one constructor each.
pub data ObjectRef : Type 0 where
  content_ref : ObjectRef
  media_ref : BlockRef → ObjectRef
  bundle_ref : Bool → ObjectRef
  url_ref domain_ref actor_ref community_ref infrastructure_ref : ObjectRef

pub record SafetyReport : Type 0 where
  pub subject_type : SafetySubjectType
  pub encrypted_body_ref : Option ObjectRef
  pub evidence_refs : List ObjectRef

pub data ReportRoutingPrivacy : Type 0 where
  public_routable private_only : ReportRoutingPrivacy

unfoldable pub classify_report_privacy : SafetyReport → ReportRoutingPrivacy
classify_report_privacy report =
    if is_private_by_nature report.subject_type then private_only else public_routable

-- `assertContentBearingEvidenceRef` passes.
abbrev pub is_content_bearing : ObjectRef → Bool
is_content_bearing actor_ref = false
is_content_bearing community_ref = false
is_content_bearing infrastructure_ref = false
is_content_bearing _ = true

-- `assertBlockRefEncrypted` passes.
abbrev pub is_block_encrypted : BlockRef → Bool
is_block_encrypted block = elim block.privacy [
  | public_block ↦ false
  | private_block ↦ block.has_encryption
]

-- `assertEvidenceRefEncryption` passes.
abbrev pub is_evidence_encrypted : ObjectRef → Bool
is_evidence_encrypted (media_ref block) = is_block_encrypted block
is_evidence_encrypted (bundle_ref encrypted) = encrypted
is_evidence_encrypted _ = true

unfoldable pub all_evidence_encrypted : List ObjectRef → Bool
all_evidence_encrypted [] = true
all_evidence_encrypted (ref ∷ refs) = is_evidence_encrypted ref && all_evidence_encrypted refs

abbrev pub body_is_content : Option ObjectRef → Bool
body_is_content none = true
body_is_content (some ref) = is_content_bearing ref

-- `canBridgeForwardReport`, and so `decideReportForwarding(report).shouldForward`.
unfoldable pub can_bridge_forward_report : SafetyReport → Bool
unfolding classify_report_privacy
can_bridge_forward_report report = elim (classify_report_privacy report) [
  | public_routable ↦ true
  | private_only ↦
      body_is_content report.encrypted_body_ref && all_evidence_encrypted report.evidence_refs
]
