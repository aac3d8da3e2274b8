-- ===== src/Transport/Reports/Laws.antt =====
-- A forwarded report leaks no private evidence.
use local_first_p2p_app.Common.{true, false, Option, List, [], ◌∷◌, ◌≡◌, ◌↔◌, All, arith, ◌⊎◌}
use local_first_p2p_app.Transport.Reports.{
  private_block, ObjectRef, media_ref, bundle_ref, SafetyReport, is_private_by_nature,
  all_evidence_encrypted, can_bridge_forward_report, body_is_content,
}

-- A media reference is to a private block with an encryption descriptor, a bundle is encrypted.
abbrev pub IsSealed : ObjectRef → Type 0
IsSealed (media_ref block) = (block.privacy ≡ private_block) × (block.has_encryption ≡ true)
IsSealed (bundle_ref encrypted) = encrypted ≡ true
IsSealed _ = Unit

all_evidence_encrypted_iff :
    (refs : List ObjectRef) → (all_evidence_encrypted refs ≡ true) ↔ All IsSealed refs
unfolding all_evidence_encrypted
all_evidence_encrypted_iff [] = ground arith
all_evidence_encrypted_iff (ref ∷ refs) = ground (arith, all_evidence_encrypted_iff refs)

-- The body, if there is one, is not a reference to an identity.
abbrev pub HasContentBody : Option ObjectRef → Type 0
HasContentBody body = body_is_content body ≡ true

-- A bridge may forward a report on a private subject exactly when every piece of evidence is sealed
-- and the body is content; it may forward any report on another subject.
can_bridge_forward_report_iff :
    (report : SafetyReport)
    → (can_bridge_forward_report report ≡ true) ↔ (
        (is_private_by_nature report.subject_type ≡ false)
        ⊎ (HasContentBody report.encrypted_body_ref × All IsSealed report.evidence_refs))
unfolding can_bridge_forward_report
can_bridge_forward_report_iff report =
    ground (arith, all_evidence_encrypted_iff report.evidence_refs)
