-- ===== src/Transport/Reports/Tests.antt =====
-- The forwarding check at a concrete report.
use local_first_p2p_app.Common.{◌≡◌, refl, true, false, none, [], ◌∷◌}
use local_first_p2p_app.Transport.Reports.{
  media, private_block, media_ref, bundle_ref, SafetyReport, all_evidence_encrypted,
  can_bridge_forward_report,
}

abbrev leaking : SafetyReport
leaking = record {
  subject_type = media;
  encrypted_body_ref = none;
  evidence_refs =
      media_ref (record { privacy = private_block; has_encryption = true }) ∷ bundle_ref false ∷ [];
}

leaking-kept : can_bridge_forward_report leaking ≡ false
unfolding can_bridge_forward_report all_evidence_encrypted
leaking-kept = refl
