-- ===== src/Projections/Mls/Tests.antt =====
-- Groups of packages/mls-group-projection/src/index.ts, and the theorems at them.
use local_first_p2p_app.Common.{◌≡◌, refl, arith, ℕ, String, true, false, none, some, [], ◌∷◌}
use local_first_p2p_app.Common.Json.{str, num, get_field, field, end}
use local_first_p2p_app.Projections.Mls.{
  MlsGroupForkCandidate, MlsGroupProjectionState, create_empty_mls_group_projection_state,
  SignedEvent, accept, text_at, or_text, texts, any_device, is_member_device, active, member, at,
  group_created, member_added, accepted,
}
use local_first_p2p_app.Projections.Mls.Members.{add_initial, apply_group_created}
use local_first_p2p_app.Projections.Mls.Commits.{apply_commit}
use local_first_p2p_app.Projections.Mls.Control.{
  apply_kind, apply_control, project_mls_group_control_event, is_rejected,
}
use local_first_p2p_app.Projections.Mls.Authority.{Untouched, outsider-Untouched, fork_commit-epoch}

abbrev zero_of : String → ℕ
zero_of s = 0

abbrev created : SignedEvent
created = record {
  kind = group_created;
  event_id = "e1";
  author = "ada";
  device_id = "phone";
  created_at = "10:00";
  payload = field "version" (str "lfp2p.mls-group-control.v1") (
      field "groupId" (str "g") (
        field "controlId" (str "c1")
          (field "issuerDeviceId" (str "phone") (field "epoch" (num "0") end))));
}

abbrev group : MlsGroupProjectionState
group = record (create_empty_mls_group_projection_state "g" "10:00") {
  local_device_membership_status = member;
  members =
      (
        "ada",
        record {
          identity_id = "ada";
          device_ids = "phone" ∷ [];
          status = active;
          added_at = "10:00";
          removed_at = none;
        },
      )
      ∷ [];
  accepted_control_ids = "c1" ∷ [];
  last_control_id = some "c1";
}

created_lem :
    project_mls_group_control_event zero_of (some "phone") false none created ≡ accept group
unfolding project_mls_group_control_event apply_control apply_kind apply_group_created add_initial
    texts get_field is_rejected
created_lem = refl

abbrev intruder : SignedEvent
intruder = record {
  kind = member_added;
  event_id = "e2";
  author = "eve";
  device_id = "phone";
  created_at = "10:01";
  payload = field "version" (str "lfp2p.mls-group-control.v1") (
      field "groupId" (str "g") (
        field "controlId" (str "c2") (
          field "issuerDeviceId" (str "tablet")
            (field "previousControlId" (str "c1") (field "addedIdentityId" (str "eve") end)))));
}

outside : is_member_device group (or_text (text_at intruder.payload "issuerDeviceId") "") ≡ false
unfolding any_device get_field
outside = refl

outsider-Untouched_example :
    Untouched group
      (project_mls_group_control_event zero_of (some "phone") false (some group) intruder).state
outsider-Untouched_example = outsider-Untouched zero_of (some "phone") group intruder refl outside

-- A second commit, by an outsider, beside the accepted commit of epoch 1.
abbrev committed : MlsGroupProjectionState
committed = record group {
  current_epoch = at 1;
  accepted_control_ids = "c1" ∷ "c2" ∷ [];
  last_control_id = some "c2";
  last_commit_ref = some "r";
  last_commit_issuer_device_id = some "phone";
}

abbrev beside : MlsGroupForkCandidate
beside = record {
  control_id = "c3";
  commit_ref = "s";
  epoch = at 99;
  issuer_device_id = "tablet";
  detected_at = "10:02";
}

inside : is_member_device committed "phone" ≡ true
unfolding any_device
inside = refl

outside_commit : is_member_device committed "tablet" ≡ false
unfolding any_device
outside_commit = refl

fork_commit-epoch_example :
    ((apply_commit committed beside "d" "c1" true).outcome ≡ accepted)
    × ((apply_commit committed beside "d" "c1" true).state.current_epoch ≡ at 99)
fork_commit-epoch_example =
    fork_commit-epoch committed beside "d" "c1" "c2" "r" "phone" 1 99 refl refl refl refl refl
      inside outside_commit refl refl (omega arith) refl
