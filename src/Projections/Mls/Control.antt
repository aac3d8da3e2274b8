-- ===== src/Projections/Mls/Control.antt =====
-- projectMlsGroupControlEvent of packages/mls-group-projection/src/index.ts.
use local_first_p2p_app.Common.{
  ℕ, String, Bool, false, not, ◌||◌, Option, none, some, List, [], ◌∷◌, if◌then◌else◌, contains,
  str_eq,
}
use local_first_p2p_app.Common.Json.{JsonValue, str, null, bool, num, array, object, get_field}
use local_first_p2p_app.Projections.Mls.{
  Epoch, MlsGroupRejectedControlRecord, MlsGroupProjectionState,
  create_empty_mls_group_projection_state, MlsEventKind, SignedEvent, MlsResult, accept, reject,
  text_at, or_text, is_text, missing, at, wrong_version, group_mismatch, unhandled_kind,
  already_rejected, group_created, member_proposed, member_added, member_removed, device_updated,
  commit_published, welcome_issued, epoch_advanced, fork_detected, fork_recovery_published,
  stale_epoch_rejected, other_kind, rejected,
}
use local_first_p2p_app.Projections.Mls.Members.{
  apply_group_created, apply_member_proposed, apply_member_added, apply_member_removed,
  apply_device_updated,
}
use local_first_p2p_app.Projections.Mls.Commits.{
  apply_commit_published, apply_welcome_issued, apply_epoch_advanced, apply_fork_detected,
  apply_fork_recovery, apply_stale_epoch_rejected,
}

unfoldable pub is_rejected : List MlsGroupRejectedControlRecord → String → Bool
is_rejected [] id = false
is_rejected (r ∷ rest) id = str_eq r.control_id id || is_rejected rest id

-- The constant MLS_GROUP_CONTROL_VERSION.
abbrev pub group_control_version : String
group_control_version = "lfp2p.mls-group-control.v1"

module _ (number : String → ℕ) (local : Option String) (automated : Bool) where
  abbrev pub epoch_of : Option JsonValue → Epoch
  epoch_of (some (num n)) = at (number n)
  epoch_of (some null) = missing
  epoch_of (some (bool b)) = missing
  epoch_of (some (str s)) = missing
  epoch_of (some (array items)) = missing
  epoch_of (some (object fields)) = missing
  epoch_of none = missing

  unfoldable pub apply_kind :
      MlsEventKind
      → MlsGroupProjectionState
      → SignedEvent
      → String
      → String
      → String
      → Epoch
      → MlsResult
  apply_kind group_created s event group_id control_id issuer epoch =
      apply_group_created s event group_id control_id issuer epoch local
  apply_kind member_proposed s event group_id control_id issuer epoch =
      apply_member_proposed s event.payload control_id event.created_at
  apply_kind member_added s event group_id control_id issuer epoch =
      apply_member_added s event.payload control_id issuer event.created_at local
  apply_kind member_removed s event group_id control_id issuer epoch =
      apply_member_removed s event.payload control_id issuer event.created_at local
  apply_kind device_updated s event group_id control_id issuer epoch =
      apply_device_updated s event.payload control_id issuer event.created_at
  apply_kind commit_published s event group_id control_id issuer epoch =
      apply_commit_published s event.payload control_id issuer epoch event.created_at automated
  apply_kind welcome_issued s event group_id control_id issuer epoch =
      apply_welcome_issued s event.payload control_id event.created_at local
  apply_kind epoch_advanced s event group_id control_id issuer epoch =
      apply_epoch_advanced s event.payload control_id issuer epoch event.created_at
  apply_kind fork_detected s event group_id control_id issuer epoch =
      apply_fork_detected s event.payload control_id issuer epoch event.created_at
  apply_kind fork_recovery_published s event group_id control_id issuer epoch =
      apply_fork_recovery s event.payload control_id issuer event.created_at automated
  apply_kind stale_epoch_rejected s event group_id control_id issuer epoch =
      apply_stale_epoch_rejected s event.payload control_id event.created_at
  apply_kind other_kind s event group_id control_id issuer epoch =
      reject s control_id unhandled_kind event.created_at

  abbrev pub state_or_new :
      Option MlsGroupProjectionState → String → String → MlsGroupProjectionState
  state_or_new none group_id created_at =
      create_empty_mls_group_projection_state group_id created_at
  state_or_new (some s) group_id created_at = s

  -- The guards on the group and on ids that were seen, and the switch.
  unfoldable pub apply_control :
      MlsGroupProjectionState → SignedEvent → String → String → String → Epoch → MlsResult
  apply_control s event group_id control_id issuer epoch =
      if not (str_eq s.group_id group_id)
      then reject s control_id group_mismatch event.created_at
      else if contains s.accepted_control_ids control_id
      then accept s
      else if is_rejected s.rejected_controls control_id
      then record { outcome = rejected; reason = some already_rejected; state = s }
      else apply_kind event.kind s event group_id control_id issuer epoch

  unfoldable pub project_mls_group_control_event :
      Option MlsGroupProjectionState → SignedEvent → MlsResult
  project_mls_group_control_event state event =
      let group_id = text_at event.payload "groupId" in
      let control_id = text_at event.payload "controlId" in
      if not (is_text (text_at event.payload "version") group_control_version)
      then reject (state_or_new state (or_text group_id "unknown") event.created_at)
          (or_text control_id event.event_id) wrong_version event.created_at
      else let group = or_text group_id "" in
        apply_control (state_or_new state group event.created_at) event group
          (or_text control_id "") (or_text (text_at event.payload "issuerDeviceId") "")
          (epoch_of (get_field "epoch" event.payload))
