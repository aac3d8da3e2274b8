-- ===== src/Projections/Mls/Members.antt =====
-- The handlers of packages/mls-group-projection/src/index.ts that make and change the members.
use local_first_p2p_app.Common.{
  String, Bool, false, not, ◌||◌, Option, none, some, List, [], ◌∷◌, ◌++◌, ◌==◌, if◌then◌else◌,
  contains, str_eq, length,
}
use local_first_p2p_app.Common.Dict.{Dict, lookup, insert}
use local_first_p2p_app.Common.Json.{JsonFields, get_field}
use local_first_p2p_app.Projections.Mls.{
  Epoch, epoch_eq, MlsGroupMember, MlsGroupProjectionState, SignedEvent, MlsResult, accept, reject,
  text_at, or_text, is_text, texts_at, validate_previous_control_id, record_control, from_member,
  active, removed, member, removed_device, never_added, at, already_initialised, nonzero_epoch,
  previous_mismatch, missing_field, unknown_member,
}

-- The loop over the initial members.
unfoldable pub add_initial :
    List String → String → String → Dict MlsGroupMember → Dict MlsGroupMember
add_initial [] creator created_at members = members
add_initial (ref ∷ rest) creator created_at members = add_initial rest creator created_at (
    if str_eq ref creator
    then members
    else insert ref
        (record {
          identity_id = ref;
          device_ids = [];
          status = active;
          added_at = created_at;
          removed_at = none;
        })
        members)

unfoldable pub apply_group_created :
    MlsGroupProjectionState
    → SignedEvent
    → String
    → String
    → String
    → Epoch
    → Option String
    → MlsResult
apply_group_created s event group_id control_id issuer epoch local =
    if not (length s.accepted_control_ids == 0)
    then reject s control_id already_initialised event.created_at
    else if not (epoch_eq epoch (at 0))
    then reject s control_id nonzero_epoch event.created_at
    else let creator = or_text (text_at event.payload "creatorDeviceId") issuer in
      accept (record (record_control s control_id event.created_at) {
        group_id = group_id;
        current_epoch = at 0;
        local_device_membership_status = if is_text local creator then member else never_added;
        members =
            add_initial (texts_at (get_field "initialMemberRefs" event.payload)) event.author
              event.created_at
              ((
                event.author,
                record {
                  identity_id = event.author;
                  device_ids = creator ∷ [];
                  status = active;
                  added_at = event.created_at;
                  removed_at = none;
                },
              )
                ∷ []);
      })

unfoldable pub apply_member_proposed :
    MlsGroupProjectionState → JsonFields → String → String → MlsResult
apply_member_proposed s payload control_id updated_at =
    if not (validate_previous_control_id s payload)
    then reject s control_id previous_mismatch updated_at
    else accept (record_control s control_id updated_at)

abbrev pub devices_of : Option MlsGroupMember → List String
devices_of none = []
devices_of (some m) = m.device_ids

abbrev pub just : Option String → List String
just none = []
just (some s) = s ∷ []

abbrev pub local_is : Option String → Option String → Bool
local_is none device = false
local_is (some local) device = is_text device local

unfoldable pub add_member :
    MlsGroupProjectionState
    → Option String
    → Option String
    → String
    → String
    → Option String
    → MlsResult
add_member s none device control_id updated_at local = reject s control_id missing_field updated_at
add_member s (some identity) device control_id updated_at local =
    accept (record (record_control s control_id updated_at) {
      local_device_membership_status =
          if local_is local device then member else s.local_device_membership_status;
      members =
          insert identity
            (record {
              identity_id = identity;
              device_ids = devices_of (lookup identity s.members) ++ just device;
              status = active;
              added_at = updated_at;
              removed_at = none;
            })
            s.members;
    })

unfoldable pub apply_member_added :
    MlsGroupProjectionState → JsonFields → String → String → String → Option String → MlsResult
apply_member_added s payload control_id issuer updated_at local =
    from_member s payload control_id issuer updated_at (
      add_member s (text_at payload "addedIdentityId") (text_at payload "addedDeviceId") control_id
        updated_at local)

abbrev pub held_by : Option String → List String → Bool
held_by none devices = false
held_by (some local) devices = contains devices local

unfoldable pub remove_known :
    MlsGroupProjectionState
    → String
    → Option MlsGroupMember
    → Option String
    → String
    → String
    → Option String
    → MlsResult
remove_known s identity none device control_id updated_at local =
    reject s control_id unknown_member updated_at
remove_known s identity (some existing) device control_id updated_at local =
    accept (record (record_control s control_id updated_at) {
      local_device_membership_status =
          if local_is local device || held_by local existing.device_ids
          then removed_device
          else s.local_device_membership_status;
      members =
          insert identity (record existing { status = removed; removed_at = some updated_at })
            s.members;
    })

unfoldable pub remove_member :
    MlsGroupProjectionState
    → Option String
    → Option String
    → String
    → String
    → Option String
    → MlsResult
remove_member s none device control_id updated_at local =
    reject s control_id missing_field updated_at
remove_member s (some identity) device control_id updated_at local =
    remove_known s identity (lookup identity s.members) device control_id updated_at local

unfoldable pub apply_member_removed :
    MlsGroupProjectionState → JsonFields → String → String → String → Option String → MlsResult
apply_member_removed s payload control_id issuer updated_at local =
    from_member s payload control_id issuer updated_at (
      remove_member s (text_at payload "removedIdentityId") (text_at payload "removedDeviceId")
        control_id updated_at local)

unfoldable pub apply_device_updated :
    MlsGroupProjectionState → JsonFields → String → String → String → MlsResult
apply_device_updated s payload control_id issuer updated_at =
    from_member s payload control_id issuer updated_at
      (accept (record_control s control_id updated_at))
