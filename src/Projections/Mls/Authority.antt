-- ===== src/Projections/Mls/Authority.antt =====
-- What an event of packages/mls-group-projection can do to a group when the device that its payload
-- names as the issuer is no active member's. Nothing ties that name to the device or the author of
-- the event, which the code does not read for this.
use local_first_p2p_app.Common.{
  ◌≡◌, ◌≤◌, refl, ap, ◌∙◌, arith, inl, inr, Bool-cases, ℕ, String, true, false, Option, none, some,
  [], ◌==◌, contains, str_eq, length, keep,
}
use local_first_p2p_app.Common.Json.{JsonFields, get_field}
use local_first_p2p_app.Projections.Mls.{
  Epoch, epoch_lt, epoch_eq, MlsGroupForkCandidate, MlsGroupProjectionState, MlsEventKind,
  SignedEvent, MlsResult, text_at, or_text, is_text, any_device, is_member_device,
  validate_previous_control_id, from_member, at, group_created, member_proposed, member_added,
  member_removed, device_updated, commit_published, welcome_issued, epoch_advanced, fork_detected,
  fork_recovery_published, stale_epoch_rejected, other_kind, accepted,
}
use local_first_p2p_app.Projections.Mls.Members.{
  apply_group_created, apply_member_proposed, apply_member_added, apply_member_removed,
  apply_device_updated,
}
use local_first_p2p_app.Projections.Mls.Commits.{
  insert_candidate, sort_candidates, select_first, resolve_fork_deterministically, candidates_for,
  apply_fork_commit, apply_commit, commit_published_with, apply_commit_published,
  apply_welcome_issued, apply_epoch_advanced, apply_fork_detected, apply_fork_recovery,
  apply_stale_epoch_rejected,
}
use local_first_p2p_app.Projections.Mls.Control.{
  apply_kind, apply_control, project_mls_group_control_event, is_rejected, epoch_of,
  group_control_version,
}

-- Nothing of what members decide on has changed.
pub record Untouched (s s' : MlsGroupProjectionState) : Type 0 where
  pub members : s'.members ≡ s.members
  pub epoch : s'.current_epoch ≡ s.current_epoch
  pub digest : s'.membership_digest ≡ s.membership_digest
  pub checkpoint : s'.accepted_checkpoint ≡ s.accepted_checkpoint
  pub commit : s'.last_commit_ref ≡ s.last_commit_ref
  pub local_status : s'.local_device_membership_status ≡ s.local_device_membership_status

Untouched-refl : (s : MlsGroupProjectionState) → Untouched s s
Untouched-refl s = ground arith

module _ (s : MlsGroupProjectionState) (issuer : String)
    (outside : is_member_device s issuer ≡ false) where
  from_member-Untouched :
      (payload : JsonFields) (control_id updated_at : String) (result : MlsResult)
      → Untouched s (from_member s payload control_id issuer updated_at result).state
  from_member-Untouched payload control_id updated_at result =
      elim (Bool-cases (validate_previous_control_id s payload)) [
        | inl fits ↦ rw (fits, outside) (ground arith)
        | inr differs ↦ rw differs (ground arith)
      ]

  fork-Untouched : (new : MlsGroupForkCandidate) → Untouched s (apply_fork_commit s new false).state
  unfolding apply_fork_commit
  fork-Untouched new = elim (Bool-cases (epoch_lt new.epoch s.current_epoch)) [
    | inl stale ↦ rw stale (ground arith)
    | inr fresh ↦ rw fresh (ground arith)
  ]

  commit-Untouched :
      (new : MlsGroupForkCandidate) (digest previous : String)
      → new.issuer_device_id ≡ issuer
      → Untouched s (apply_commit s new digest previous false).state
  unfolding apply_commit
  commit-Untouched new digest previous by =
      let outsider : is_member_device s new.issuer_device_id ≡ false =
        ap (any_device s.members) by ∙ outside in
      elim (Bool-cases (contains s.accepted_control_ids previous)) [
        | inr unknown ↦ rw unknown (ground arith)
        | inl parent ↦ elim (Bool-cases (is_text s.last_control_id previous)) [
          | inl linear ↦ rw (parent, linear, outsider) (ground arith)
          | inr forked ↦ rw (parent, forked) (fork-Untouched new)
        ]
      ]

  published-Untouched :
      (digest ref previous : Option String) (control_id : String) (epoch : Epoch)
      (updated_at : String)
      → Untouched s
          (commit_published_with s digest ref previous control_id issuer epoch updated_at
            false).state
  unfolding commit_published_with
  published-Untouched none ref previous control_id epoch updated_at = ground arith
  published-Untouched (some d) none previous control_id epoch updated_at = ground arith
  published-Untouched (some d) (some r) none control_id epoch updated_at = ground arith
  published-Untouched (some d) (some r) (some p) control_id epoch updated_at =
      commit-Untouched _ d p refl

  recorded-Untouched :
      (payload : JsonFields) (control_id updated_at : String)
      → Untouched s (apply_member_proposed s payload control_id updated_at).state
  unfolding apply_member_proposed
  recorded-Untouched payload control_id updated_at =
      elim (Bool-cases (validate_previous_control_id s payload)) [
        | inl fits ↦ rw fits (ground arith)
        | inr differs ↦ rw differs (ground arith)
      ]

  welcome-Untouched :
      (payload : JsonFields) (control_id updated_at : String) (local : Option String)
      → Untouched s (apply_welcome_issued s payload control_id updated_at local).state
  unfolding apply_welcome_issued
  welcome-Untouched payload control_id updated_at local =
      elim (Bool-cases (validate_previous_control_id s payload)) [
        | inl fits ↦ rw fits (ground arith)
        | inr differs ↦ rw differs (ground arith)
      ]

  stale-Untouched :
      (payload : JsonFields) (control_id updated_at : String)
      → Untouched s (apply_stale_epoch_rejected s payload control_id updated_at).state
  unfolding apply_stale_epoch_rejected
  stale-Untouched payload control_id updated_at =
      elim (Bool-cases (validate_previous_control_id s payload)) [
        | inl fits ↦ rw fits (ground arith)
        | inr differs ↦ rw differs (ground arith)
      ]

  module _ (number : String → ℕ) (local : Option String)
      (begun : (length s.accepted_control_ids == 0) ≡ false) where
    created-Untouched :
        (event : SignedEvent) (group_id control_id : String) (epoch : Epoch)
        → Untouched s (apply_group_created s event group_id control_id issuer epoch local).state
    unfolding apply_group_created
    created-Untouched event group_id control_id epoch = rw begun (ground arith)

    kind-Untouched :
        (kind : MlsEventKind) (event : SignedEvent) (group_id control_id : String) (epoch : Epoch)
        → Untouched s
            (apply_kind number local false kind s event group_id control_id issuer epoch).state
    unfolding apply_kind apply_member_added apply_member_removed apply_device_updated
        apply_commit_published apply_epoch_advanced apply_fork_detected apply_fork_recovery
    kind-Untouched group_created event g c epoch = created-Untouched event g c epoch
    kind-Untouched member_proposed event g c epoch =
        recorded-Untouched event.payload c event.created_at
    kind-Untouched member_added event g c epoch =
        from_member-Untouched event.payload c event.created_at _
    kind-Untouched member_removed event g c epoch =
        from_member-Untouched event.payload c event.created_at _
    kind-Untouched device_updated event g c epoch =
        from_member-Untouched event.payload c event.created_at _
    kind-Untouched commit_published event g c epoch =
        published-Untouched (text_at event.payload "membershipDigest")
          (text_at event.payload "commitRef") (text_at event.payload "previousControlId") c epoch
          event.created_at
    kind-Untouched welcome_issued event g c epoch =
        welcome-Untouched event.payload c event.created_at local
    kind-Untouched epoch_advanced event g c epoch =
        from_member-Untouched event.payload c event.created_at _
    kind-Untouched fork_detected event g c epoch =
        from_member-Untouched event.payload c event.created_at _
    kind-Untouched fork_recovery_published event g c epoch =
        from_member-Untouched event.payload c event.created_at _
    kind-Untouched stale_epoch_rejected event g c epoch =
        stale-Untouched event.payload c event.created_at
    kind-Untouched other_kind event g c epoch = ground arith

    control-Untouched :
        (event : SignedEvent) (group_id control_id : String) (epoch : Epoch)
        → Untouched s
            (apply_control number local false s event group_id control_id issuer epoch).state
    unfolding apply_control
    control-Untouched event group_id control_id epoch =
        elim (Bool-cases (str_eq s.group_id group_id)) [
          | inr differs ↦ rw differs (ground arith)
          | inl same ↦ elim (Bool-cases (contains s.accepted_control_ids control_id)) [
            | inl old ↦ rw (same, old) (Untouched-refl s)
            | inr new ↦ elim (Bool-cases (is_rejected s.rejected_controls control_id)) [
              | inl bad ↦ rw (same, new, bad) (Untouched-refl s)
              | inr good ↦
                  rw (same, new, good) (kind-Untouched event.kind event group_id control_id epoch)
            ]
          ]
        ]

-- While forks are not resolved by machine, an event whose payload names as its issuer a device that
-- belongs to no active member changes nothing that members decide on, in a group that has begun:
-- neither the members, nor the epoch, the digest of the membership, the checkpoint, the last commit
-- or the local device's status. The name is the payload's own: that it is the device of the event is
-- not part of the statement.
pub outsider-Untouched :
    (number : String → ℕ) (local : Option String) (s : MlsGroupProjectionState)
    (event : SignedEvent)
    → (length s.accepted_control_ids == 0) ≡ false
    → is_member_device s (or_text (text_at event.payload "issuerDeviceId") "") ≡ false
    → Untouched s (project_mls_group_control_event number local false (some s) event).state
unfolding project_mls_group_control_event
outsider-Untouched number local s event begun outside =
    elim (Bool-cases (is_text (text_at event.payload "version") group_control_version)) [
      | inl current ↦ rw current (
          control-Untouched s (or_text (text_at event.payload "issuerDeviceId") "") outside number
            local begun event (or_text (text_at event.payload "groupId") "")
            (or_text (text_at event.payload "controlId") "")
            (epoch_of number local false (get_field "epoch" event.payload)))
      | inr old ↦ rw old (ground arith)
    ]

-- Where forks are resolved by machine, a device that belongs to no member sets the epoch of the
-- group. A commit that names it as the issuer, on an accepted record that is not the last, for an epoch n that is not below the
-- current one and for which no candidates are known, makes the last commit, of a member's device, be
-- selected for the epoch n, whatever n is.
pub fork_commit-epoch :
    (s : MlsGroupProjectionState) (new : MlsGroupForkCandidate)
    (digest previous last ref device : String) (m n : ℕ)
    → contains s.accepted_control_ids previous ≡ true
    → s.last_control_id ≡ some last
    → str_eq last previous ≡ false
    → s.last_commit_ref ≡ some ref
    → s.last_commit_issuer_device_id ≡ some device
    → is_member_device s device ≡ true
    → is_member_device s new.issuer_device_id ≡ false
    → s.current_epoch ≡ at m
    → new.epoch ≡ at n
    → m ≤ n
    → keep (λ c. epoch_eq c.epoch new.epoch) s.fork_candidates ≡ []
    → ((apply_commit s new digest previous true).outcome ≡ accepted)
      × ((apply_commit s new digest previous true).state.current_epoch ≡ at n)
unfolding apply_commit apply_fork_commit candidates_for resolve_fork_deterministically
    sort_candidates insert_candidate select_first
fork_commit-epoch s new digest previous last ref device m n parent at_last other at_ref at_device
      inside outside now then_ le none_known =
    ground (
      arith, parent, at_last, other, at_ref, at_device, inside, outside, now, then_, le, none_known,
    )
