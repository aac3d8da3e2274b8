-- ===== src/Projections/Mls/Commits.antt =====
-- The handlers of packages/mls-group-projection/src/index.ts for commits, epochs and forks.
use local_first_p2p_app.Common.{
  String, Bool, not, ◌&&◌, Option, none, some, List, [], ◌∷◌, ◌++◌, ltb, ◌==◌, if◌then◌else◌,
  contains, str_eq, length, keep,
}
use local_first_p2p_app.Common.Json.{JsonFields, get_field}
use local_first_p2p_app.Common.Text.{text_lt}
use local_first_p2p_app.Projections.Mls.{
  Epoch, epoch_lt, epoch_eq, MlsGroupForkCandidate, Diagnostic, MlsGroupProjectionState, MlsResult,
  accept, queue_fork, reject, text_at, or_text, or_else, is_text, texts_at, is_member_device,
  validate_previous_control_id, record_control, from_member, policy_authority,
  deterministic_fallback, previous_mismatch, not_a_member, missing_field, parent_not_accepted,
  stale_epoch, stale_commit, fork_commit, welcome_for, fork_reported, stale_logged,
  no_safe_candidates, fork_resolved,
}

-- `sort` by the commit's reference, which keeps the order of equal ones.
unfoldable pub insert_candidate :
    MlsGroupForkCandidate → List MlsGroupForkCandidate → List MlsGroupForkCandidate
insert_candidate c [] = c ∷ []
insert_candidate c (d ∷ rest) =
    let more = insert_candidate c rest in
    if text_lt d.commit_ref c.commit_ref then d ∷ more else c ∷ d ∷ rest

unfoldable pub sort_candidates : List MlsGroupForkCandidate → List MlsGroupForkCandidate
sort_candidates [] = []
sort_candidates (c ∷ rest) = insert_candidate c (sort_candidates rest)

abbrev pub ids_of : List MlsGroupForkCandidate → List String
ids_of [] = []
ids_of (c ∷ rest) = c.control_id ∷ ids_of rest

-- The end of `resolveForkDeterministically`, once the safe candidates are sorted.
unfoldable pub select_first :
    MlsGroupProjectionState
    → List MlsGroupForkCandidate
    → List MlsGroupForkCandidate
    → String
    → MlsResult
select_first s candidates [] updated_at = queue_fork (record s {
  fork_candidates = candidates;
  diagnostics = s.diagnostics ++ no_safe_candidates ∷ [];
  updated_at = updated_at;
})
select_first s candidates (selected ∷ losers) updated_at = accept (record s {
  current_epoch = selected.epoch;
  fork_candidates =
      keep
        (λ c.
          not (str_eq c.control_id selected.control_id)
          && not (contains (ids_of losers) c.control_id))
        candidates;
  fork_recovery_records =
      s.fork_recovery_records
      ++ record {
        selected_control_id = selected.control_id;
        rejected_control_ids = ids_of losers;
        recovery_method = deterministic_fallback;
        resolved_at = updated_at;
      }
        ∷ [];
  accepted_control_ids = s.accepted_control_ids ++ selected.control_id ∷ [];
  last_control_id = some selected.control_id;
  last_commit_ref = some selected.commit_ref;
  last_commit_issuer_device_id = some selected.issuer_device_id;
  diagnostics = s.diagnostics ++ fork_resolved selected.commit_ref ∷ [];
  updated_at = updated_at;
})

unfoldable pub resolve_fork_deterministically :
    MlsGroupProjectionState → List MlsGroupForkCandidate → String → MlsResult
resolve_fork_deterministically s candidates updated_at =
    select_first s candidates
      (sort_candidates (keep (λ c. is_member_device s c.issuer_device_id) candidates)) updated_at

-- The accepted head as a candidate, where it is a commit.
abbrev pub head_candidate :
    Option String
    → Option String
    → Option String
    → Epoch
    → String
    → String
    → List MlsGroupForkCandidate
head_candidate none ref device epoch issuer updated_at = []
head_candidate (some id) none device epoch issuer updated_at = []
head_candidate (some id) (some ref) device epoch issuer updated_at =
    record {
      control_id = id;
      commit_ref = ref;
      epoch = epoch;
      issuer_device_id = or_text device issuer;
      detected_at = updated_at;
    }
    ∷ []

unfoldable pub candidates_for :
    MlsGroupProjectionState → MlsGroupForkCandidate → List MlsGroupForkCandidate
candidates_for s new =
    let existing = keep (λ c. epoch_eq c.epoch new.epoch) s.fork_candidates in
    (if length existing == 0
      then head_candidate s.last_control_id s.last_commit_ref s.last_commit_issuer_device_id
          new.epoch new.issuer_device_id new.detected_at
      else existing)
    ++ new ∷ []

-- A commit beside the accepted head.
unfoldable pub apply_fork_commit :
    MlsGroupProjectionState → MlsGroupForkCandidate → Bool → MlsResult
apply_fork_commit s new automated =
    if epoch_lt new.epoch s.current_epoch
    then queue_fork (record s {
      fork_candidates = s.fork_candidates ++ new ∷ [];
      diagnostics = s.diagnostics ++ stale_commit new.control_id new.epoch s.current_epoch ∷ [];
      updated_at = new.detected_at;
    })
    else if automated && ltb 1 (length (candidates_for s new))
    then resolve_fork_deterministically s (candidates_for s new) new.detected_at
    else queue_fork (record s {
      fork_candidates =
          keep (λ c. not (epoch_eq c.epoch new.epoch)) s.fork_candidates ++ candidates_for s new;
      diagnostics = s.diagnostics ++ fork_commit new.control_id new.epoch ∷ [];
      updated_at = new.detected_at;
    })

unfoldable pub apply_commit :
    MlsGroupProjectionState → MlsGroupForkCandidate → String → String → Bool → MlsResult
apply_commit s new digest previous automated =
    if not (contains s.accepted_control_ids previous)
    then reject s new.control_id parent_not_accepted new.detected_at
    else if not (is_text s.last_control_id previous)
    then apply_fork_commit s new automated
    else if not (is_member_device s new.issuer_device_id)
    then reject s new.control_id not_a_member new.detected_at
    else accept (record (record_control s new.control_id new.detected_at) {
      current_epoch = new.epoch;
      membership_digest = some digest;
      last_commit_ref = some new.commit_ref;
      last_commit_issuer_device_id = some new.issuer_device_id;
    })

-- `applyCommitPublished`, for the three fields that it wants.
unfoldable pub commit_published_with :
    MlsGroupProjectionState
    → Option String
    → Option String
    → Option String
    → String
    → String
    → Epoch
    → String
    → Bool
    → MlsResult
commit_published_with s none ref previous control_id issuer epoch updated_at automated =
    reject s control_id missing_field updated_at
commit_published_with s (some digest) none previous control_id issuer epoch updated_at automated =
    reject s control_id missing_field updated_at
commit_published_with s (some digest) (some ref) none control_id issuer epoch updated_at automated =
    reject s control_id missing_field updated_at
commit_published_with s (some digest) (some ref) (some previous) control_id issuer epoch updated_at
      automated =
    apply_commit s
      (record {
        control_id = control_id;
        commit_ref = ref;
        epoch = epoch;
        issuer_device_id = issuer;
        detected_at = updated_at;
      })
      digest previous automated

unfoldable pub apply_commit_published :
    MlsGroupProjectionState → JsonFields → String → String → Epoch → String → Bool → MlsResult
apply_commit_published s payload control_id issuer epoch updated_at automated =
    commit_published_with s (text_at payload "membershipDigest") (text_at payload "commitRef")
      (text_at payload "previousControlId") control_id issuer epoch updated_at automated

abbrev pub other_device : Option String → Option String → String → List Diagnostic
other_device none recipient control_id = []
other_device (some local) none control_id = []
other_device (some local) (some recipient) control_id =
    if str_eq recipient local then [] else welcome_for control_id recipient local ∷ []

unfoldable pub apply_welcome_issued :
    MlsGroupProjectionState → JsonFields → String → String → Option String → MlsResult
apply_welcome_issued s payload control_id updated_at local =
    if not (validate_previous_control_id s payload)
    then reject s control_id previous_mismatch updated_at
    else accept (record (record_control s control_id updated_at) {
      diagnostics =
          s.diagnostics ++ other_device local (text_at payload "recipientDeviceId") control_id;
    })

unfoldable pub advance_epoch :
    MlsGroupProjectionState → Option String → Option String → String → Epoch → String → MlsResult
advance_epoch s none checkpoint control_id epoch updated_at =
    reject s control_id missing_field updated_at
advance_epoch s (some digest) checkpoint control_id epoch updated_at =
    accept (record (record_control s control_id updated_at) {
      current_epoch = epoch;
      accepted_checkpoint = or_else checkpoint s.accepted_checkpoint;
      membership_digest = some digest;
    })

unfoldable pub apply_epoch_advanced :
    MlsGroupProjectionState → JsonFields → String → String → Epoch → String → MlsResult
apply_epoch_advanced s payload control_id issuer epoch updated_at =
    from_member s payload control_id issuer updated_at (
      advance_epoch s (text_at payload "membershipDigest") (text_at payload "checkpoint") control_id
        epoch updated_at)

unfoldable pub reported : List String → Epoch → String → String → List MlsGroupForkCandidate
reported [] epoch issuer updated_at = []
reported (ref ∷ rest) epoch issuer updated_at =
    record {
      control_id = ref;
      commit_ref = ref;
      epoch = epoch;
      issuer_device_id = issuer;
      detected_at = updated_at;
    }
    ∷ reported rest epoch issuer updated_at

unfoldable pub apply_fork_detected :
    MlsGroupProjectionState → JsonFields → String → String → Epoch → String → MlsResult
apply_fork_detected s payload control_id issuer epoch updated_at =
    from_member s payload control_id issuer updated_at (
      accept (record (record_control s control_id updated_at) {
        fork_candidates =
            s.fork_candidates
            ++ reported (texts_at (get_field "conflictingCommitRefs" payload)) epoch issuer
                updated_at;
        diagnostics = s.diagnostics ++ fork_reported issuer epoch ∷ [];
      }))

unfoldable pub find_candidate : List MlsGroupForkCandidate → String → Option MlsGroupForkCandidate
find_candidate [] id = none
find_candidate (c ∷ rest) id = if str_eq c.control_id id then some c else find_candidate rest id

abbrev pub ref_of : Option MlsGroupForkCandidate → Option String → Option String
ref_of none before = before
ref_of (some c) before = some c.commit_ref

abbrev pub issuer_of : Option MlsGroupForkCandidate → Option String → Option String
issuer_of none before = before
issuer_of (some c) before = some c.issuer_device_id

unfoldable pub recover :
    MlsGroupProjectionState → Option String → List String → String → String → Bool → MlsResult
recover s none rejected_ids control_id updated_at automated =
    reject s control_id missing_field updated_at
recover s (some selected) rejected_ids control_id updated_at automated =
    let candidate = find_candidate s.fork_candidates selected in
    accept (record (record_control s control_id updated_at) {
      fork_candidates =
          keep (λ c. not (contains rejected_ids c.control_id) && not (str_eq c.control_id selected))
            s.fork_candidates;
      fork_recovery_records =
          s.fork_recovery_records
          ++ record {
            selected_control_id = selected;
            rejected_control_ids = rejected_ids;
            recovery_method = if automated then deterministic_fallback else policy_authority;
            resolved_at = updated_at;
          }
            ∷ [];
      last_commit_ref = ref_of candidate s.last_commit_ref;
      last_commit_issuer_device_id = issuer_of candidate s.last_commit_issuer_device_id;
    })

unfoldable pub apply_fork_recovery :
    MlsGroupProjectionState → JsonFields → String → String → String → Bool → MlsResult
apply_fork_recovery s payload control_id issuer updated_at automated =
    from_member s payload control_id issuer updated_at (
      recover s (text_at payload "selectedCommitRef")
        (texts_at (get_field "rejectedCandidates" payload)) control_id updated_at automated)

unfoldable pub apply_stale_epoch_rejected :
    MlsGroupProjectionState → JsonFields → String → String → MlsResult
apply_stale_epoch_rejected s payload control_id updated_at =
    if not (validate_previous_control_id s payload)
    then reject s control_id previous_mismatch updated_at
    else let ref = or_text (text_at payload "rejectedRef") control_id in
      accept (record (record_control s control_id updated_at) {
        rejected_controls =
            s.rejected_controls
            ++ record { control_id = ref; reason = stale_epoch; rejected_at = updated_at } ∷ [];
        diagnostics = s.diagnostics ++ stale_logged ref ∷ [];
      })
