-- ===== src/Projections/Mls.antt =====
-- packages/mls-group-projection/src/index.ts: the control state of one MLS group, from its signed
-- control events. The reasons of rejections and the diagnostics are values that stand for the texts.
-- An epoch is a natural number, or missing, which the code takes as -1; `number` reads a number of
-- JSON.
pub mod Members
pub mod Commits
pub mod Control
pub mod Authority
mod Tests
use local_first_p2p_app.Common.{
  ℕ, suc, String, Bool, true, false, not, ◌&&◌, ◌||◌, Option, none, some, List, [], ◌∷◌, ◌++◌, ltb,
  ◌==◌, if◌then◌else◌, is_some, contains, str_eq, length, keep,
}
use local_first_p2p_app.Common.Dict.{Dict, lookup, insert}
use local_first_p2p_app.Common.Json.{
  JsonValue, JsonItems, JsonFields, nil, cons, str, null, bool, num, array, object, get_field,
  as_text,
}
use local_first_p2p_app.Common.Text.{text_lt}

pub data MlsGroupMemberStatus : Type 0 where
  active removed : MlsGroupMemberStatus

pub data MlsGroupLocalDeviceStatus : Type 0 where
  unknown_device member removed_device never_added : MlsGroupLocalDeviceStatus

pub data MlsGroupForkRecoveryMethod : Type 0 where
  policy_authority deterministic_fallback : MlsGroupForkRecoveryMethod

pub data Epoch : Type 0 where
  missing : Epoch
  at : ℕ → Epoch

abbrev pub epoch_lt : Epoch → Epoch → Bool
epoch_lt e missing = false
epoch_lt missing (at n) = true
epoch_lt (at m) (at n) = ltb m n

abbrev pub epoch_eq : Epoch → Epoch → Bool
epoch_eq missing missing = true
epoch_eq missing (at n) = false
epoch_eq (at m) missing = false
epoch_eq (at m) (at n) = m == n

pub record MlsGroupMember : Type 0 where
  pub identity_id : String
  pub device_ids : List String
  pub status : MlsGroupMemberStatus
  pub added_at : String
  pub removed_at : Option String

pub record MlsGroupForkCandidate : Type 0 where
  pub control_id : String
  pub commit_ref : String
  pub epoch : Epoch
  pub issuer_device_id : String
  pub detected_at : String

pub record MlsGroupForkRecoveryRecord : Type 0 where
  pub selected_control_id : String
  pub rejected_control_ids : List String
  pub recovery_method : MlsGroupForkRecoveryMethod
  pub resolved_at : String

pub data Reason : Type 0 where
  wrong_version group_mismatch already_initialised nonzero_epoch previous_mismatch not_a_member :
      Reason
  missing_field unknown_member parent_not_accepted unhandled_kind already_rejected stale_epoch :
      Reason

pub record MlsGroupRejectedControlRecord : Type 0 where
  pub control_id : String
  pub reason : Reason
  pub rejected_at : String

pub data Diagnostic : Type 0 where
  rejected_control : String → Reason → Diagnostic
  stale_commit : String → Epoch → Epoch → Diagnostic
  fork_commit : String → Epoch → Diagnostic
  welcome_for : String → String → String → Diagnostic
  fork_reported : String → Epoch → Diagnostic
  stale_logged : String → Diagnostic
  no_safe_candidates : Diagnostic
  fork_resolved : String → Diagnostic

pub record MlsGroupProjectionState : Type 0 where
  pub group_id : String
  pub current_epoch : Epoch
  pub accepted_checkpoint : Option String
  pub membership_digest : Option String
  pub local_device_membership_status : MlsGroupLocalDeviceStatus
  pub members : Dict MlsGroupMember
  pub accepted_control_ids : List String
  pub rejected_controls : List MlsGroupRejectedControlRecord
  pub fork_candidates : List MlsGroupForkCandidate
  pub fork_recovery_records : List MlsGroupForkRecoveryRecord
  pub diagnostics : List Diagnostic
  pub last_control_id : Option String
  pub last_commit_ref : Option String
  pub last_commit_issuer_device_id : Option String
  pub updated_at : String

abbrev pub create_empty_mls_group_projection_state : String → String → MlsGroupProjectionState
create_empty_mls_group_projection_state group_id updated_at = record {
  group_id = group_id;
  current_epoch = at 0;
  accepted_checkpoint = none;
  membership_digest = none;
  local_device_membership_status = unknown_device;
  members = [];
  accepted_control_ids = [];
  rejected_controls = [];
  fork_candidates = [];
  fork_recovery_records = [];
  diagnostics = [];
  last_control_id = none;
  last_commit_ref = none;
  last_commit_issuer_device_id = none;
  updated_at = updated_at;
}

pub data MlsEventKind : Type 0 where
  group_created member_proposed member_added member_removed device_updated commit_published :
      MlsEventKind
  welcome_issued epoch_advanced fork_detected fork_recovery_published stale_epoch_rejected
        other_kind :
      MlsEventKind

-- What is read of the signed envelope.
pub record SignedEvent : Type 0 where
  pub kind : MlsEventKind
  pub event_id : String
  pub author : String
  pub device_id : String
  pub created_at : String
  pub payload : JsonFields

pub data Outcome : Type 0 where
  accepted rejected fork_queued : Outcome

pub record MlsResult : Type 0 where
  pub outcome : Outcome
  pub reason : Option Reason
  pub state : MlsGroupProjectionState

abbrev pub accept : MlsGroupProjectionState → MlsResult
accept state = record { outcome = accepted; reason = none; state = state }

abbrev pub queue_fork : MlsGroupProjectionState → MlsResult
queue_fork state = record { outcome = fork_queued; reason = none; state = state }

abbrev pub reject : MlsGroupProjectionState → String → Reason → String → MlsResult
reject s control_id reason rejected_at = record {
  outcome = rejected;
  reason = some reason;
  state = record s {
    rejected_controls =
        s.rejected_controls
        ++ record { control_id = control_id; reason = reason; rejected_at = rejected_at } ∷ [];
    diagnostics = s.diagnostics ++ rejected_control control_id reason ∷ [];
    updated_at = rejected_at;
  };
}

abbrev pub text_at : JsonFields → String → Option String
text_at payload name = as_text (get_field name payload)

abbrev pub or_text : Option String → String → String
or_text none before = before
or_text (some s) before = s

abbrev pub or_else : Option String → Option String → Option String
or_else none before = before
or_else (some s) before = some s

abbrev pub is_text : Option String → String → Bool
is_text none s = false
is_text (some t) s = str_eq t s

-- The texts of an array, and nothing where there is no array.
unfoldable pub texts : JsonItems → List String
texts nil = []
texts (cons item rest) = elim (as_text (some item)) [ none ↦ texts rest | some s ↦ s ∷ texts rest ]

abbrev pub texts_at : Option JsonValue → List String
texts_at (some (array items)) = texts items
texts_at (some null) = []
texts_at (some (bool b)) = []
texts_at (some (num n)) = []
texts_at (some (str s)) = []
texts_at (some (object fields)) = []
texts_at none = []

abbrev pub is_active : MlsGroupMemberStatus → Bool
is_active active = true
is_active removed = false

unfoldable pub any_device : Dict MlsGroupMember → String → Bool
any_device [] device = false
any_device ((id, m) ∷ rest) device =
    (is_active m.status && contains m.device_ids device) || any_device rest device

abbrev pub is_member_device : MlsGroupProjectionState → String → Bool
is_member_device s device = any_device s.members device

unfoldable pub validate_previous_control_id : MlsGroupProjectionState → JsonFields → Bool
validate_previous_control_id s payload = elim (text_at payload "previousControlId") [
  | none ↦ false
  | some previous ↦ elim s.last_control_id [ none ↦ true | some last ↦ str_eq previous last ]
]

-- What every accepted record does.
abbrev pub record_control : MlsGroupProjectionState → String → String → MlsGroupProjectionState
record_control s control_id updated_at = record s {
  accepted_control_ids = s.accepted_control_ids ++ control_id ∷ [];
  last_control_id = some control_id;
  updated_at = updated_at;
}

-- The guards that most handlers start with.
abbrev pub from_member :
    MlsGroupProjectionState → JsonFields → String → String → String → MlsResult → MlsResult
from_member s payload control_id issuer updated_at result =
    if not (validate_previous_control_id s payload)
    then reject s control_id previous_mismatch updated_at
    else if not (is_member_device s issuer)
    then reject s control_id not_a_member updated_at
    else result
