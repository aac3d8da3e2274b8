-- ===== src/Identity/ControlLog/Tests.antt =====
-- Logs of packages/identity/src/control-log.ts, and the theorems at them.
use local_first_p2p_app.Common.{
  ℕ, ◌≡◌, true, false, ◌⊎◌, refl, String, Option, none, some, [], ◌∷◌, inl, str_eq, if◌then◌else◌,
}
use local_first_p2p_app.Common.Dict.{lookup, insert}
use local_first_p2p_app.Common.Json.{JsonFields, get_field, field, end, str, num}
use local_first_p2p_app.Common.Text.{is_blank}
use local_first_p2p_app.Common.Result.{ok}
use local_first_p2p_app.Identity.ControlLog.{
  IdentityControlState, IdentityControlCapability, IdentityControlDevice, IdentityEventKind,
  SignedIdentityEvent, create_empty_identity_control_state, controller_created, device_authorized,
  capability_granted, capability_revoked, active, granted, withdrawn, require_string,
  require_positive_integer, optional_string, apply_controller_created, apply_device_authorized,
  apply_capability_granted, apply_capability_revoked, revoke_capability, apply_kind,
  apply_identity_control_event, apply_all, seed_identity_control_projection, dedupe_sorted_events,
  sort_events, insert_event,
}
use local_first_p2p_app.Identity.ControlLog.Succession.{Succeeds, apply_all-Succeeds}
use local_first_p2p_app.Identity.ControlLog.Replays.{
  apply_all_signed, replayed_device-refused, replayed_grant-taken,
}

-- The number 1, any date, and texts without white space around them.
abbrev positive : String → Option ℕ
positive s = if str_eq s "1" then some 1 else none

abbrev date : String → Option ℕ
date s = some 0

abbrev trim : String → String
trim s = s

abbrev event : IdentityEventKind → String → JsonFields → SignedIdentityEvent
event kind id payload = record {
  kind = kind;
  event_id = id;
  created_at = "monday";
  lamport = 1;
  signer = "key";
  payload = payload;
}

abbrev created : SignedIdentityEvent
created =
    event controller_created "e1"
      (field "controllerPublicKey" (str "key") (field "initialDeviceId" (str "phone") end))

abbrev authorized : SignedIdentityEvent
authorized = event device_authorized "e2" (
    field "authorizedDeviceId" (str "tablet")
      (field "authorizedPublicKey" (str "key2") (field "epoch" (num "1") end)))

abbrev grant : SignedIdentityEvent
grant = event capability_granted "e3" (
    field "capabilityId" (str "c") (
      field "delegateDeviceId" (str "tablet")
        (field "scope" (str "all") (field "expiresAt" (str "friday") end))))

abbrev revocation : SignedIdentityEvent
revocation =
    event capability_revoked "e4"
      (field "capabilityId" (str "c") (field "delegateDeviceId" (str "tablet") end))

abbrev device : String → String → IdentityControlDevice
device id key = record {
  device_id = id;
  public_key = key;
  status = active;
  authorized_at = "monday";
  revoked_at = none;
  wrap_public_key = none;
  wrap_key_ref = none;
}

abbrev capability : IdentityControlCapability
capability = record {
  capability_id = "c";
  delegate_device_id = "tablet";
  scope = "all";
  expires_at = some "friday";
  status = granted;
  granted_at = "monday";
  revoked_at = none;
}

abbrev begun : IdentityControlState
begun = record create_empty_identity_control_state {
  controller_public_key = some "key";
  devices = ("phone", device "phone" "key") ∷ [];
  last_event_id = some "e1";
}

abbrev with_tablet : IdentityControlState
with_tablet = record begun {
  epoch = 1;
  devices = ("phone", device "phone" "key") ∷ ("tablet", device "tablet" "key2") ∷ [];
  last_event_id = some "e2";
}

abbrev with_grant : IdentityControlState
with_grant = record with_tablet { capabilities = ("c", capability) ∷ []; last_event_id = some "e3" }

abbrev after_revocation : IdentityControlState
after_revocation = record with_tablet {
  capabilities = ("c", record capability { status = withdrawn; revoked_at = some "monday" }) ∷ [];
  last_event_id = some "e4";
}

created_lem :
    apply_all positive date trim (created ∷ []) create_empty_identity_control_state ≡ ok begun
unfolding apply_all apply_identity_control_event apply_kind apply_controller_created require_string
    get_field is_blank insert
created_lem = refl

authorized_lem : apply_identity_control_event positive date trim begun authorized ≡ ok with_tablet
unfolding apply_identity_control_event apply_kind apply_device_authorized require_string
    require_positive_integer optional_string get_field is_blank insert
authorized_lem = refl

granted_lem : apply_identity_control_event positive date trim with_tablet grant ≡ ok with_grant
unfolding apply_identity_control_event apply_kind apply_capability_granted require_string get_field
    is_blank insert
granted_lem = refl

revoked_lem :
    apply_all positive date trim (grant ∷ revocation ∷ []) with_tablet ≡ ok after_revocation
unfolding apply_all apply_identity_control_event apply_kind apply_capability_granted
    apply_capability_revoked revoke_capability require_string get_field is_blank insert lookup
revoked_lem = refl

apply_all-Succeeds_example : Succeeds with_tablet after_revocation
apply_all-Succeeds_example =
    apply_all-Succeeds positive date trim (grant ∷ revocation ∷ []) with_tablet after_revocation
      revoked_lem

nothing_applied : apply_all positive date trim [] begun ≡ ok begun
unfolding apply_all
nothing_applied = refl

apply_all_signed_example : (authorized.signer ≡ "key") ⊎ (with_tablet ≡ begun)
apply_all_signed_example =
    apply_all_signed positive date trim [] begun begun with_tablet authorized "key" refl
      nothing_applied authorized_lem

replayed_device-refused_example : ¬ (
    apply_identity_control_event positive date trim after_revocation authorized
    ≡ ok after_revocation)
replayed_device-refused_example =
    replayed_device-refused positive date trim (grant ∷ revocation ∷ []) begun with_tablet
      after_revocation after_revocation authorized (inl refl) authorized_lem revoked_lem

replayed_grant-taken_example :
    (id : String) × (c : IdentityControlCapability) × (again : IdentityControlState) × (c.status
      ≡ granted)
    × (lookup id with_grant.capabilities ≡ some c)
    × (apply_identity_control_event positive date trim after_revocation grant ≡ ok again)
    × (lookup id again.capabilities ≡ some c)
replayed_grant-taken_example =
    replayed_grant-taken positive date trim (revocation ∷ []) with_tablet with_grant
      after_revocation grant "key" refl refl granted_lem revoked_lem

-- Events are applied in the order of their times, and one that comes twice is applied once.
seed_lem :
    seed_identity_control_projection positive date trim
      (λ a b. false)
      (λ a b. true)
      (record authorized { lamport = 2 } ∷ created ∷ created ∷ [])
    ≡ ok with_tablet
unfolding seed_identity_control_projection dedupe_sorted_events sort_events insert_event apply_all
    apply_identity_control_event apply_kind apply_controller_created apply_device_authorized
    require_string require_positive_integer optional_string get_field is_blank insert lookup
seed_lem = refl
