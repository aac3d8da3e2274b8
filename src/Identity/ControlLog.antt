-- ===== src/Identity/ControlLog.antt =====
-- packages/identity/src/control-log.ts. A record with keys is a dictionary; a thrown error is an
-- `err`. An event has passed validateSignedEvent and validateIdentityEvent, which throw for others.
-- Parameters stand for JavaScript: `positive` reads a JSON number that is a safe positive integer,
-- `date` is `Date.parse`, and `none` where it is not finite, `trim` is `trim`.
pub mod Succession
pub mod Replays
mod Tests
use local_first_p2p_app.Common.{
  ℕ, String, Bool, true, false, not, ◌&&◌, ◌||◌, Option, none, some, List, [], ◌∷◌, ◌++◌, ltb, ◌==◌,
  if◌then◌else◌, is_some, str_eq,
}
use local_first_p2p_app.Common.Dict.{Dict, lookup, insert}
use local_first_p2p_app.Common.Json.{
  JsonValue, JsonItems, JsonFields, str, null, bool, num, array, object, get_field, as_text,
}
use local_first_p2p_app.Common.Text.{is_blank}
use local_first_p2p_app.Common.Result.{Result, ok, err, ◌>>=◌, ◌>>◌, require, from_option}

pub data IdentityError : Type 0 where
  invalid_field controller_exists controller_mismatch controller_missing wrong_signer
        epoch_not_greater :
      IdentityError
  unknown_device inactive_device key_mismatch key_reused unknown_capability delegate_mismatch :
      IdentityError
  wrap_incomplete conflicting_duplicate : IdentityError

pub data IdentityDeviceStatus : Type 0 where
  active revoked : IdentityDeviceStatus

pub data IdentityCapabilityStatus : Type 0 where
  granted withdrawn : IdentityCapabilityStatus

pub record IdentityContactCardPublication : Type 0 where
  pub contact_card_digest : String
  pub captured_at : String
  pub published_at : String

pub record IdentityControlDevice : Type 0 where
  pub device_id : String
  pub public_key : String
  pub status : IdentityDeviceStatus
  pub authorized_at : String
  pub revoked_at : Option String
  pub wrap_public_key : Option String
  pub wrap_key_ref : Option String

pub record IdentityControlCapability : Type 0 where
  pub capability_id : String
  pub delegate_device_id : String
  pub scope : String
  pub expires_at : Option String
  pub status : IdentityCapabilityStatus
  pub granted_at : String
  pub revoked_at : Option String

pub record IdentityControlState : Type 0 where
  pub controller_public_key : Option String
  pub epoch : ℕ
  pub devices : Dict IdentityControlDevice
  pub capabilities : Dict IdentityControlCapability
  pub contact_card_publication : Option IdentityContactCardPublication
  pub last_event_id : Option String

abbrev pub create_empty_identity_control_state : IdentityControlState
create_empty_identity_control_state = record {
  controller_public_key = none;
  epoch = 0;
  devices = [];
  capabilities = [];
  contact_card_publication = none;
  last_event_id = none;
}

pub data IdentityEventKind : Type 0 where
  controller_created device_authorized device_revoked device_rotated capability_granted
        capability_revoked :
      IdentityEventKind
  contact_card_published other_kind : IdentityEventKind

-- What is read of a signed envelope.
pub record SignedIdentityEvent : Type 0 where
  pub kind : IdentityEventKind
  pub event_id : String
  pub created_at : String
  pub lamport : ℕ
  pub signer : String
  pub payload : JsonFields

abbrev pub Identity : Type 0 → Type 0
Identity A = Result IdentityError A

abbrev pub filled : Option String → Option String
filled none = none
filled (some s) = if is_blank s then none else some s

unfoldable pub require_string : JsonFields → String → Identity String
require_string payload name = from_option (filled (as_text (get_field name payload))) invalid_field

abbrev pub require_controller_signer :
    IdentityControlState → SignedIdentityEvent → Identity (Unit {0})
require_controller_signer s event = do
  controller ← from_option s.controller_public_key controller_missing
  require (str_eq event.signer controller) wrong_signer

abbrev pub require_monotonic_epoch : ℕ → ℕ → Identity (Unit {0})
require_monotonic_epoch current next = require (ltb current next) epoch_not_greater

unfoldable pub apply_controller_created :
    IdentityControlState → SignedIdentityEvent → Identity IdentityControlState
apply_controller_created s event = do
  controller ← require_string event.payload "controllerPublicKey"
  device ← require_string event.payload "initialDeviceId"
  require (not (is_some s.controller_public_key)) controller_exists
  require (str_eq event.signer controller) controller_mismatch
  ok (record s {
    controller_public_key = some controller;
    devices =
        insert device
          (record {
            device_id = device;
            public_key = event.signer;
            status = active;
            authorized_at = event.created_at;
            revoked_at = none;
            wrap_public_key = none;
            wrap_key_ref = none;
          })
          s.devices;
    last_event_id = some event.event_id;
  })

abbrev pub is_device_active : IdentityDeviceStatus → Bool
is_device_active active = true
is_device_active revoked = false

abbrev pub is_granted : IdentityCapabilityStatus → Bool
is_granted granted = true
is_granted withdrawn = false

abbrev pub at_event : IdentityControlState → SignedIdentityEvent → IdentityControlState
at_event s event = record s { last_event_id = some event.event_id }

-- The end of `applyDeviceRevoked`.
unfoldable pub revoke_device :
    IdentityControlState
    → SignedIdentityEvent
    → ℕ
    → IdentityControlDevice
    → String
    → Identity IdentityControlState
revoke_device s event epoch existing device =
    let made = record (at_event s event) {
      epoch = epoch;
      devices =
          insert device (record existing { status = revoked; revoked_at = some event.created_at })
            s.devices;
    } in
    if is_device_active existing.status
    then require_monotonic_epoch s.epoch epoch >> ok made
    else ok (at_event s event)

unfoldable pub rotate_device :
    IdentityControlState
    → SignedIdentityEvent
    → ℕ
    → IdentityControlDevice
    → String
    → String
    → String
    → Identity IdentityControlState
rotate_device s event epoch existing device previous new = do
  require (is_device_active existing.status) inactive_device
  require (str_eq existing.public_key previous) key_mismatch
  require (not (str_eq previous new)) key_reused
  require_monotonic_epoch s.epoch epoch
  ok (record (at_event s event) {
    epoch = epoch;
    devices =
        insert device (record existing { public_key = new; authorized_at = event.created_at })
          s.devices;
  })

unfoldable pub revoke_capability :
    IdentityControlState
    → SignedIdentityEvent
    → IdentityControlCapability
    → String
    → String
    → Identity IdentityControlState
revoke_capability s event existing capability delegate = do
  require (str_eq existing.delegate_device_id delegate) delegate_mismatch
  if is_granted existing.status
      then ok (record (at_event s event) {
        capabilities =
            insert capability
              (record existing { status = withdrawn; revoked_at = some event.created_at })
              s.capabilities;
      })
      else ok (at_event s event)

module _ (positive : String → Option ℕ) (date : String → Option ℕ) (trim : String → String) where
  abbrev pub as_positive : Option JsonValue → Option ℕ
  as_positive (some (num n)) = positive n
  as_positive (some null) = none
  as_positive (some (bool b)) = none
  as_positive (some (str s)) = none
  as_positive (some (array items)) = none
  as_positive (some (object fields)) = none
  as_positive none = none

  unfoldable pub require_positive_integer : JsonFields → String → Identity ℕ
  require_positive_integer payload name =
      from_option (as_positive (get_field name payload)) invalid_field

  unfoldable pub optional_string : JsonFields → String → Identity (Option String)
  optional_string payload name = elim (get_field name payload) [
    | none ↦ ok none
    | some value ↦ do s ← require_string payload name; ok (some (trim s))
  ]

  abbrev pub both_or_none : Option String → Option String → Bool
  both_or_none none none = true
  both_or_none none (some b) = false
  both_or_none (some a) none = false
  both_or_none (some a) (some b) = true

  unfoldable pub apply_device_authorized :
      IdentityControlState → SignedIdentityEvent → Identity IdentityControlState
  apply_device_authorized s event = do
    require_controller_signer s event
    device ← require_string event.payload "authorizedDeviceId"
    key ← require_string event.payload "authorizedPublicKey"
    epoch ← require_positive_integer event.payload "epoch"
    wrap_key ← optional_string event.payload "wrapPublicKey"
    wrap_ref ← optional_string event.payload "wrapKeyRef"
    require (both_or_none wrap_key wrap_ref) wrap_incomplete
    require_monotonic_epoch s.epoch epoch
    ok (record (at_event s event) {
      epoch = epoch;
      devices =
          insert device
            (record {
              device_id = device;
              public_key = key;
              status = active;
              authorized_at = event.created_at;
              revoked_at = none;
              wrap_public_key = wrap_key;
              wrap_key_ref = wrap_ref;
            })
            s.devices;
    })

  unfoldable pub apply_device_revoked :
      IdentityControlState → SignedIdentityEvent → Identity IdentityControlState
  apply_device_revoked s event = do
    require_controller_signer s event
    device ← require_string event.payload "revokedDeviceId"
    epoch ← require_positive_integer event.payload "epoch"
    existing ← from_option (lookup device s.devices) unknown_device
    revoke_device s event epoch existing device

  unfoldable pub apply_device_rotated :
      IdentityControlState → SignedIdentityEvent → Identity IdentityControlState
  apply_device_rotated s event = do
    require_controller_signer s event
    device ← require_string event.payload "deviceId"
    previous ← require_string event.payload "previousPublicKey"
    new ← require_string event.payload "newPublicKey"
    epoch ← require_positive_integer event.payload "epoch"
    existing ← from_option (lookup device s.devices) unknown_device
    rotate_device s event epoch existing device previous new

  unfoldable pub apply_capability_granted :
      IdentityControlState → SignedIdentityEvent → Identity IdentityControlState
  apply_capability_granted s event = do
    require_controller_signer s event
    capability ← require_string event.payload "capabilityId"
    delegate ← require_string event.payload "delegateDeviceId"
    scope ← require_string event.payload "scope"
    expires_at ← require_string event.payload "expiresAt"
    require (is_some (date expires_at)) invalid_field
    ok (record (at_event s event) {
      capabilities =
          insert capability
            (record {
              capability_id = capability;
              delegate_device_id = delegate;
              scope = scope;
              expires_at = some expires_at;
              status = granted;
              granted_at = event.created_at;
              revoked_at = none;
            })
            s.capabilities;
    })

  unfoldable pub apply_capability_revoked :
      IdentityControlState → SignedIdentityEvent → Identity IdentityControlState
  apply_capability_revoked s event = do
    require_controller_signer s event
    capability ← require_string event.payload "capabilityId"
    delegate ← require_string event.payload "delegateDeviceId"
    existing ← from_option (lookup capability s.capabilities) unknown_capability
    revoke_capability s event existing capability delegate

  unfoldable pub apply_contact_card_published :
      IdentityControlState → SignedIdentityEvent → Identity IdentityControlState
  apply_contact_card_published s event = do
    require_controller_signer s event
    digest ← require_string event.payload "contactCardDigest"
    captured_at ← require_string event.payload "capturedAt"
    require (is_some (date captured_at)) invalid_field
    ok (record (at_event s event) {
      contact_card_publication = some (record {
        contact_card_digest = digest;
        captured_at = captured_at;
        published_at = event.created_at;
      });
    })

  -- The switch of `applyIdentityControlEvent`.
  unfoldable pub apply_kind :
      IdentityEventKind → IdentityControlState → SignedIdentityEvent → Identity IdentityControlState
  apply_kind controller_created s event = apply_controller_created s event
  apply_kind device_authorized s event = apply_device_authorized s event
  apply_kind device_revoked s event = apply_device_revoked s event
  apply_kind device_rotated s event = apply_device_rotated s event
  apply_kind capability_granted s event = apply_capability_granted s event
  apply_kind capability_revoked s event = apply_capability_revoked s event
  apply_kind contact_card_published s event = apply_contact_card_published s event
  apply_kind other_kind s event = ok s

  unfoldable pub apply_identity_control_event :
      IdentityControlState → SignedIdentityEvent → Identity IdentityControlState
  apply_identity_control_event s event = apply_kind event.kind s event

  -- The loop of `seedIdentityControlProjection`, after sorting.
  unfoldable pub apply_all :
      List SignedIdentityEvent → IdentityControlState → Identity IdentityControlState
  apply_all [] s = ok s
  apply_all (event ∷ rest) s = apply_identity_control_event s event >>= apply_all rest

  -- The comparison of `seedIdentityControlProjection`: whether `left` goes after `right`. Where a date
  -- is not finite it finds neither first. `locale_after` is `localeCompare` above 0.
  abbrev pub dates_after : Option ℕ → Option ℕ → Bool → Bool
  dates_after none right same_date = false
  dates_after (some left) none same_date = false
  dates_after (some left) (some right) same_date =
      if left == right then same_date else ltb right left

  module _ (locale_after : String → String → Bool)
      (same_signed_event : SignedIdentityEvent → SignedIdentityEvent → Bool) where
    abbrev pub goes_after : SignedIdentityEvent → SignedIdentityEvent → Bool
    goes_after left right =
        if left.lamport == right.lamport
        then dates_after (date left.created_at) (date right.created_at)
            (locale_after left.event_id right.event_id)
        else ltb right.lamport left.lamport

    unfoldable pub insert_event :
        SignedIdentityEvent → List SignedIdentityEvent → List SignedIdentityEvent
    insert_event event [] = event ∷ []
    insert_event event (first ∷ rest) =
        let later = insert_event event rest in
        if goes_after event first then first ∷ later else event ∷ first ∷ rest

    unfoldable pub sort_events : List SignedIdentityEvent → List SignedIdentityEvent
    sort_events [] = []
    sort_events (event ∷ rest) = insert_event event (sort_events rest)

    -- `same_signed_event` compares signatures and the canonical text of two events.
    unfoldable pub dedupe_sorted_events :
        Dict SignedIdentityEvent → List SignedIdentityEvent → Identity (List SignedIdentityEvent)
    dedupe_sorted_events seen [] = ok []
    dedupe_sorted_events seen (event ∷ rest) = elim (lookup event.event_id seen) [
      | none ↦ do
        deduped ← dedupe_sorted_events (insert event.event_id event seen) rest
        ok (event ∷ deduped)
      | some existing ↦ do
        require (same_signed_event existing event) conflicting_duplicate
        dedupe_sorted_events seen rest
    ]

    unfoldable pub seed_identity_control_projection :
        List SignedIdentityEvent → Identity IdentityControlState
    seed_identity_control_projection events = do
      deduped ← dedupe_sorted_events [] (sort_events events)
      apply_all deduped create_empty_identity_control_state
