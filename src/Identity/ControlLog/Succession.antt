-- ===== src/Identity/ControlLog/Succession.antt =====
-- What becomes of an identity of packages/identity/src/control-log.ts as events are applied.
use local_first_p2p_app.Common.{
  ℕ, ◌<◌, ◌≤◌, ◌≡◌, refl, sym, ap, subst, ◌∙◌, String, true, false, Option, none, some, List, [],
  ◌∷◌, arith, if◌then◌else◌, is_some, inl, inr, Bool-cases, Option-cases,
}
use local_first_p2p_app.Common.Dict.{lookup}
use local_first_p2p_app.Common.Result.{ok, require, from_option, >>=-eq-ok}
use local_first_p2p_app.Identity.ControlLog.{
  IdentityControlDevice, IdentityControlState, IdentityEventKind, controller_created,
  device_authorized, device_revoked, device_rotated, capability_granted, capability_revoked,
  contact_card_published, other_kind, SignedIdentityEvent, require_string,
  require_controller_signer, apply_controller_created, is_device_active, revoke_device,
  rotate_device, revoke_capability, require_positive_integer, optional_string, both_or_none,
  apply_device_authorized, apply_device_revoked, apply_device_rotated, apply_capability_granted,
  apply_capability_revoked, apply_contact_card_published, apply_kind, apply_identity_control_event,
  apply_all,
}

-- Whether a device is there and active, and with which key.
abbrev pub key_of : Option IdentityControlDevice → Option String
key_of none = none
key_of (some d) = if is_device_active d.status then some d.public_key else none

-- What an event may change: only the first sets the controller, and the key of a device that is active
-- changes, comes or goes only as the epoch rises.
pub record Succeeds (s s' : IdentityControlState) : Type 0 where
  pub same_controller :
      (k : String) → s.controller_public_key ≡ some k → s'.controller_public_key ≡ some k
  pub later : s.epoch ≤ s'.epoch
  pub same_keys :
      is_some s.controller_public_key ≡ true
      → s.epoch ≡ s'.epoch
      → (id : String) → key_of (lookup id s'.devices) ≡ key_of (lookup id s.devices)

Succeeds-refl : (s : IdentityControlState) → Succeeds s s
Succeeds-refl s = record {
  same_controller = λ k h. h;
  later = omega arith;
  same_keys = λ c e id. refl;
}

Succeeds-trans : (a b c : IdentityControlState) → Succeeds a b → Succeeds b c → Succeeds a c
Succeeds-trans a b c p q = record {
  same_controller = λ k h. q.same_controller k (p.same_controller k h);
  later = omega (arith, p.later, q.later);
  same_keys = λ h e id.
      let ab : a.epoch ≡ b.epoch = omega (arith, p.later, q.later, e) in
      let bc : b.epoch ≡ c.epoch = omega (arith, p.later, q.later, e) in
      let hb : is_some b.controller_public_key ≡ true =
        elim (Option-cases a.controller_public_key) [
          | inl absent ↦ cc (h, ap is_some absent)
          | inr (k, there) ↦ ap is_some (p.same_controller k there)
        ] in
      q.same_keys hb bc id ∙ p.same_keys h ab id;
}

module _ (s s' : IdentityControlState) where
  -- An event that leaves controller, epoch and devices alone, and one that raises the epoch.
  alone-Succeeds :
      s'.controller_public_key ≡ s.controller_public_key
      → s'.epoch ≡ s.epoch
      → s'.devices ≡ s.devices
      → Succeeds s s'
  alone-Succeeds c e d = record {
    same_controller = λ k h. c ∙ h;
    later = omega (arith, e);
    same_keys = λ h same id. ap (λ ds. key_of (lookup id ds)) d;
  }

  raised-Succeeds :
      s'.controller_public_key ≡ s.controller_public_key → s.epoch < s'.epoch → Succeeds s s'
  raised-Succeeds c less = record {
    same_controller = λ k h. c ∙ h;
    later = omega (arith, less);
    same_keys = λ h same id. let no : ⊥ = omega (arith, less, same) in absurd no;
  }

  first-Succeeds : is_some s.controller_public_key ≡ false → s'.epoch ≡ s.epoch → Succeeds s s'
  first-Succeeds absent e = record {
    same_controller = λ k h. cc (absent, ap is_some h);
    later = omega (arith, e);
    same_keys = λ h same id. cc (h, absent);
  }

module _ (positive : String → Option ℕ) (date : String → Option ℕ) (trim : String → String) where
  created-Succeeds :
      (s : IdentityControlState) (e : SignedIdentityEvent) (s' : IdentityControlState)
      → apply_controller_created s e ≡ ok s'
      → Succeeds s s'
  unfolding apply_controller_created
  created-Succeeds s e s' h =
      let (_, _, h1) = >>=-eq-ok (require_string e.payload "controllerPublicKey") _ h in
      let (_, _, h2) = >>=-eq-ok (require_string e.payload "initialDeviceId") _ h1 in
      elim (Bool-cases (is_some s.controller_public_key)) [
        | inl there ↦ ground (arith, h2, there)
        | inr absent ↦ first-Succeeds s s' absent (ground (arith, h2, absent))
      ]

  pub authorized-epoch :
      (s : IdentityControlState) (e : SignedIdentityEvent) (s' : IdentityControlState)
      → apply_device_authorized positive date trim s e ≡ ok s'
      → (s'.controller_public_key ≡ s.controller_public_key)
        × (s.epoch < s'.epoch)
        × (require_positive_integer positive date trim e.payload "epoch" ≡ ok s'.epoch)
  unfolding apply_device_authorized
  authorized-epoch s e s' h =
      let (_, _, h1) = >>=-eq-ok (require_controller_signer s e) _ h in
      let (_, _, h2) = >>=-eq-ok (require_string e.payload "authorizedDeviceId") _ h1 in
      let (_, _, h3) = >>=-eq-ok (require_string e.payload "authorizedPublicKey") _ h2 in
      let (n, read, h4) =
        >>=-eq-ok (require_positive_integer positive date trim e.payload "epoch") _ h3 in
      let (a, _, h5) =
        >>=-eq-ok (optional_string positive date trim e.payload "wrapPublicKey") _ h4 in
      let (b, _, h6) = >>=-eq-ok (optional_string positive date trim e.payload "wrapKeyRef") _ h5 in
      let (_, _, h7) = >>=-eq-ok (require (both_or_none positive date trim a b) _) _ h6 in
      let now : s'.epoch ≡ n = ground (arith, h7) in
      (ground (arith, h7), ground (arith, h7), read ∙ ap ok (sym now))

  revoked-Succeeds :
      (s : IdentityControlState) (e : SignedIdentityEvent) (s' : IdentityControlState)
      → apply_device_revoked positive date trim s e ≡ ok s'
      → Succeeds s s'
  unfolding apply_device_revoked revoke_device
  revoked-Succeeds s e s' h =
      let (_, _, h1) = >>=-eq-ok (require_controller_signer s e) _ h in
      let (_, _, h2) = >>=-eq-ok (require_string e.payload "revokedDeviceId") _ h1 in
      let (n, _, h3) =
        >>=-eq-ok (require_positive_integer positive date trim e.payload "epoch") _ h2 in
      let (d, _, h4) = >>=-eq-ok (from_option (lookup _ s.devices) _) _ h3 in
      elim (Bool-cases (is_device_active d.status)) [
        | inl on ↦ raised-Succeeds s s' (ground (arith, h4, on)) (ground (arith, h4, on))
        | inr off ↦
            alone-Succeeds s s' (ground (arith, h4, off)) (ground (arith, h4, off))
              (ground (arith, h4, off))
      ]

  pub rotated-epoch :
      (s : IdentityControlState) (e : SignedIdentityEvent) (s' : IdentityControlState)
      → apply_device_rotated positive date trim s e ≡ ok s'
      → (s'.controller_public_key ≡ s.controller_public_key)
        × (s.epoch < s'.epoch)
        × (require_positive_integer positive date trim e.payload "epoch" ≡ ok s'.epoch)
  unfolding apply_device_rotated rotate_device
  rotated-epoch s e s' h =
      let (_, _, h1) = >>=-eq-ok (require_controller_signer s e) _ h in
      let (_, _, h2) = >>=-eq-ok (require_string e.payload "deviceId") _ h1 in
      let (_, _, h3) = >>=-eq-ok (require_string e.payload "previousPublicKey") _ h2 in
      let (_, _, h4) = >>=-eq-ok (require_string e.payload "newPublicKey") _ h3 in
      let (n, read, h5) =
        >>=-eq-ok (require_positive_integer positive date trim e.payload "epoch") _ h4 in
      let (d, _, h6) = >>=-eq-ok (from_option (lookup _ s.devices) _) _ h5 in
      let now : s'.epoch ≡ n = ground (arith, h6) in
      (ground (arith, h6), ground (arith, h6), read ∙ ap ok (sym now))

  granted-Succeeds :
      (s : IdentityControlState) (e : SignedIdentityEvent) (s' : IdentityControlState)
      → apply_capability_granted positive date trim s e ≡ ok s'
      → Succeeds s s'
  unfolding apply_capability_granted
  granted-Succeeds s e s' h =
      let (_, _, h1) = >>=-eq-ok (require_controller_signer s e) _ h in
      let (_, _, h2) = >>=-eq-ok (require_string e.payload "capabilityId") _ h1 in
      let (_, _, h3) = >>=-eq-ok (require_string e.payload "delegateDeviceId") _ h2 in
      let (_, _, h4) = >>=-eq-ok (require_string e.payload "scope") _ h3 in
      let (x, _, h5) = >>=-eq-ok (require_string e.payload "expiresAt") _ h4 in
      let (_, _, h6) = >>=-eq-ok (require (is_some (date x)) _) _ h5 in
      alone-Succeeds s s' (cc h6) (cc h6) (cc h6)

  withdrawn-Succeeds :
      (s : IdentityControlState) (e : SignedIdentityEvent) (s' : IdentityControlState)
      → apply_capability_revoked positive date trim s e ≡ ok s'
      → Succeeds s s'
  unfolding apply_capability_revoked revoke_capability
  withdrawn-Succeeds s e s' h =
      let (_, _, h1) = >>=-eq-ok (require_controller_signer s e) _ h in
      let (_, _, h2) = >>=-eq-ok (require_string e.payload "capabilityId") _ h1 in
      let (_, _, h3) = >>=-eq-ok (require_string e.payload "delegateDeviceId") _ h2 in
      let (d, _, h4) = >>=-eq-ok (from_option (lookup _ s.capabilities) _) _ h3 in
      alone-Succeeds s s' (ground (arith, h4)) (ground (arith, h4)) (ground (arith, h4))

  published-Succeeds :
      (s : IdentityControlState) (e : SignedIdentityEvent) (s' : IdentityControlState)
      → apply_contact_card_published positive date trim s e ≡ ok s'
      → Succeeds s s'
  unfolding apply_contact_card_published
  published-Succeeds s e s' h =
      let (_, _, h1) = >>=-eq-ok (require_controller_signer s e) _ h in
      let (_, _, h2) = >>=-eq-ok (require_string e.payload "contactCardDigest") _ h1 in
      let (x, _, h3) = >>=-eq-ok (require_string e.payload "capturedAt") _ h2 in
      let (_, _, h4) = >>=-eq-ok (require (is_some (date x)) _) _ h3 in
      alone-Succeeds s s' (cc h4) (cc h4) (cc h4)

  kind-Succeeds :
      (kind : IdentityEventKind) (s : IdentityControlState) (e : SignedIdentityEvent)
      (s' : IdentityControlState)
      → apply_kind positive date trim kind s e ≡ ok s'
      → Succeeds s s'
  unfolding apply_kind
  kind-Succeeds controller_created s e s' h = created-Succeeds s e s' h
  kind-Succeeds device_authorized s e s' h =
      let (c, less, _) = authorized-epoch s e s' h in raised-Succeeds s s' c less
  kind-Succeeds device_revoked s e s' h = revoked-Succeeds s e s' h
  kind-Succeeds device_rotated s e s' h =
      let (c, less, _) = rotated-epoch s e s' h in raised-Succeeds s s' c less
  kind-Succeeds capability_granted s e s' h = granted-Succeeds s e s' h
  kind-Succeeds capability_revoked s e s' h = withdrawn-Succeeds s e s' h
  kind-Succeeds contact_card_published s e s' h = published-Succeeds s e s' h
  kind-Succeeds other_kind s e s' h =
      let same : s ≡ s' = cc h in subst (Succeeds s) same (Succeeds-refl s)

  -- However many events are applied without an error, the controller stays, the epoch does not fall,
  -- and while the epoch is the same under a controller, no device becomes active, ceases to be, or
  -- changes its key.
  pub apply_all-Succeeds :
      (es : List SignedIdentityEvent) (s s' : IdentityControlState)
      → apply_all positive date trim es s ≡ ok s'
      → Succeeds s s'
  unfolding apply_all apply_identity_control_event
  apply_all-Succeeds [] s s' h =
      let same : s ≡ s' = cc h in subst (Succeeds s) same (Succeeds-refl s)
  apply_all-Succeeds (e ∷ es) s s' h =
      let (m, h1, h2) = >>=-eq-ok (apply_identity_control_event positive date trim s e) _ h in
      Succeeds-trans s m s' (kind-Succeeds e.kind s e m h1) (apply_all-Succeeds es m s' h2)
