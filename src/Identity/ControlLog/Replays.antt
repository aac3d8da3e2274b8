-- ===== src/Identity/ControlLog/Replays.antt =====
-- Who may act on an identity of packages/identity/src/control-log.ts, and what a replayed event does.
use local_first_p2p_app.Common.{
  ℕ, ◌≡◌, ◌⊎◌, refl, sym, ap, subst, ◌∙◌, String, Bool, true, false, Option, none, some, List, ◌∷◌,
  arith, is_some, str_eq, eq_iff, inl, inr, eq_refl,
}
use local_first_p2p_app.Common.Dict.{Dict, lookup, insert, lookup-insert}
use local_first_p2p_app.Common.Result.{ok, require, from_option, >>=-eq-ok}
use local_first_p2p_app.Identity.ControlLog.{
  IdentityControlCapability, IdentityControlState, IdentityEventKind, controller_created, granted,
  device_authorized, device_revoked, device_rotated, capability_granted, capability_revoked,
  contact_card_published, other_kind, SignedIdentityEvent, require_string,
  require_controller_signer, apply_controller_created, at_event, invalid_field, controller_missing,
  apply_device_authorized, apply_device_revoked, apply_device_rotated, apply_capability_granted,
  apply_capability_revoked, apply_contact_card_published, apply_kind, apply_identity_control_event,
  apply_all,
}
use local_first_p2p_app.Identity.ControlLog.Succession.{
  apply_all-Succeeds, authorized-epoch, rotated-epoch,
}

signed_lem :
    (s : IdentityControlState) (e : SignedIdentityEvent) (k : String) (u : Unit {0})
    → s.controller_public_key ≡ some k
    → require_controller_signer s e ≡ ok u
    → e.signer ≡ k
signed_lem s e k u there h =
    let (c, at, h1) = >>=-eq-ok (from_option s.controller_public_key controller_missing) _ h in
    let same : c ≡ k = ground (arith, at, there) in ground (arith, h1, same, eq_iff e.signer c)

module _ (positive : String → Option ℕ) (date : String → Option ℕ) (trim : String → String) where
  created_once :
      (s : IdentityControlState) (e : SignedIdentityEvent) (k : String) (s' : IdentityControlState)
      → s.controller_public_key ≡ some k
      → ¬ (apply_controller_created s e ≡ ok s')
  unfolding apply_controller_created
  created_once s e k s' there h =
      let (_, _, h1) = >>=-eq-ok (require_string e.payload "controllerPublicKey") _ h in
      let (_, _, h2) = >>=-eq-ok (require_string e.payload "initialDeviceId") _ h1 in
      let present : is_some s.controller_public_key ≡ true = ap is_some there in
      ground (arith, h2, present)

  kind_signed :
      (kind : IdentityEventKind) (s : IdentityControlState) (e : SignedIdentityEvent) (k : String)
      (s' : IdentityControlState)
      → s.controller_public_key ≡ some k
      → apply_kind positive date trim kind s e ≡ ok s'
      → (e.signer ≡ k) ⊎ (s' ≡ s)
  unfolding apply_kind apply_device_authorized apply_device_revoked apply_device_rotated
      apply_capability_granted apply_capability_revoked apply_contact_card_published
  kind_signed controller_created s e k s' there h = absurd (created_once s e k s' there h)
  kind_signed device_authorized s e k s' there h =
      let (u, by, _) = >>=-eq-ok (require_controller_signer s e) _ h in
      inl (signed_lem s e k u there by)
  kind_signed device_revoked s e k s' there h =
      let (u, by, _) = >>=-eq-ok (require_controller_signer s e) _ h in
      inl (signed_lem s e k u there by)
  kind_signed device_rotated s e k s' there h =
      let (u, by, _) = >>=-eq-ok (require_controller_signer s e) _ h in
      inl (signed_lem s e k u there by)
  kind_signed capability_granted s e k s' there h =
      let (u, by, _) = >>=-eq-ok (require_controller_signer s e) _ h in
      inl (signed_lem s e k u there by)
  kind_signed capability_revoked s e k s' there h =
      let (u, by, _) = >>=-eq-ok (require_controller_signer s e) _ h in
      inl (signed_lem s e k u there by)
  kind_signed contact_card_published s e k s' there h =
      let (u, by, _) = >>=-eq-ok (require_controller_signer s e) _ h in
      inl (signed_lem s e k u there by)
  kind_signed other_kind s e k s' there h = inr (cc h)

  -- Once a log has a controller, and whatever was applied since without an error, an event that is
  -- applied without an error is signed with the controller's key or changes nothing.
  pub apply_all_signed :
      (es : List SignedIdentityEvent) (s m s' : IdentityControlState) (e : SignedIdentityEvent)
      (k : String)
      → s.controller_public_key ≡ some k
      → apply_all positive date trim es s ≡ ok m
      → apply_identity_control_event positive date trim m e ≡ ok s'
      → (e.signer ≡ k) ⊎ (s' ≡ m)
  unfolding apply_identity_control_event
  apply_all_signed es s m s' e k there h last =
      kind_signed e.kind m e k s'
        ((apply_all-Succeeds positive date trim es s m h).same_controller k there) last

  -- An event that authorizes a device or rotates its key is applied once: however many events follow
  -- it without an error, applying it again is an error.
  pub replayed_device-refused :
      (es : List SignedIdentityEvent) (s m s' again : IdentityControlState)
      (e : SignedIdentityEvent)
      → (e.kind ≡ device_authorized) ⊎ (e.kind ≡ device_rotated)
      → apply_identity_control_event positive date trim s e ≡ ok m
      → apply_all positive date trim es m ≡ ok s'
      → ¬ (apply_identity_control_event positive date trim s' e ≡ ok again)
  unfolding apply_identity_control_event apply_kind
  replayed_device-refused es s m s' again e kind h between h2 = elim kind [
    | inl authorized ↦
        let (_, _, read) =
          authorized-epoch positive date trim s e m
            (subst (λ q. apply_kind positive date trim q s e ≡ ok m) authorized h) in
        let (_, less, read2) =
          authorized-epoch positive date trim s' e again
            (subst (λ q. apply_kind positive date trim q s' e ≡ ok again) authorized h2) in
        let same : m.epoch ≡ again.epoch = cc (read, read2) in
        omega (arith, less, same, (apply_all-Succeeds positive date trim es m s' between).later)
    | inr rotated ↦
        let (_, _, read) =
          rotated-epoch positive date trim s e m
            (subst (λ q. apply_kind positive date trim q s e ≡ ok m) rotated h) in
        let (_, less, read2) =
          rotated-epoch positive date trim s' e again
            (subst (λ q. apply_kind positive date trim q s' e ≡ ok again) rotated h2) in
        let same : m.epoch ≡ again.epoch = cc (read, read2) in
        omega (arith, less, same, (apply_all-Succeeds positive date trim es m s' between).later)
  ]

  abbrev grant_of :
      SignedIdentityEvent → String → String → String → String → IdentityControlCapability
  grant_of e id delegate scope x = record {
    capability_id = id;
    delegate_device_id = delegate;
    scope = scope;
    expires_at = some x;
    status = granted;
    granted_at = e.created_at;
    revoked_at = none;
  }

  require-true : (b : Bool) (u : Unit {0}) → require b invalid_field ≡ ok u → b ≡ true
  require-true true u h = refl
  require-true false u h = cc h

  -- What a grant needs, and that this is enough.
  granted_parts :
      (s m : IdentityControlState) (e : SignedIdentityEvent)
      → apply_capability_granted positive date trim s e ≡ ok m
      → (id : String) × (delegate : String) × (scope : String) × (x : String) × (require_string
            e.payload "capabilityId"
          ≡ ok id)
        × (require_string e.payload "delegateDeviceId" ≡ ok delegate)
        × (require_string e.payload "scope" ≡ ok scope)
        × (require_string e.payload "expiresAt" ≡ ok x)
        × (is_some (date x) ≡ true)
        × (m.capabilities ≡ insert id (grant_of e id delegate scope x) s.capabilities)
  unfolding apply_capability_granted
  granted_parts s m e h =
      let (_, _, h1) = >>=-eq-ok (require_controller_signer s e) _ h in
      let (id, r1, h2) = >>=-eq-ok (require_string e.payload "capabilityId") _ h1 in
      let (delegate, r2, h3) = >>=-eq-ok (require_string e.payload "delegateDeviceId") _ h2 in
      let (scope, r3, h4) = >>=-eq-ok (require_string e.payload "scope") _ h3 in
      let (x, r4, h5) = >>=-eq-ok (require_string e.payload "expiresAt") _ h4 in
      let (u, r5, h6) = >>=-eq-ok (require (is_some (date x)) invalid_field) _ h5 in
      (id, delegate, scope, x, r1, r2, r3, r4, require-true (is_some (date x)) u r5, cc h6)

  granted_from :
      (s : IdentityControlState) (e : SignedIdentityEvent) (k id delegate scope x : String)
      → s.controller_public_key ≡ some k
      → str_eq e.signer k ≡ true
      → require_string e.payload "capabilityId" ≡ ok id
      → require_string e.payload "delegateDeviceId" ≡ ok delegate
      → require_string e.payload "scope" ≡ ok scope
      → require_string e.payload "expiresAt" ≡ ok x
      → is_some (date x) ≡ true
      → apply_capability_granted positive date trim s e
        ≡ ok (record (at_event s e) {
          capabilities = insert id (grant_of e id delegate scope x) s.capabilities;
        })
  unfolding apply_capability_granted
  granted_from s e k id delegate scope x there signer r1 r2 r3 r4 r5 =
      ground (arith, there, signer, r1, r2, r3, r4, r5)

  granted_by :
      (s m : IdentityControlState) (e : SignedIdentityEvent) (k : String)
      → s.controller_public_key ≡ some k
      → apply_capability_granted positive date trim s e ≡ ok m
      → e.signer ≡ k
  unfolding apply_capability_granted
  granted_by s m e k there h =
      let (u, by, _) = >>=-eq-ok (require_controller_signer s e) _ h in signed_lem s e k u there by

  -- A replayed grant is taken again: however many events follow the grant of a capability without an
  -- error, its revocation among them, applying the grant once more succeeds and leaves the capability
  -- as the grant had made it, in status granted.
  pub replayed_grant-taken :
      (es : List SignedIdentityEvent) (s m s' : IdentityControlState) (e : SignedIdentityEvent)
      (k : String)
      → e.kind ≡ capability_granted
      → s.controller_public_key ≡ some k
      → apply_identity_control_event positive date trim s e ≡ ok m
      → apply_all positive date trim (e ∷ es) s ≡ ok s'
      → (id : String) × (c : IdentityControlCapability) × (again : IdentityControlState) × (c.status
          ≡ granted)
        × (lookup id m.capabilities ≡ some c)
        × (apply_identity_control_event positive date trim s' e ≡ ok again)
        × (lookup id again.capabilities ≡ some c)
  unfolding apply_identity_control_event apply_kind
  replayed_grant-taken es s m s' e k kind there h all =
      let h1 = subst (λ q. apply_kind positive date trim q s e ≡ ok m) kind h in
      let there' =
        (apply_all-Succeeds positive date trim (e ∷ es) s s' all).same_controller k there in
      let (id, delegate, scope, x, r1, r2, r3, r4, r5, made) = granted_parts s m e h1 in
      let c = grant_of e id delegate scope x in
      let signer : str_eq e.signer k ≡ true = (eq_iff e.signer k).1 (granted_by s m e k there h1) in
      let again = record (at_event s' e) { capabilities = insert id c s'.capabilities } in
      let taken = granted_from s' e k id delegate scope x there' signer r1 r2 r3 r4 r5 in
      let held : (d : Dict IdentityControlCapability) → lookup id (insert id c d) ≡ some c =
        λ d. lookup-insert id id c d ∙ (rw (eq_refl id) refl) in
      (
        id,
        c,
        again,
        refl,
        ap (lookup id) made ∙ held s.capabilities,
        subst (λ q. apply_kind positive date trim q s' e ≡ ok again) (sym kind) taken,
        held s'.capabilities,
      )
