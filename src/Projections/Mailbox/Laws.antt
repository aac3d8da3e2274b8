-- ===== src/Projections/Mailbox/Laws.antt =====
-- The mailbox projection of packages/mailbox-projection as one whose logs are folded.
use local_first_p2p_app.Common.{
  ◌≡◌, refl, ap, String, true, false, not, Option, [], ◌∷◌, ◌++◌, if◌then◌else◌, contains,
}
use local_first_p2p_app.Common.Json.{JsonValue, JsonFields, as_object}
use local_first_p2p_app.Common.Text.{text_lt}
use local_first_p2p_app.Common.Result.{ok, require, from_option, >>=-eq-ok}
use local_first_p2p_app.Projections.Replay.{Projection}
use local_first_p2p_app.Projections.Mailbox.{
  MailboxErrorCode, MailboxState, ApplyMailboxEventMeta, is_empty, apply_kind, apply_mailbox_event,
  invalid_payload,
}

-- An event with an id and a time.
pub record MailboxEvent : Type 0 where
  pub payload : JsonValue
  pub meta : ApplyMailboxEventMeta
  pub named : is_empty meta.event_id ≡ false
  pub dated : is_empty meta.created_at ≡ false

module _ (iso : String → Option String) where
  pub seen_lem :
      (s : MailboxState) (e : MailboxEvent)
      → contains s.applied_event_ids e.meta.event_id ≡ true
      → apply_mailbox_event iso s e.payload e.meta ≡ ok s
  unfolding apply_mailbox_event
  seen_lem s e h = rw (e.named, e.dated, h) refl

  -- An event that is folded in: what it makes of the state, and the id and time that are kept.
  pub fresh_lem :
      (s : MailboxState) (raw : JsonValue) (meta : ApplyMailboxEventMeta) (s' : MailboxState)
      → contains s.applied_event_ids meta.event_id ≡ false
      → apply_mailbox_event iso s raw meta ≡ ok s'
      → (fields : JsonFields) × (base : MailboxState) × (apply_kind iso meta.kind s fields
          ≡ ok base)
        × (s'.applied_event_ids ≡ s.applied_event_ids ++ meta.event_id ∷ [])
        × (s'.identity_id ≡ base.identity_id)
        × (s'.inbox ≡ base.inbox)
        × (s'.outbox ≡ base.outbox)
        × (s'.checkpoints ≡ base.checkpoints)
  unfolding apply_mailbox_event
  fresh_lem s raw meta s' new h =
      let (_, _, h1) = >>=-eq-ok (require (not (is_empty meta.event_id)) invalid_payload) _ h in
      let (_, _, h2) = >>=-eq-ok (require (not (is_empty meta.created_at)) invalid_payload) _ h1 in
      let h3 = rw new at h2 in
      let (fields, _, h4) = >>=-eq-ok (from_option (as_object raw) invalid_payload) _ h3 in
      let (base, done, h5) = >>=-eq-ok (apply_kind iso meta.kind s fields) _ h4 in
      let e : s' ≡ record base {
        updated_at = if text_lt s.updated_at meta.created_at then meta.created_at else s.updated_at;
        applied_event_ids = s.applied_event_ids ++ meta.event_id ∷ [];
      } =
        cc h5 in
      (
        fields,
        base,
        done,
        ap (λ x. x.applied_event_ids) e,
        ap (λ x. x.identity_id) e,
        ap (λ x. x.inbox) e,
        ap (λ x. x.outbox) e,
        ap (λ x. x.checkpoints) e,
      )

  abbrev pub mailbox_projection : Projection
  mailbox_projection = record {
    State = MailboxState;
    Event = MailboxEvent;
    Error = MailboxErrorCode;
    apply = λ s e. apply_mailbox_event iso s e.payload e.meta;
  }
