-- ===== src/Projections/Mailbox/Lifecycle.antt =====
-- The life of an envelope in packages/mailbox-projection, on the recipient's and the sender's side.
use local_first_p2p_app.Common.{
  ◌≤◌, ◌≡◌, refl, sym, ap, subst, ◌∙◌, String, Bool, true, ◌||◌, Option, none, [], arith, str_eq,
  eq_iff,
}
use local_first_p2p_app.Common.Json.{JsonFields}
use local_first_p2p_app.Common.Result.{Result, ok, require, >>=-eq-ok}
use local_first_p2p_app.Projections.Entries.{
  update_entry, update_entry-Changes, unless, Steps, Steps-refl, Steps-Changes, Steps-add, Entries,
  Entries-changes, Entries-add,
}
use local_first_p2p_app.Projections.Mailbox.{
  EnvelopeStatus, queued, delivered, fetched, expired, InboxEntry, OutboxEntry, ReceiptRecord,
  AckRecord, MailboxErrorCode, MailboxState, MailboxEventKind, envelope_queued, envelope_delivered,
  envelope_expired, envelope_fetched, receipt_issued, ack_sent, checkpoint_advanced,
  MailboxDeliveryEnvelope, status_rank, is_expired, advance, update_inbox, update_outbox,
  new_inbox_entry, new_outbox_entry, queue_envelope, mark_delivered_in, mark_delivered_out,
  mark_fetched, mark_expired_in, mark_expired_out, add_receipt, set_ack, validate_envelope,
  apply_queued, apply_delivered, apply_fetched, apply_expired, apply_receipt, apply_ack,
  apply_checkpoint, apply_kind, req_str, opt_str, req_enum, max_id_length, recipient_mismatch,
  expiry_reasons, receipt_kinds, ack_kinds,
}

-- Delivery does not go back; what has expired stays as it is, but for receipts and acks.
pub record InProgress (e e' : InboxEntry) : Type 0 where
  pub same_envelope : e'.envelope ≡ e.envelope
  pub forward : status_rank e.status ≤ status_rank e'.status
  pub final : is_expired e.status ≡ true → record e' { receipts = [] } ≡ record e { receipts = [] }

pub record OutProgress (e e' : OutboxEntry) : Type 0 where
  pub same_envelope : e'.envelope ≡ e.envelope
  pub forward : status_rank e.status ≤ status_rank e'.status
  pub final : is_expired e.status ≡ true → record e' { ack = none } ≡ record e { ack = none }

InProgress-refl : (e : InboxEntry) → InProgress e e
InProgress-refl e = ground arith

pub InProgress-trans : (a b c : InboxEntry) → InProgress a b → InProgress b c → InProgress a c
InProgress-trans a b c p q = record {
  same_envelope = q.same_envelope ∙ p.same_envelope;
  forward = omega (arith, p.forward, q.forward);
  final = λ h. q.final (ap (λ x. is_expired x.status) (p.final h) ∙ h) ∙ p.final h;
}

advance-rank : (a b : EnvelopeStatus) → status_rank a ≤ status_rank (advance a b)
unfolding advance
advance-rank a b = ground arith

OutProgress-refl : (e : OutboxEntry) → OutProgress e e
OutProgress-refl e = ground arith

pub OutProgress-trans : (a b c : OutboxEntry) → OutProgress a b → OutProgress b c → OutProgress a c
OutProgress-trans a b c p q = record {
  same_envelope = q.same_envelope ∙ p.same_envelope;
  forward = omega (arith, p.forward, q.forward);
  final = λ h. q.final (ap (λ x. is_expired x.status) (p.final h) ∙ h) ∙ p.final h;
}

-- An entry is in the box of one of its parties, under its own id.
abbrev pub Received : String → String → InboxEntry → Type 0
Received identity k e = (e.envelope.envelope_id ≡ k) × (e.envelope.recipient_identity_id ≡ identity)

abbrev pub Sent : String → String → OutboxEntry → Type 0
Sent identity k e = (e.envelope.envelope_id ≡ k) × (e.envelope.sender_identity_id ≡ identity)

-- What an event does to the state, in all.
pub record Advances (s s' : MailboxState) : Type 0 where
  pub same_identity : s'.identity_id ≡ s.identity_id
  pub inbox_steps : Steps InProgress s.inbox s'.inbox
  pub outbox_steps : Steps OutProgress s.outbox s'.outbox
  pub received :
      Entries (Received s.identity_id) s.inbox → Entries (Received s.identity_id) s'.inbox
  pub sent : Entries (Sent s.identity_id) s.outbox → Entries (Sent s.identity_id) s'.outbox

module _ (s : MailboxState) (id : String) where
  -- One change of the inbox, and one of the outbox.
  in-Steps :
      (stops : InboxEntry → Bool) (f : InboxEntry → InboxEntry)
      → ((e : InboxEntry) → InProgress e (unless stops f e))
      → Steps InProgress s.inbox (update_entry stops f id s.inbox)
  in-Steps stops f step =
      Steps-Changes InProgress InProgress-refl (unless stops f) id s.inbox _
        (update_entry-Changes stops f id s.inbox) step

  in_entries :
      (stops : InboxEntry → Bool) (f : InboxEntry → InboxEntry)
      → ((e : InboxEntry) → (unless stops f e).envelope ≡ e.envelope)
      → Entries (Received s.identity_id) s.inbox
      → Entries (Received s.identity_id) (update_entry stops f id s.inbox)
  in_entries stops f same =
      Entries-changes (Received s.identity_id) (unless stops f) id s.inbox _
        (update_entry-Changes stops f id s.inbox)
        (λ k e h.
          subst (λ v. (v.envelope_id ≡ k) × (v.recipient_identity_id ≡ s.identity_id))
            (sym (same e)) h)

  out-Steps :
      (stops : OutboxEntry → Bool) (f : OutboxEntry → OutboxEntry)
      → ((e : OutboxEntry) → OutProgress e (unless stops f e))
      → Steps OutProgress s.outbox (update_entry stops f id s.outbox)
  out-Steps stops f step =
      Steps-Changes OutProgress OutProgress-refl (unless stops f) id s.outbox _
        (update_entry-Changes stops f id s.outbox) step

  out_entries :
      (stops : OutboxEntry → Bool) (f : OutboxEntry → OutboxEntry)
      → ((e : OutboxEntry) → (unless stops f e).envelope ≡ e.envelope)
      → Entries (Sent s.identity_id) s.outbox
      → Entries (Sent s.identity_id) (update_entry stops f id s.outbox)
  out_entries stops f same =
      Entries-changes (Sent s.identity_id) (unless stops f) id s.outbox _
        (update_entry-Changes stops f id s.outbox)
        (λ k e h.
          subst (λ v. (v.envelope_id ≡ k) × (v.sender_identity_id ≡ s.identity_id)) (sym (same e))
            h)

pub Advances-refl : (s : MailboxState) → Advances s s
Advances-refl s = record {
  same_identity = refl;
  inbox_steps = Steps-refl InProgress InProgress-refl s.inbox;
  outbox_steps = Steps-refl OutProgress OutProgress-refl s.outbox;
  received = λ h. h;
  sent = λ h. h;
}

delivered-Advances :
    (s : MailboxState) (id at : String) (provider : Option String)
    → Advances s (record s {
      inbox = update_inbox (mark_delivered_in at) id s.inbox;
      outbox = update_outbox (mark_delivered_out at provider) id s.outbox;
    })
delivered-Advances s id at provider = record {
  same_identity = refl;
  inbox_steps =
      in-Steps s id _ (mark_delivered_in at) (λ e. ground (arith, advance-rank e.status delivered));
  outbox_steps =
      out-Steps s id _ (mark_delivered_out at provider)
        (λ e. ground (arith, advance-rank e.status delivered));
  received = in_entries s id _ (mark_delivered_in at) (λ e. ground arith);
  sent = out_entries s id _ (mark_delivered_out at provider) (λ e. ground arith);
}

expired-Advances :
    (s : MailboxState) (id at reason : String)
    → Advances s (record s {
      inbox = update_inbox (mark_expired_in at reason) id s.inbox;
      outbox = update_outbox (mark_expired_out at reason) id s.outbox;
    })
expired-Advances s id at reason = record {
  same_identity = refl;
  inbox_steps =
      in-Steps s id _ (mark_expired_in at reason) (λ e. ground (arith, below_expired e.status));
  outbox_steps =
      out-Steps s id _ (mark_expired_out at reason) (λ e. ground (arith, below_expired e.status));
  received = in_entries s id _ (mark_expired_in at reason) (λ e. ground arith);
  sent = out_entries s id _ (mark_expired_out at reason) (λ e. ground arith);
}
  where
    below_expired : (a : EnvelopeStatus) → status_rank a ≤ 3
    below_expired queued = omega arith
    below_expired delivered = omega arith
    below_expired fetched = omega arith
    below_expired expired = omega arith

fetched-Advances :
    (s : MailboxState) (id at : String)
    → Advances s (record s { inbox = update_inbox (mark_fetched at) id s.inbox })
fetched-Advances s id at = record {
  same_identity = refl;
  inbox_steps =
      in-Steps s id _ (mark_fetched at) (λ e. ground (arith, advance-rank e.status fetched));
  outbox_steps = Steps-refl OutProgress OutProgress-refl s.outbox;
  received = in_entries s id _ (mark_fetched at) (λ e. ground arith);
  sent = λ h. h;
}

receipt-Advances :
    (s : MailboxState) (id : String) (receipt : ReceiptRecord)
    → Advances s (record s { inbox = add_receipt receipt id s.inbox })
receipt-Advances s id receipt = record {
  same_identity = refl;
  inbox_steps = in-Steps s id _ _ (λ e. ground arith);
  outbox_steps = Steps-refl OutProgress OutProgress-refl s.outbox;
  received = in_entries s id _ _ (λ e. ground arith);
  sent = λ h. h;
}

ack-Advances :
    (s : MailboxState) (id : String) (ack : AckRecord)
    → Advances s (record s { outbox = set_ack ack id s.outbox })
ack-Advances s id ack = record {
  same_identity = refl;
  inbox_steps = Steps-refl InProgress InProgress-refl s.inbox;
  outbox_steps = out-Steps s id _ _ (λ e. ground arith);
  received = λ h. h;
  sent = out_entries s id _ _ (λ e. ground arith);
}

queue-Advances : (s : MailboxState) (v : MailboxDeliveryEnvelope) → Advances s (queue_envelope s v)
unfolding queue_envelope
queue-Advances s v = record {
  same_identity = refl;
  inbox_steps = Steps-add InProgress InProgress-refl _ v.envelope_id (new_inbox_entry v) s.inbox;
  outbox_steps =
      Steps-add OutProgress OutProgress-refl _ v.envelope_id (new_outbox_entry v) s.outbox;
  received =
      Entries-add (Received s.identity_id) _ v.envelope_id (new_inbox_entry v) s.inbox
        (λ mine. (refl, (eq_iff v.recipient_identity_id s.identity_id).0 mine));
  sent =
      Entries-add (Sent s.identity_id) _ v.envelope_id (new_outbox_entry v) s.outbox
        (λ mine. (refl, (eq_iff v.sender_identity_id s.identity_id).0 mine));
}

-- A state that is the result of one of the handlers.
returned-Advances :
    (s t : MailboxState) (m : MailboxState)
    → ◌≡◌ {A = Result MailboxErrorCode MailboxState} (ok m) (ok t)
    → Advances s m
    → Advances s t
returned-Advances s t m h a = let e : m ≡ t = cc h in subst (Advances s) e a

module _ (iso : String → Option String) (s t : MailboxState) (payload : JsonFields) where
  pub kind-Advances :
      (kind : MailboxEventKind) → apply_kind iso kind s payload ≡ ok t → Advances s t
  unfolding apply_kind apply_queued apply_delivered apply_fetched apply_expired apply_receipt
      apply_ack apply_checkpoint
  kind-Advances envelope_queued h =
      let (v, _, h1) = >>=-eq-ok (validate_envelope iso payload) _ h in
      let (_, _, h2) =
        >>=-eq-ok
          (require
            (str_eq v.recipient_identity_id s.identity_id
              || str_eq v.sender_identity_id s.identity_id)
            recipient_mismatch)
          _ h1 in
      returned-Advances s t _ h2 (queue-Advances s v)
  kind-Advances envelope_delivered h =
      let (id, _, h1) = >>=-eq-ok (req_str payload "envelopeId" max_id_length) _ h in
      let (at, _, h2) = >>=-eq-ok (req_str payload "deliveredAt" max_id_length) _ h1 in
      let (provider, _, h3) = >>=-eq-ok (opt_str payload "providerId") _ h2 in
      returned-Advances s t _ h3 (delivered-Advances s id at provider)
  kind-Advances envelope_fetched h =
      let (id, _, h1) = >>=-eq-ok (req_str payload "envelopeId" max_id_length) _ h in
      let (at, _, h2) = >>=-eq-ok (req_str payload "fetchedAt" max_id_length) _ h1 in
      let (_, _, h3) = >>=-eq-ok (req_str payload "recipientDeviceId" max_id_length) _ h2 in
      returned-Advances s t _ h3 (fetched-Advances s id at)
  kind-Advances envelope_expired h =
      let (id, _, h1) = >>=-eq-ok (req_str payload "envelopeId" max_id_length) _ h in
      let (at, _, h2) = >>=-eq-ok (req_str payload "expiredAt" max_id_length) _ h1 in
      let (reason, _, h3) = >>=-eq-ok (req_enum payload "reason" expiry_reasons) _ h2 in
      returned-Advances s t _ h3 (expired-Advances s id at reason)
  kind-Advances receipt_issued h =
      let (id, _, h1) = >>=-eq-ok (req_str payload "envelopeId" max_id_length) _ h in
      let (rid, _, h2) = >>=-eq-ok (req_str payload "receiptId" max_id_length) _ h1 in
      let (kind, _, h3) = >>=-eq-ok (req_enum payload "receiptKind" receipt_kinds) _ h2 in
      let (at, _, h4) = >>=-eq-ok (req_str payload "issuedAt" max_id_length) _ h3 in
      returned-Advances s t _ h4
        (receipt-Advances s id (record { receipt_id = rid; receipt_kind = kind; issued_at = at }))
  kind-Advances ack_sent h =
      let (id, _, h1) = >>=-eq-ok (req_str payload "envelopeId" max_id_length) _ h in
      let (aid, _, h2) = >>=-eq-ok (req_str payload "ackId" max_id_length) _ h1 in
      let (kind, _, h3) = >>=-eq-ok (req_enum payload "ackKind" ack_kinds) _ h2 in
      let (at, _, h4) = >>=-eq-ok (req_str payload "sentAt" max_id_length) _ h3 in
      returned-Advances s t _ h4
        (ack-Advances s id (record { ack_id = aid; ack_kind = kind; sent_at = at }))
  kind-Advances checkpoint_advanced h =
      let (mid, _, h1) = >>=-eq-ok (req_str payload "mailboxId" max_id_length) _ h in
      let (cid, _, h2) = >>=-eq-ok (req_str payload "checkpointId" max_id_length) _ h1 in
      let (cursor, _, h3) = >>=-eq-ok (req_str payload "cursor" max_id_length) _ h2 in
      let (at, _, h4) = >>=-eq-ok (req_str payload "advancedAt" max_id_length) _ h3 in
      returned-Advances s t _ h4 (record {
        same_identity = refl;
        inbox_steps = Steps-refl InProgress InProgress-refl s.inbox;
        outbox_steps = Steps-refl OutProgress OutProgress-refl s.outbox;
        received = λ x. x;
        sent = λ x. x;
      })
