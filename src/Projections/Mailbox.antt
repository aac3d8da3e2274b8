-- ===== src/Projections/Mailbox.antt =====
-- packages/mailbox-projection/src/index.ts: the delivery state of one identity's envelopes, from
-- decrypted mailbox events. A Map is a dictionary in insertion order; a thrown MailboxProjectionError
-- is an `err` with its code. `iso` is `Date.parse` followed by `toISOString`, and `none` where the
-- date is not finite.
pub mod Laws
pub mod Lifecycle
pub mod Runs
mod Tests
use local_first_p2p_app.Common.{
  ℕ, String, Bool, true, false, not, ◌&&◌, ◌||◌, Option, none, some, List, [], ◌∷◌, ◌++◌, ltb, leb,
  ◌==◌, if◌then◌else◌, is_some, contains, str_eq,
}
use local_first_p2p_app.Common.Dict.{Dict, lookup, insert}
use local_first_p2p_app.Common.Json.{JsonValue, JsonFields, get_field, as_text, as_object}
use local_first_p2p_app.Common.Text.{text_length, text_lt}
use local_first_p2p_app.Projections.Entries.{update_entry, add_entry}
use local_first_p2p_app.Common.Result.{Result, ok, err, ◌>>=◌, ◌>>◌, require, from_option}

pub data MailboxErrorCode : Type 0 where
  invalid_payload recipient_mismatch : MailboxErrorCode

pub data MailboxEventKind : Type 0 where
  envelope_queued envelope_delivered envelope_expired envelope_fetched receipt_issued ack_sent
        checkpoint_advanced :
      MailboxEventKind

pub data EnvelopeStatus : Type 0 where
  queued delivered fetched expired : EnvelopeStatus

pub record MailboxDeliveryEnvelope : Type 0 where
  pub envelope_id : String
  pub recipient_identity_id : String
  pub recipient_device_id : Option String
  pub sender_identity_id : String
  pub content_ref : String
  pub expires_at : String
  pub forwarded_from : Option String

pub record ReceiptRecord : Type 0 where
  pub receipt_id : String
  pub receipt_kind : String
  pub issued_at : String

pub record AckRecord : Type 0 where
  pub ack_id : String
  pub ack_kind : String
  pub sent_at : String

pub record InboxEntry : Type 0 where
  pub envelope : MailboxDeliveryEnvelope
  pub status : EnvelopeStatus
  pub delivered_at : Option String
  pub fetched_at : Option String
  pub expired_at : Option String
  pub expired_reason : Option String
  pub receipts : List ReceiptRecord

pub record OutboxEntry : Type 0 where
  pub envelope : MailboxDeliveryEnvelope
  pub status : EnvelopeStatus
  pub delivered_at : Option String
  pub provider_id : Option String
  pub expired_at : Option String
  pub expired_reason : Option String
  pub ack : Option AckRecord

pub record MailboxCheckpoint : Type 0 where
  pub mailbox_id : String
  pub checkpoint_id : String
  pub cursor : String
  pub advanced_at : String

pub record MailboxState : Type 0 where
  pub identity_id : String
  pub inbox : Dict InboxEntry
  pub outbox : Dict OutboxEntry
  pub checkpoints : Dict MailboxCheckpoint
  pub updated_at : String
  pub applied_event_ids : List String

abbrev pub empty_mailbox_state : String → MailboxState
empty_mailbox_state identity_id = record {
  identity_id = identity_id;
  inbox = [];
  outbox = [];
  checkpoints = [];
  updated_at = "";
  applied_event_ids = [];
}

pub record ApplyMailboxEventMeta : Type 0 where
  pub kind : MailboxEventKind
  pub event_id : String
  pub created_at : String

abbrev pub Mailbox : Type 0 → Type 0
Mailbox A = Result MailboxErrorCode A

abbrev pub max_id_length : ℕ
max_id_length = 512

abbrev pub max_ref_length : ℕ
max_ref_length = 4_096

abbrev pub within : ℕ → Option String → Option String
within most none = none
within most (some s) = if text_length s == 0 || ltb most (text_length s) then none else some s

unfoldable pub req_str : JsonFields → String → ℕ → Mailbox String
req_str payload name most =
    from_option (within most (as_text (get_field name payload))) invalid_payload

unfoldable pub opt_str : JsonFields → String → Mailbox (Option String)
opt_str payload name = elim (get_field name payload) [
  | none ↦ ok none
  | some value ↦ do s ← req_str payload name max_id_length; ok (some s)
]

abbrev pub one_of : List String → Option String → Option String
one_of allowed none = none
one_of allowed (some s) = if contains allowed s then some s else none

unfoldable pub req_enum : JsonFields → String → List String → Mailbox String
req_enum payload name allowed =
    from_option (one_of allowed (as_text (get_field name payload))) invalid_payload

abbrev pub expiry_reasons : List String
expiry_reasons = "ttl" ∷ "quota" ∷ "policy" ∷ "sender-revoked" ∷ []

abbrev pub receipt_kinds : List String
receipt_kinds =
    "provider-accepted" ∷ "recipient-fetched" ∷ "recipient-applied" ∷ "recipient-rejected" ∷ []

abbrev pub ack_kinds : List String
ack_kinds = "applied" ∷ "rejected" ∷ "undecryptable" ∷ []

abbrev pub status_rank : EnvelopeStatus → ℕ
status_rank queued = 0
status_rank delivered = 1
status_rank fetched = 2
status_rank expired = 3

abbrev pub is_expired : EnvelopeStatus → Bool
is_expired expired = true
is_expired queued = false
is_expired delivered = false
is_expired fetched = false

unfoldable pub advance : EnvelopeStatus → EnvelopeStatus → EnvelopeStatus
advance current next =
    if is_expired current
    then current
    else if ltb (status_rank current) (status_rank next)
    then next
    else current

abbrev pub or_else : Option String → Option String → Option String
or_else none before = before
or_else (some s) before = some s

-- An entry that is there and has not expired is replaced; the map stays otherwise.
abbrev pub update_inbox : (InboxEntry → InboxEntry) → String → Dict InboxEntry → Dict InboxEntry
update_inbox = update_entry (λ entry. is_expired entry.status)

abbrev pub update_outbox :
    (OutboxEntry → OutboxEntry) → String → Dict OutboxEntry → Dict OutboxEntry
update_outbox = update_entry (λ entry. is_expired entry.status)

abbrev pub new_inbox_entry : MailboxDeliveryEnvelope → InboxEntry
new_inbox_entry envelope = record {
  envelope = envelope;
  status = queued;
  delivered_at = none;
  fetched_at = none;
  expired_at = none;
  expired_reason = none;
  receipts = [];
}

abbrev pub new_outbox_entry : MailboxDeliveryEnvelope → OutboxEntry
new_outbox_entry envelope = record {
  envelope = envelope;
  status = queued;
  delivered_at = none;
  provider_id = none;
  expired_at = none;
  expired_reason = none;
  ack = none;
}

-- The end of `applyQueued`: each side that this identity is on, if it has no entry yet.
unfoldable pub queue_envelope : MailboxState → MailboxDeliveryEnvelope → MailboxState
queue_envelope s envelope =
    let id = envelope.envelope_id in
    record s {
      inbox =
          add_entry (str_eq envelope.recipient_identity_id s.identity_id) id
            (new_inbox_entry envelope) s.inbox;
      outbox =
          add_entry (str_eq envelope.sender_identity_id s.identity_id) id
            (new_outbox_entry envelope) s.outbox;
    }

abbrev pub mark_delivered_in : String → InboxEntry → InboxEntry
mark_delivered_in at entry = record entry {
  status = advance entry.status delivered;
  delivered_at = some at;
}

abbrev pub mark_delivered_out : String → Option String → OutboxEntry → OutboxEntry
mark_delivered_out at provider entry = record entry {
  status = advance entry.status delivered;
  delivered_at = some at;
  provider_id = or_else provider entry.provider_id;
}

abbrev pub mark_fetched : String → InboxEntry → InboxEntry
mark_fetched at entry = record entry { status = advance entry.status fetched; fetched_at = some at }

abbrev pub mark_expired_in : String → String → InboxEntry → InboxEntry
mark_expired_in at reason entry = record entry {
  status = expired;
  expired_at = some at;
  expired_reason = some reason;
}

abbrev pub mark_expired_out : String → String → OutboxEntry → OutboxEntry
mark_expired_out at reason entry = record entry {
  status = expired;
  expired_at = some at;
  expired_reason = some reason;
}

unfoldable pub has_receipt : List ReceiptRecord → String → Bool
has_receipt [] id = false
has_receipt (r ∷ rs) id = str_eq r.receipt_id id || has_receipt rs id

-- A receipt that is there is not added again; an ack replaces the last one.
abbrev pub add_receipt : ReceiptRecord → String → Dict InboxEntry → Dict InboxEntry
add_receipt receipt =
    update_entry (λ entry. has_receipt entry.receipts receipt.receipt_id)
      (λ entry. record entry { receipts = entry.receipts ++ receipt ∷ [] })

abbrev pub set_ack : AckRecord → String → Dict OutboxEntry → Dict OutboxEntry
set_ack ack = update_entry (λ entry. false) (λ entry. record entry { ack = some ack })

abbrev pub is_empty : String → Bool
is_empty s = str_eq s ""

unfoldable pub create_empty_mailbox_state : String → Mailbox MailboxState
create_empty_mailbox_state identity_id = do
  require (not (is_empty identity_id)) invalid_payload
  ok (empty_mailbox_state identity_id)

-- `hydrateMailboxState`, for containers and a time that are there.
unfoldable pub hydrate_mailbox_state : MailboxState → Mailbox MailboxState
hydrate_mailbox_state input = do
  require (not (is_empty input.identity_id)) invalid_payload
  ok input

unfoldable pub apply_delivered : MailboxState → JsonFields → Mailbox MailboxState
apply_delivered s payload = do
  envelope_id ← req_str payload "envelopeId" max_id_length
  at ← req_str payload "deliveredAt" max_id_length
  provider ← opt_str payload "providerId"
  ok (record s {
    inbox = update_inbox (mark_delivered_in at) envelope_id s.inbox;
    outbox = update_outbox (mark_delivered_out at provider) envelope_id s.outbox;
  })

unfoldable pub apply_fetched : MailboxState → JsonFields → Mailbox MailboxState
apply_fetched s payload = do
  envelope_id ← req_str payload "envelopeId" max_id_length
  at ← req_str payload "fetchedAt" max_id_length
  device ← req_str payload "recipientDeviceId" max_id_length
  ok (record s { inbox = update_inbox (mark_fetched at) envelope_id s.inbox })

unfoldable pub apply_expired : MailboxState → JsonFields → Mailbox MailboxState
apply_expired s payload = do
  envelope_id ← req_str payload "envelopeId" max_id_length
  at ← req_str payload "expiredAt" max_id_length
  reason ← req_enum payload "reason" expiry_reasons
  ok (record s {
    inbox = update_inbox (mark_expired_in at reason) envelope_id s.inbox;
    outbox = update_outbox (mark_expired_out at reason) envelope_id s.outbox;
  })

unfoldable pub apply_receipt : MailboxState → JsonFields → Mailbox MailboxState
apply_receipt s payload = do
  envelope_id ← req_str payload "envelopeId" max_id_length
  receipt_id ← req_str payload "receiptId" max_id_length
  receipt_kind ← req_enum payload "receiptKind" receipt_kinds
  issued_at ← req_str payload "issuedAt" max_id_length
  let receipt : ReceiptRecord = record {
    receipt_id = receipt_id;
    receipt_kind = receipt_kind;
    issued_at = issued_at;
  }
  ok (record s { inbox = add_receipt receipt envelope_id s.inbox })

unfoldable pub apply_ack : MailboxState → JsonFields → Mailbox MailboxState
apply_ack s payload = do
  envelope_id ← req_str payload "envelopeId" max_id_length
  ack_id ← req_str payload "ackId" max_id_length
  ack_kind ← req_enum payload "ackKind" ack_kinds
  sent_at ← req_str payload "sentAt" max_id_length
  let ack : AckRecord = record { ack_id = ack_id; ack_kind = ack_kind; sent_at = sent_at }
  ok (record s { outbox = set_ack ack envelope_id s.outbox })

unfoldable pub apply_checkpoint : MailboxState → JsonFields → Mailbox MailboxState
apply_checkpoint s payload = do
  mailbox_id ← req_str payload "mailboxId" max_id_length
  checkpoint_id ← req_str payload "checkpointId" max_id_length
  cursor ← req_str payload "cursor" max_id_length
  advanced_at ← req_str payload "advancedAt" max_id_length
  let checkpoint : MailboxCheckpoint = record {
    mailbox_id = mailbox_id;
    checkpoint_id = checkpoint_id;
    cursor = cursor;
    advanced_at = advanced_at;
  }
  ok (record s { checkpoints = insert mailbox_id checkpoint s.checkpoints })

module _ (iso : String → Option String) where
  unfoldable pub req_iso_timestamp : JsonFields → String → Mailbox String
  req_iso_timestamp payload name = do
    raw ← req_str payload name max_id_length
    from_option (iso raw) invalid_payload

  unfoldable pub validate_envelope : JsonFields → Mailbox MailboxDeliveryEnvelope
  validate_envelope payload = do
    envelope_id ← req_str payload "envelopeId" max_id_length
    recipient_identity_id ← req_str payload "recipientIdentityId" max_id_length
    sender_identity_id ← req_str payload "senderIdentityId" max_id_length
    content_ref ← req_str payload "contentRef" max_ref_length
    expires_at ← req_iso_timestamp payload "expiresAt"
    recipient_device_id ← opt_str payload "recipientDeviceId"
    forwarded_from ← opt_str payload "forwardedFrom"
    ok (record {
      envelope_id = envelope_id;
      recipient_identity_id = recipient_identity_id;
      recipient_device_id = recipient_device_id;
      sender_identity_id = sender_identity_id;
      content_ref = content_ref;
      expires_at = expires_at;
      forwarded_from = forwarded_from;
    })

  unfoldable pub apply_queued : MailboxState → JsonFields → Mailbox MailboxState
  apply_queued s payload = do
    envelope ← validate_envelope payload
    require
        (str_eq envelope.recipient_identity_id s.identity_id
          || str_eq envelope.sender_identity_id s.identity_id)
        recipient_mismatch
    ok (queue_envelope s envelope)

  unfoldable pub apply_kind : MailboxEventKind → MailboxState → JsonFields → Mailbox MailboxState
  apply_kind envelope_queued s payload = apply_queued s payload
  apply_kind envelope_delivered s payload = apply_delivered s payload
  apply_kind envelope_fetched s payload = apply_fetched s payload
  apply_kind envelope_expired s payload = apply_expired s payload
  apply_kind receipt_issued s payload = apply_receipt s payload
  apply_kind ack_sent s payload = apply_ack s payload
  apply_kind checkpoint_advanced s payload = apply_checkpoint s payload

  unfoldable pub apply_mailbox_event :
      MailboxState → JsonValue → ApplyMailboxEventMeta → Mailbox MailboxState
  apply_mailbox_event s payload meta = do
    require (not (is_empty meta.event_id)) invalid_payload
    require (not (is_empty meta.created_at)) invalid_payload
    if contains s.applied_event_ids meta.event_id then ok s else do
      fields ← from_option (as_object payload) invalid_payload
      base ← apply_kind meta.kind s fields
      ok (record base {
        updated_at = if text_lt s.updated_at meta.created_at then meta.created_at else s.updated_at;
        applied_event_ids = s.applied_event_ids ++ meta.event_id ∷ [];
      })
