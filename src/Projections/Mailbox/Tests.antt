-- ===== src/Projections/Mailbox/Tests.antt =====
-- Runs of packages/mailbox-projection, and the theorems at them.
use local_first_p2p_app.Common.{◌≡◌, refl, String, Option, none, some, [], ◌∷◌}
use local_first_p2p_app.Common.Dict.{lookup, insert}
use local_first_p2p_app.Common.Json.{get_field, object, field, end, str}
use local_first_p2p_app.Common.Text.{text_lt, units_lt, units, text_length}
use local_first_p2p_app.Common.Result.{ok}
use local_first_p2p_app.Projections.Replay.{run}
use local_first_p2p_app.Projections.Entries.{update_entry, add_entry, Steps}
use local_first_p2p_app.Projections.Mailbox.{
  MailboxState, MailboxDeliveryEnvelope, create_empty_mailbox_state, empty_mailbox_state,
  envelope_queued, envelope_expired, new_inbox_entry, req_str, opt_str, req_enum, queue_envelope,
  apply_expired, req_iso_timestamp, validate_envelope, apply_queued, apply_kind,
  apply_mailbox_event, mark_expired_in,
}
use local_first_p2p_app.Projections.Mailbox.Laws.{MailboxEvent, mailbox_projection}
use local_first_p2p_app.Projections.Mailbox.Lifecycle.{InProgress, OutProgress}
use local_first_p2p_app.Projections.Mailbox.Runs.{run-Steps}

-- A date parser that takes every text as it is.
abbrev as_is : String → Option String
as_is s = some s

abbrev queued : MailboxEvent
queued = record {
  payload = object (
      field "envelopeId" (str "v") (
        field "recipientIdentityId" (str "ada") (
          field "senderIdentityId" (str "bob")
            (field "contentRef" (str "r") (field "expiresAt" (str "2026-02-01") end)))));
  meta = record { kind = envelope_queued; event_id = "e"; created_at = "2026-01-01" };
  named = refl;
  dated = refl;
}

abbrev lapsed : MailboxEvent
lapsed = record {
  payload = object (
      field "envelopeId" (str "v")
        (field "expiredAt" (str "2026-02-01") (field "reason" (str "ttl") end)));
  meta = record { kind = envelope_expired; event_id = "f"; created_at = "2026-02-01" };
  named = refl;
  dated = refl;
}

abbrev envelope : MailboxDeliveryEnvelope
envelope = record {
  envelope_id = "v";
  recipient_identity_id = "ada";
  recipient_device_id = none;
  sender_identity_id = "bob";
  content_ref = "r";
  expires_at = "2026-02-01";
  forwarded_from = none;
}

abbrev waiting : MailboxState
waiting = record (empty_mailbox_state "ada") {
  inbox = ("v", new_inbox_entry envelope) ∷ [];
  updated_at = "2026-01-01";
  applied_event_ids = "e" ∷ [];
}

abbrev gone : MailboxState
gone = record waiting {
  inbox = ("v", mark_expired_in "2026-02-01" "ttl" (new_inbox_entry envelope)) ∷ [];
  updated_at = "2026-02-01";
  applied_event_ids = "e" ∷ "f" ∷ [];
}

run-queued :
    run (mailbox_projection as_is) (queued ∷ queued ∷ []) (empty_mailbox_state "ada") ≡ waiting
unfolding run apply_mailbox_event apply_kind apply_queued validate_envelope req_iso_timestamp
    req_str opt_str queue_envelope add_entry get_field text_lt units_lt units text_length lookup
    insert
run-queued = refl

run-lapsed : run (mailbox_projection as_is) (lapsed ∷ []) waiting ≡ gone
unfolding run apply_mailbox_event apply_kind apply_expired req_str req_enum update_entry get_field
    text_lt units_lt units text_length lookup insert
run-lapsed = refl

run-Steps_example :
    Steps InProgress waiting.inbox (run (mailbox_projection as_is) (lapsed ∷ []) waiting).inbox
    × Steps OutProgress waiting.outbox (run (mailbox_projection as_is) (lapsed ∷ []) waiting).outbox
run-Steps_example = run-Steps as_is (lapsed ∷ []) waiting

started : create_empty_mailbox_state "ada" ≡ ok (empty_mailbox_state "ada")
unfolding create_empty_mailbox_state
started = refl
