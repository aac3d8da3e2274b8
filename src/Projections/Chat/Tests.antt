-- ===== src/Projections/Chat/Tests.antt =====
-- Runs of packages/chat-projection, and the theorems at them.
use local_first_p2p_app.Common.{◌≡◌, refl, String, true, false, none, some, [], ◌∷◌}
use local_first_p2p_app.Common.Dict.{lookup, insert}
use local_first_p2p_app.Common.Json.{
  JsonFields, get_field, object, field, end, str, array, cons, nil,
}
use local_first_p2p_app.Common.Text.{is_blank}
use local_first_p2p_app.Projections.Replay.{run}
use local_first_p2p_app.Projections.Chat.{
  ChatEventKind, ChatThreadState, ChatMessageRecord, create_empty_chat_thread_state, thread_created,
  message_sent, message_edited, message_deleted, require_string, strings_of, require_string_array,
  optional_string, validate_message_sent_payload, validate_thread_created_payload,
  validate_message_edited_payload, validate_message_deleted_payload, apply_thread_created,
  add_message, edit_message, delete_message, apply_message_sent, apply_message_edited,
  apply_message_deleted, apply_kind, apply_chat_event,
}
use local_first_p2p_app.Projections.Chat.Log.{ChatEvent, chat_projection}
use local_first_p2p_app.Projections.Chat.Tombstones.{Kept, run-Kept}

abbrev event : String → ChatEventKind → JsonFields → ChatEvent
event id kind fields = record {
  payload = object fields;
  meta = record {
    event_id = id;
    kind = kind;
    author_device_id = "phone";
    created_at = "2026-01-01";
  };
}

abbrev created : ChatEvent
created = event "e1" thread_created (
    field "threadId" (str "t")
      (field "participantIds" (array (cons (str "ada") nil)) (field "createdAt" (str "10:00") end)))

abbrev sent : ChatEvent
sent = event "e2" message_sent (
    field "threadId" (str "t")
      (field "messageId" (str "m") (field "body" (str "hello") (field "sentAt" (str "10:01") end))))

abbrev deleted : ChatEvent
deleted =
    event "e3" message_deleted (
      field "threadId" (str "t")
        (field "messageId" (str "m") (field "deletedAt" (str "10:02") end)))

abbrev edited : ChatEvent
edited = event "e4" message_edited (
    field "threadId" (str "t") (
      field "messageId" (str "m")
        (field "newBody" (str "bye") (field "editedAt" (str "10:03") end))))

abbrev thread : ChatThreadState
thread = create_empty_chat_thread_state "t"

abbrev message : ChatMessageRecord
message = record {
  message_id = "m";
  author_device_id = "phone";
  plaintext_body = "hello";
  sent_at = "10:01";
  edited_at = none;
  deleted_at = none;
  deleted = false;
  reply_to_message_id = none;
  edit_reason = none;
}

abbrev with_message : ChatThreadState
with_message = record {
  thread_id = "t";
  participants = "ada" ∷ [];
  thread_name = none;
  messages = ("m", message) ∷ [];
  accepted_by = [];
  created_at = "10:00";
  last_activity_at = "10:01";
  applied_event_ids = "e1" ∷ "e2" ∷ [];
}

abbrev after_deletion : ChatThreadState
after_deletion = record with_message {
  messages =
      ("m", record message { plaintext_body = ""; deleted = true; deleted_at = some "10:02" }) ∷ [];
  last_activity_at = "10:02";
  applied_event_ids = "e1" ∷ "e2" ∷ "e3" ∷ [];
}

sent-seen : run chat_projection (created ∷ sent ∷ sent ∷ []) thread ≡ with_message
unfolding run apply_chat_event apply_kind apply_thread_created apply_message_sent add_message
    validate_message_sent_payload validate_thread_created_payload require_string
    require_string_array strings_of optional_string get_field is_blank lookup insert
sent-seen = refl

deleted_run : run chat_projection (deleted ∷ sent ∷ []) with_message ≡ after_deletion
unfolding run apply_chat_event apply_kind apply_message_deleted delete_message
    validate_message_deleted_payload require_string get_field is_blank lookup insert
deleted_run = refl

-- An edit of a deleted message is an error, and is skipped.
edited_late : run chat_projection (deleted ∷ edited ∷ []) with_message ≡ after_deletion
unfolding run apply_chat_event apply_kind apply_message_deleted delete_message apply_message_edited
    edit_message validate_message_deleted_payload validate_message_edited_payload require_string
    optional_string get_field is_blank lookup insert
edited_late = refl

there : lookup "m" with_message.messages ≡ some message
unfolding lookup
there = refl

run-Kept_example :
    Kept message
      (lookup "m" (run chat_projection (deleted ∷ edited ∷ sent ∷ []) with_message).messages)
run-Kept_example = run-Kept (deleted ∷ edited ∷ sent ∷ []) with_message "m" message there
