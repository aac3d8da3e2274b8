-- ===== src/Projections/Chat.antt =====
-- packages/chat-projection/src/index.ts: the state of one chat thread, from its decrypted events. A
-- Map is a dictionary in insertion order, a Set a list without repetition; a thrown
-- ChatProjectionError is an `err` with its code. Decryption is left out: the events carry plaintext.
pub mod Log
pub mod Tombstones
mod Tests
use local_first_p2p_app.Common.{
  String, Bool, true, false, not, ◌&&◌, Option, none, some, List, [], ◌∷◌, ◌++◌, if◌then◌else◌,
  is_some, contains, str_eq,
}
use local_first_p2p_app.Common.Dict.{Dict, lookup, insert}
use local_first_p2p_app.Common.Json.{
  JsonValue, JsonItems, JsonFields, nil, cons, str, null, bool, num, array, object, get_field,
  as_text, as_object,
}
use local_first_p2p_app.Common.Text.{is_blank}
use local_first_p2p_app.Common.Result.{Result, ok, err, ◌>>=◌, ◌>>◌, require, from_option}

pub data ChatErrorCode : Type 0 where
  thread_already_exists thread_not_found message_not_found message_already_deleted invalid_payload :
      ChatErrorCode

pub data ChatEventKind : Type 0 where
  thread_created message_sent message_edited message_deleted thread_accepted unknown : ChatEventKind

pub record ChatMessageRecord : Type 0 where
  pub message_id : String
  pub author_device_id : String
  pub plaintext_body : String
  pub sent_at : String
  pub edited_at : Option String
  pub deleted_at : Option String
  pub deleted : Bool
  pub reply_to_message_id : Option String
  pub edit_reason : Option String

pub record ChatThreadState : Type 0 where
  pub thread_id : String
  pub participants : List String
  pub thread_name : Option String
  pub messages : Dict ChatMessageRecord
  pub accepted_by : List String
  pub created_at : String
  pub last_activity_at : String
  pub applied_event_ids : List String

abbrev pub create_empty_chat_thread_state : String → ChatThreadState
create_empty_chat_thread_state thread_id = record {
  thread_id = thread_id;
  participants = [];
  thread_name = none;
  messages = [];
  accepted_by = [];
  created_at = "";
  last_activity_at = "";
  applied_event_ids = [];
}

pub record ApplyChatEventMeta : Type 0 where
  pub event_id : String
  pub kind : ChatEventKind
  pub author_device_id : String
  pub created_at : String

abbrev pub Chat : Type 0 → Type 0
Chat A = Result ChatErrorCode A

-- `Set.add`
abbrev pub add : List String → String → List String
add xs x = if contains xs x then xs else xs ++ x ∷ []

abbrev pub not_blank : Option String → Option String
not_blank none = none
not_blank (some s) = if is_blank s then none else some s

unfoldable pub require_string : JsonValue → String → Chat String
require_string raw name = do
  fields ← from_option (as_object raw) invalid_payload
  from_option (not_blank (as_text (get_field name fields))) invalid_payload

unfoldable pub strings_of : JsonItems → Option (List String)
strings_of nil = some []
strings_of (cons item rest) = elim (not_blank (as_text (some item))) [
  | none ↦ none
  | some s ↦ elim (strings_of rest) [ none ↦ none | some ss ↦ some (s ∷ ss) ]
]

abbrev pub non_empty_array : Option JsonValue → Option JsonItems
non_empty_array (some (array (cons item rest))) = some (cons item rest)
non_empty_array (some (array nil)) = none
non_empty_array (some (str s)) = none
non_empty_array (some null) = none
non_empty_array (some (bool b)) = none
non_empty_array (some (num n)) = none
non_empty_array (some (object fields)) = none
non_empty_array none = none

unfoldable pub require_string_array : JsonValue → String → Chat (List String)
require_string_array raw name = do
  fields ← from_option (as_object raw) invalid_payload
  items ← from_option (non_empty_array (get_field name fields)) invalid_payload
  from_option (strings_of items) invalid_payload

unfoldable pub optional_string : JsonValue → String → Option String
optional_string raw name = elim (as_object raw) [
  | none ↦ none
  | some fields ↦ not_blank (as_text (get_field name fields))
]

-- `createdAt === ''`: the thread was not created yet.
abbrev pub is_new : ChatThreadState → Bool
is_new s = str_eq s.created_at ""

abbrev pub require_thread_initialized : ChatThreadState → Chat (Unit {0})
require_thread_initialized s = require (not (is_new s)) thread_not_found

abbrev pub require_thread_id_match : ChatThreadState → String → Chat (Unit {0})
require_thread_id_match s payload_thread_id =
    require (str_eq s.thread_id payload_thread_id) invalid_payload

pub record ChatMessageSentPayload : Type 0 where
  pub thread_id : String
  pub message_id : String
  pub body : String
  pub reply_to_message_id : Option String
  pub sent_at : String

unfoldable pub validate_message_sent_payload : JsonValue → Chat ChatMessageSentPayload
validate_message_sent_payload raw = do
  thread_id ← require_string raw "threadId"
  message_id ← require_string raw "messageId"
  body ← require_string raw "body"
  sent_at ← require_string raw "sentAt"
  ok (record {
    thread_id = thread_id;
    message_id = message_id;
    body = body;
    reply_to_message_id = optional_string raw "replyToMessageId";
    sent_at = sent_at;
  })

pub record ChatThreadCreatedPayload : Type 0 where
  pub thread_id : String
  pub participant_ids : List String
  pub thread_name : Option String
  pub created_at : String

unfoldable pub validate_thread_created_payload : JsonValue → Chat ChatThreadCreatedPayload
validate_thread_created_payload raw = do
  thread_id ← require_string raw "threadId"
  participant_ids ← require_string_array raw "participantIds"
  created_at ← require_string raw "createdAt"
  ok (record {
    thread_id = thread_id;
    participant_ids = participant_ids;
    thread_name = optional_string raw "threadName";
    created_at = created_at;
  })

pub record ChatMessageEditedPayload : Type 0 where
  pub thread_id : String
  pub message_id : String
  pub new_body : String
  pub edited_at : String
  pub edit_reason : Option String

unfoldable pub validate_message_edited_payload : JsonValue → Chat ChatMessageEditedPayload
validate_message_edited_payload raw = do
  thread_id ← require_string raw "threadId"
  message_id ← require_string raw "messageId"
  new_body ← require_string raw "newBody"
  edited_at ← require_string raw "editedAt"
  ok (record {
    thread_id = thread_id;
    message_id = message_id;
    new_body = new_body;
    edited_at = edited_at;
    edit_reason = optional_string raw "editReason";
  })

pub record ChatMessageDeletedPayload : Type 0 where
  pub thread_id : String
  pub message_id : String
  pub deleted_at : String

unfoldable pub validate_message_deleted_payload : JsonValue → Chat ChatMessageDeletedPayload
validate_message_deleted_payload raw = do
  thread_id ← require_string raw "threadId"
  message_id ← require_string raw "messageId"
  deleted_at ← require_string raw "deletedAt"
  ok (record { thread_id = thread_id; message_id = message_id; deleted_at = deleted_at })

abbrev pub or_else : Option String → Option String → Option String
or_else none before = before
or_else (some s) before = some s

-- The new list of applied ids is computed before the kind is looked at.
unfoldable pub apply_thread_created :
    ChatThreadState → JsonValue → List String → Chat ChatThreadState
apply_thread_created s raw new_applied = do
  require (is_new s) thread_already_exists
  payload ← validate_thread_created_payload raw
  require_thread_id_match s payload.thread_id
  ok (record s {
    participants = payload.participant_ids;
    thread_name = or_else payload.thread_name s.thread_name;
    created_at = payload.created_at;
    last_activity_at = payload.created_at;
    applied_event_ids = new_applied;
  })

-- The ends of the three handlers of messages, after the validation of the payload.
unfoldable pub add_message :
    ChatThreadState → ChatMessageSentPayload → ApplyChatEventMeta → List String → ChatThreadState
add_message s payload meta new_applied =
    if is_some (lookup payload.message_id s.messages)
    then record s { applied_event_ids = new_applied }
    else record s {
      messages =
          insert payload.message_id
            (record {
              message_id = payload.message_id;
              author_device_id = meta.author_device_id;
              plaintext_body = payload.body;
              sent_at = payload.sent_at;
              edited_at = none;
              deleted_at = none;
              deleted = false;
              reply_to_message_id = payload.reply_to_message_id;
              edit_reason = none;
            })
            s.messages;
      last_activity_at = payload.sent_at;
      applied_event_ids = new_applied;
    }

unfoldable pub edit_message :
    ChatThreadState
    → ChatMessageEditedPayload
    → List String
    → Option ChatMessageRecord
    → Chat ChatThreadState
edit_message s payload new_applied none = err message_not_found
edit_message s payload new_applied (some old) =
    if old.deleted
    then err message_already_deleted
    else ok (record s {
      messages =
          insert payload.message_id
            (record old {
              plaintext_body = payload.new_body;
              edited_at = some payload.edited_at;
              edit_reason = or_else payload.edit_reason old.edit_reason;
            })
            s.messages;
      last_activity_at = payload.edited_at;
      applied_event_ids = new_applied;
    })

unfoldable pub delete_message :
    ChatThreadState
    → ChatMessageDeletedPayload
    → List String
    → Option ChatMessageRecord
    → Chat ChatThreadState
delete_message s payload new_applied none = err message_not_found
delete_message s payload new_applied (some old) =
    if old.deleted
    then ok (record s { applied_event_ids = new_applied })
    else ok (record s {
      messages =
          insert payload.message_id
            (record old {
              plaintext_body = "";
              deleted = true;
              deleted_at = some payload.deleted_at;
            })
            s.messages;
      last_activity_at = payload.deleted_at;
      applied_event_ids = new_applied;
    })

unfoldable pub apply_message_sent :
    ChatThreadState → JsonValue → ApplyChatEventMeta → List String → Chat ChatThreadState
apply_message_sent s raw meta new_applied = do
  require_thread_initialized s
  payload ← validate_message_sent_payload raw
  require_thread_id_match s payload.thread_id
  ok (add_message s payload meta new_applied)

unfoldable pub apply_message_edited :
    ChatThreadState → JsonValue → List String → Chat ChatThreadState
apply_message_edited s raw new_applied = do
  require_thread_initialized s
  payload ← validate_message_edited_payload raw
  require_thread_id_match s payload.thread_id
  edit_message s payload new_applied (lookup payload.message_id s.messages)

unfoldable pub apply_message_deleted :
    ChatThreadState → JsonValue → List String → Chat ChatThreadState
apply_message_deleted s raw new_applied = do
  require_thread_initialized s
  payload ← validate_message_deleted_payload raw
  require_thread_id_match s payload.thread_id
  delete_message s payload new_applied (lookup payload.message_id s.messages)

unfoldable pub apply_thread_accepted :
    ChatThreadState → JsonValue → ApplyChatEventMeta → List String → Chat ChatThreadState
apply_thread_accepted s raw meta new_applied = do
  require_thread_initialized s
  thread_id ← require_string raw "threadId"
  accepted_at ← require_string raw "acceptedAt"
  require_thread_id_match s thread_id
  ok (record s {
    accepted_by = add s.accepted_by meta.author_device_id;
    last_activity_at = accepted_at;
    applied_event_ids = new_applied;
  })

-- The switch of `applyChatEvent`.
unfoldable pub apply_kind :
    ChatEventKind
    → ChatThreadState
    → JsonValue
    → ApplyChatEventMeta
    → List String
    → Chat ChatThreadState
apply_kind thread_created s raw meta new_applied = apply_thread_created s raw new_applied
apply_kind message_sent s raw meta new_applied = apply_message_sent s raw meta new_applied
apply_kind message_edited s raw meta new_applied = apply_message_edited s raw new_applied
apply_kind message_deleted s raw meta new_applied = apply_message_deleted s raw new_applied
apply_kind thread_accepted s raw meta new_applied = apply_thread_accepted s raw meta new_applied
apply_kind unknown s raw meta new_applied = ok (record s { applied_event_ids = new_applied })

unfoldable pub apply_chat_event :
    ChatThreadState → JsonValue → ApplyChatEventMeta → Chat ChatThreadState
apply_chat_event s payload meta =
    if contains s.applied_event_ids meta.event_id
    then ok s
    else apply_kind meta.kind s payload meta (add s.applied_event_ids meta.event_id)
