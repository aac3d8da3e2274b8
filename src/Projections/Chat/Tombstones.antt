-- ===== src/Projections/Chat/Tombstones.antt =====
-- What becomes of a message of packages/chat-projection as more events are folded in.
use local_first_p2p_app.Common.{
  ◌≡◌, refl, ap, ◌∙◌, String, true, false, Option, none, some, List, [], ◌∷◌, ◌++◌, arith, contains,
  str_eq, eq_iff, inl, inr, Bool-cases, Option-cases,
}
use local_first_p2p_app.Common.Dict.{Dict, lookup, insert, lookup-insert}
use local_first_p2p_app.Common.Json.{JsonValue}
use local_first_p2p_app.Common.Result.{ok, >>=-eq-ok}
use local_first_p2p_app.Projections.Replay.{kept, kept_lem, run}
use local_first_p2p_app.Projections.Entries.{some-eq}
use local_first_p2p_app.Projections.Chat.{
  ChatEventKind, ChatThreadState, ChatMessageRecord, ApplyChatEventMeta, apply_kind,
  ChatMessageSentPayload, ChatMessageEditedPayload, ChatMessageDeletedPayload, apply_chat_event,
  apply_thread_created, apply_message_sent, apply_message_edited, apply_message_deleted,
  apply_thread_accepted, thread_created, message_sent, message_edited, message_deleted,
  thread_accepted, unknown, add_message, edit_message, delete_message, require_thread_initialized,
  require_thread_id_match, validate_message_sent_payload, validate_message_edited_payload,
  validate_message_deleted_payload, or_else,
}
use local_first_p2p_app.Projections.Chat.Log.{ChatEvent, chat_projection}

-- The later record of a message: who wrote it, when, and to what it replies stays, and so does
-- everything once it is deleted; a deleted message has no text.
pub record Follows (r r' : ChatMessageRecord) : Type 0 where
  pub same_id : r'.message_id ≡ r.message_id
  pub same_author : r'.author_device_id ≡ r.author_device_id
  pub same_time : r'.sent_at ≡ r.sent_at
  pub same_reply : r'.reply_to_message_id ≡ r.reply_to_message_id
  pub stays_deleted : r.deleted ≡ true → r' ≡ r
  pub erased : r.deleted ≡ false → r'.deleted ≡ true → r'.plaintext_body ≡ ""

abbrev pub Kept : ChatMessageRecord → Option ChatMessageRecord → Type 0
Kept r none = ⊥
Kept r (some r') = Follows r r'

Follows-refl : (r : ChatMessageRecord) → Follows r r
Follows-refl r = ground arith

Follows-trans : (a b c : ChatMessageRecord) → Follows a b → Follows b c → Follows a c
Follows-trans a b c p q = record {
  same_id = q.same_id ∙ p.same_id;
  same_author = q.same_author ∙ p.same_author;
  same_time = q.same_time ∙ p.same_time;
  same_reply = q.same_reply ∙ p.same_reply;
  stays_deleted =
      λ h. q.stays_deleted (ap (λ x. x.deleted) (p.stays_deleted h) ∙ h) ∙ p.stays_deleted h;
  erased = λ h k. elim (Bool-cases b.deleted) [
    | inl gone ↦ ap (λ x. x.plaintext_body) (q.stays_deleted gone) ∙ p.erased h gone
    | inr held ↦ q.erased held k
  ];
}

stays-Kept :
    (id : String) (r : ChatMessageRecord) (ms : Dict ChatMessageRecord)
    → lookup id ms ≡ some r
    → Kept r (lookup id ms)
stays-Kept id r ms found = rw found (Follows-refl r)

insert-Kept :
    (id j : String) (v r : ChatMessageRecord) (ms : Dict ChatMessageRecord)
    → lookup id ms ≡ some r
    → (lookup j ms ≡ some r → Follows r v)
    → Kept r (lookup id (insert j v ms))
insert-Kept id j v r ms found follows =
    rw (lookup-insert j id v ms) (elim (Bool-cases (str_eq j id)) [
      | inl same ↦ rw same (follows (ap (λ k. lookup k ms) ((eq_iff j id).0 same) ∙ found))
      | inr other ↦ rw (other, found) (Follows-refl r)
    ])

-- The three ends of the handlers keep every record that is there.
module _ (s : ChatThreadState) (n : List String) (id : String) (r : ChatMessageRecord)
    (found : lookup id s.messages ≡ some r) where
  edit-Kept :
      (p : ChatMessageEditedPayload) (old : Option ChatMessageRecord) (s' : ChatThreadState)
      → lookup p.message_id s.messages ≡ old
      → edit_message s p n old ≡ ok s'
      → Kept r (lookup id s'.messages)
  unfolding edit_message
  edit-Kept p none s' o h = cc h
  edit-Kept p (some old) s' o h = elim (Bool-cases old.deleted) [
    | inl gone ↦ ground (arith, h, gone)
    | inr held ↦
        let new = record old {
          plaintext_body = p.new_body;
          edited_at = some p.edited_at;
          edit_reason = or_else p.edit_reason old.edit_reason;
        } in
        let messages : s'.messages ≡ insert p.message_id new s.messages = ground (arith, h, held) in
        rw messages (
          insert-Kept id p.message_id new r s.messages found (λ q.
            let e = some-eq old r (lookup p.message_id s.messages) o q in ground (arith, e, held)))
  ]

  delete-Kept :
      (p : ChatMessageDeletedPayload) (old : Option ChatMessageRecord) (s' : ChatThreadState)
      → lookup p.message_id s.messages ≡ old
      → delete_message s p n old ≡ ok s'
      → Kept r (lookup id s'.messages)
  unfolding delete_message
  delete-Kept p none s' o h = cc h
  delete-Kept p (some old) s' o h = elim (Bool-cases old.deleted) [
    | inl gone ↦
        let messages : s'.messages ≡ s.messages = ground (arith, h, gone) in
        rw messages (stays-Kept id r s.messages found)
    | inr held ↦
        let new = record old {
          plaintext_body = "";
          deleted = true;
          deleted_at = some p.deleted_at;
        } in
        let messages : s'.messages ≡ insert p.message_id new s.messages = ground (arith, h, held) in
        rw messages (
          insert-Kept id p.message_id new r s.messages found (λ q.
            let e = some-eq old r (lookup p.message_id s.messages) o q in ground (arith, e, held)))
  ]

  add-Kept :
      (p : ChatMessageSentPayload) (meta : ApplyChatEventMeta)
      → Kept r (lookup id (add_message s p meta n).messages)
  unfolding add_message
  add-Kept p meta = elim (Option-cases (lookup p.message_id s.messages)) [
    | inl absent ↦
        rw absent (insert-Kept id p.message_id _ r s.messages found (λ q. cc (q, absent)))
    | inr (old, there) ↦ rw there (stays-Kept id r s.messages found)
  ]

  sent-Kept :
      (raw : JsonValue) (meta : ApplyChatEventMeta) (s' : ChatThreadState)
      → apply_message_sent s raw meta n ≡ ok s'
      → Kept r (lookup id s'.messages)
  unfolding apply_message_sent
  sent-Kept raw meta s' h =
      let (_, _, h1) = >>=-eq-ok (require_thread_initialized s) _ h in
      let (p, _, h2) = >>=-eq-ok (validate_message_sent_payload raw) _ h1 in
      let (_, _, h3) = >>=-eq-ok (require_thread_id_match s p.thread_id) _ h2 in
      let same : s' ≡ add_message s p meta n = cc h3 in rw same (add-Kept p meta)

  edited-Kept :
      (raw : JsonValue) (s' : ChatThreadState)
      → apply_message_edited s raw n ≡ ok s'
      → Kept r (lookup id s'.messages)
  unfolding apply_message_edited
  edited-Kept raw s' h =
      let (_, _, h1) = >>=-eq-ok (require_thread_initialized s) _ h in
      let (p, _, h2) = >>=-eq-ok (validate_message_edited_payload raw) _ h1 in
      let (_, _, h3) = >>=-eq-ok (require_thread_id_match s p.thread_id) _ h2 in
      edit-Kept p (lookup p.message_id s.messages) s' refl h3

  deleted-Kept :
      (raw : JsonValue) (s' : ChatThreadState)
      → apply_message_deleted s raw n ≡ ok s'
      → Kept r (lookup id s'.messages)
  unfolding apply_message_deleted
  deleted-Kept raw s' h =
      let (_, _, h1) = >>=-eq-ok (require_thread_initialized s) _ h in
      let (p, _, h2) = >>=-eq-ok (validate_message_deleted_payload raw) _ h1 in
      let (_, _, h3) = >>=-eq-ok (require_thread_id_match s p.thread_id) _ h2 in
      delete-Kept p (lookup p.message_id s.messages) s' refl h3

  -- The other kinds leave the messages as they are.
  same-Kept : (s' : ChatThreadState) → s'.messages ≡ s.messages → Kept r (lookup id s'.messages)
  same-Kept s' same = rw same (stays-Kept id r s.messages found)

  kind-Kept :
      (kind : ChatEventKind) (raw : JsonValue) (meta : ApplyChatEventMeta) (s' : ChatThreadState)
      → apply_kind kind s raw meta n ≡ ok s'
      → Kept r (lookup id s'.messages)
  unfolding apply_kind apply_thread_created apply_thread_accepted
  kind-Kept thread_created raw meta s' h = same-Kept s' (ground (arith, h))
  kind-Kept message_sent raw meta s' h = sent-Kept raw meta s' h
  kind-Kept message_edited raw meta s' h = edited-Kept raw s' h
  kind-Kept message_deleted raw meta s' h = deleted-Kept raw s' h
  kind-Kept thread_accepted raw meta s' h = same-Kept s' (ground (arith, h))
  kind-Kept unknown raw meta s' h = same-Kept s' (ground (arith, h))

event-Kept :
    (s : ChatThreadState) (id : String) (r : ChatMessageRecord) (raw : JsonValue)
    (meta : ApplyChatEventMeta) (s' : ChatThreadState)
    → lookup id s.messages ≡ some r
    → apply_chat_event s raw meta ≡ ok s'
    → Kept r (lookup id s'.messages)
unfolding apply_chat_event
event-Kept s id r raw meta s' found h =
    elim (Bool-cases (contains s.applied_event_ids meta.event_id)) [
      | inl old ↦ same-Kept s [] id r found s' (ground (arith, h, old))
      | inr new ↦
          kind-Kept s (s.applied_event_ids ++ meta.event_id ∷ []) id r found meta.kind raw meta s'
            (rw new at h)
    ]

Kept-step :
    (r : ChatMessageRecord) (o : Option ChatMessageRecord) (o' : Option ChatMessageRecord)
    → Kept r o
    → ((q : ChatMessageRecord) → o ≡ some q → Kept q o')
    → Kept r o'
Kept-step r none o' k f = absurd k
Kept-step r (some q) none k f = f q refl
Kept-step r (some q) (some q') k f = Follows-trans r q q' k (f q refl)

-- However many events a thread folds in, also where some are skipped because the projection throws on
-- them, no message goes: each keeps its id, its author, its time of sending and the message it replies
-- to. One that is deleted stays exactly as it is, and one that a later event deletes has lost its
-- text.
pub run-Kept :
    (es : List ChatEvent) (s : ChatThreadState) (id : String) (r : ChatMessageRecord)
    → lookup id s.messages ≡ some r
    → Kept r (lookup id (run chat_projection es s).messages)
unfolding run
run-Kept [] s id r found = same-Kept s [] id r found s refl
run-Kept (e ∷ es) s id r found =
    let made = apply_chat_event s e.payload e.meta in
    let m = kept s made in
    Kept-step r (lookup id m.messages) (lookup id (run chat_projection es m).messages)
      (kept_lem (λ t. Kept r (lookup id t.messages)) s made (same-Kept s [] id r found s refl)
        (λ t h. event-Kept s id r e.payload e.meta t found h))
      (λ q there. run-Kept es m id q there)
