-- ===== src/Projections/Chat/Log.antt =====
-- The chat projection of packages/chat-projection as one whose logs are folded.
use local_first_p2p_app.Common.Json.{JsonValue}
use local_first_p2p_app.Projections.Replay.{Projection}
use local_first_p2p_app.Projections.Chat.{
  ChatErrorCode, ChatThreadState, ApplyChatEventMeta, apply_chat_event,
}

pub record ChatEvent : Type 0 where
  pub payload : JsonValue
  pub meta : ApplyChatEventMeta

abbrev pub chat_projection : Projection
chat_projection = record {
  State = ChatThreadState;
  Event = ChatEvent;
  Error = ChatErrorCode;
  apply = λ s e. apply_chat_event s e.payload e.meta;
}
