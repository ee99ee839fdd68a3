-- ===== src/Agent/Conversations.antt =====
-- The conversations of api/v1/agent/router.py and helper.py. `now()` of the database is the time of
-- the transaction, so the two messages of a turn have one time.
pub mod Memory
pub mod Titles
use onecrawler_backend.Prelude.{
  ℕ, String, Bool, true, false, not, ◌&&◌, Option, none, some, List, [], ◌∷◌, ◌++◌, map, ◌==◌,
  if◌then◌else◌, is_some, str_eq, prefix,
}
use onecrawler_backend.Tables.{find, select, update, insert}
use onecrawler_backend.Tables.Order.{order_by, order_by_desc}
use onecrawler_backend.Exec.{Exec, pure, gets, or_raise, ◌>>=◌}
use onecrawler_backend.Models.{Uuid}
use onecrawler_backend.Models.Agent.{Conversation, ChatMessage}
use onecrawler_backend.Backend.{Backend}

-- `Message.human(…)` and `Message.ai(…)` of deepharness
pub data Message : Type 0 where
  human ai : String → Message

abbrev pub message_of : ChatMessage → Message
message_of row = if str_eq row.role "ai" then ai row.content else human row.content

unfoldable pub history_messages : List ChatMessage → String → List Message
history_messages rows message = map message_of rows ++ human message ∷ []

abbrev pub is_in : String → ChatMessage → Bool
is_in conversation_id m = str_eq m.conversation_id conversation_id

-- The order is by `created_at` alone. The two rows of a turn have one time: here they come in the
-- order of insertion, and the database may choose the other.
unfoldable pub conversation_history : String → Backend → List ChatMessage
conversation_history conversation_id s =
    order_by (λ (m : ChatMessage). m.created_at) (select (is_in conversation_id) s.chat_messages)

abbrev pub has_conversation : String → Conversation → Bool
has_conversation conversation_id c = str_eq c.conversation_id conversation_id

abbrev pub title_max_len : ℕ
title_max_len = 60

abbrev pub touched : ℕ → Conversation → Conversation
touched now c = record c { updated_at = now }

-- `INSERT … ON CONFLICT (conversation_id) DO UPDATE SET updated_at = now()`
abbrev pub upsert_conversation : Uuid → String → String → ℕ → List Conversation → List Conversation
upsert_conversation user_id conversation_id message now rows =
    if is_some (find (has_conversation conversation_id) rows)
    then update (has_conversation conversation_id) (touched now) rows
    else insert
        (record {
          conversation_id = conversation_id;
          user_id = user_id;
          title = prefix title_max_len message;
          created_at = now;
          updated_at = now;
        })
        rows

abbrev pub turn_row : ℕ → String → String → String → ℕ → ChatMessage
turn_row id conversation_id role content now = record {
  id = id;
  conversation_id = conversation_id;
  role = role;
  content = content;
  created_at = now;
}

-- The ids are those that the database's sequence gives to the two messages.
unfoldable pub record_turn : Uuid → String → String → String → (ℕ → ℕ) → ℕ → Backend → Backend
record_turn user_id conversation_id message reply ids now s = record s {
  conversations = upsert_conversation user_id conversation_id message now s.conversations;
  chat_messages =
      s.chat_messages
      ++ turn_row (ids 0) conversation_id "human" message now
        ∷ turn_row (ids 1) conversation_id "ai" reply now
        ∷ [];
}

-- Times are sent in ISO format, and stand here as the numbers that they are.
pub record ConversationOut : Type 0 where
  pub conversation_id : String
  pub title : String
  pub updated_at : ℕ

abbrev pub conversation_out : Conversation → ConversationOut
conversation_out c = record {
  conversation_id = c.conversation_id;
  title = c.title;
  updated_at = c.updated_at;
}

unfoldable pub list_chats : Uuid → Exec Backend (List ConversationOut)
unfolding ◌>>=◌
list_chats user_id = gets (λ s. map conversation_out (
    order_by_desc (λ (c : Conversation). c.updated_at)
      (select (λ (c : Conversation). c.user_id == user_id) s.conversations)))

pub record ChatMessageOut : Type 0 where
  pub role : String
  pub content : String
  pub created_at : ℕ

abbrev pub message_out : ChatMessage → ChatMessageOut
message_out m = record { role = m.role; content = m.content; created_at = m.created_at }

-- `ConversationDetailOut(ConversationOut)`
pub record ConversationDetailOut : Type 0 where
  pub conversation : ConversationOut
  pub messages : List ChatMessageOut

abbrev pub is_own_conversation : Uuid → String → Conversation → Bool
is_own_conversation user_id conversation_id c =
    str_eq c.conversation_id conversation_id && c.user_id == user_id

unfoldable pub get_chat : Uuid → String → Exec Backend ConversationDetailOut
unfolding conversation_history ◌>>=◌
get_chat user_id conversation_id = do
  row ← gets (λ s. find (is_own_conversation user_id conversation_id) s.conversations)
  conversation ← or_raise row 404 "Conversation not found."
  gets (λ s. record {
    conversation = conversation_out conversation;
    messages = map message_out (conversation_history conversation_id s);
  })
