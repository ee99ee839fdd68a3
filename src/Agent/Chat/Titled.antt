-- ===== src/Agent/Chat/Titled.antt =====
-- The titles of the conversations that a chat leaves.
use onecrawler_backend.Prelude.{Bool, List, All}
use onecrawler_backend.Models.{Uuid}
use onecrawler_backend.Crawls.{submit, set_cancelled, remove_job}
use onecrawler_backend.Agent.Cache.{Agent}
use onecrawler_backend.Agent.Setup.Resolving.{ChatRequest}
use onecrawler_backend.Agent.Conversations.{Message}
use onecrawler_backend.Agent.Conversations.Titles.{HasShortTitle, record_turn-titles}
use onecrawler_backend.Agent.Tools.{Outside}
use onecrawler_backend.Agent.Run.{Run}
use onecrawler_backend.Agent.Chat.{Service, Turn, record_reply, chat}
use onecrawler_backend.Agent.Chat.Kept.{chat_keeps}

-- However long the message that begins a conversation, a chat keeps the title of every
-- conversation within 60 characters.
pub chat-titles :
    {Token : Type 0} (outside : Outside Token) (harness : Agent → List Message → Run)
    (payload : ChatRequest) (user : Uuid) (auth_token : Token) (tracing : Bool) (turn : Turn)
    (s : Service)
    → All HasShortTitle s.backend.conversations
    → All HasShortTitle
        (chat outside harness payload user auth_token tracing turn s).1.backend.conversations
unfolding record_reply submit set_cancelled remove_job
chat-titles outside harness payload user auth_token tracing turn s h =
    (chat_keeps outside {P = λ b. All HasShortTitle b.conversations}
        (λ job. record { holds = λ b k. k }) (λ now job. record { holds = λ b k. k })
        (λ job. record { holds = λ b k. k }) payload user turn
        (λ reply b.
          record_turn-titles user payload.conversation_id payload.message reply turn.ids turn.now b)
        harness auth_token tracing).holds
      s h
