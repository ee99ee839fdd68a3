-- ===== src/Agent/Chat/Recorded.antt =====
-- What a chat records of its turn.
use mathlib.Core.List.{Perm}
use mathlib.Core.Path.{subst}
use onecrawler_backend.Prelude.{
  ◌<◌, ◌∷◌, ◌++◌, [], All, map, String, ◌≡◌, ◌∙◌, refl, sym, ap, inl, inr, Bool, List, Bool-cases,
}
use onecrawler_backend.Exec.{Result, ok, ◌>>=◌, bind-inv}
use onecrawler_backend.Models.{Uuid}
use onecrawler_backend.Backend.{Backend}
use onecrawler_backend.Tables.{select}
use onecrawler_backend.Tables.Order.Ties.{IsOldestFirst}
use onecrawler_backend.Models.Agent.{ChatMessage}
use onecrawler_backend.Crawls.{submit, set_cancelled, remove_job}
use onecrawler_backend.Agent.Cache.{Agent}
use onecrawler_backend.Agent.Setup.Resolving.{ChatRequest}
use onecrawler_backend.Agent.Conversations.{Message, human, ai, message_of, is_in}
use onecrawler_backend.Agent.Conversations.Memory.{
  Told, add_turn, record_turn-told, record_turn-ordered,
}
use onecrawler_backend.Agent.Tools.{Outside}
use onecrawler_backend.Agent.Run.{Run, Finish, ended, broken}
use onecrawler_backend.Agent.Chat.{
  Service, Turn, Prepared, ChatResponse, prepare, record_reply, answer, run_agent, chat,
}
use onecrawler_backend.Agent.Chat.Kept.{prepare_keeps, run_agent_keeps}

ok_same :
    {A : Type 0} {a b : A} {s t : Service}
    → ◌≡◌ {A = Result A × Service} (ok a, s) (ok b, t)
    → (a ≡ b) × (s ≡ t)
ok_same h = (cc, cc)

-- A reply that was sent is the reply that was recorded.
answer-inv :
    (payload : ChatRequest) (user : Uuid) (turn : Turn) (finish : Finish) (s after : Service)
    (response : ChatResponse)
    → answer payload user turn finish s ≡ (ok response, after)
    → after.backend ≡ record_reply payload user turn response.reply s.backend
unfolding answer
answer-inv payload user turn (broken reason) s after response h = cc
answer-inv payload user turn (ended state) s after response h = elim (Bool-cases state.answered) [
  | inl e ↦
      let (same, left) = ok_same (rw e at h) in
      ap (λ (x : Service). x.backend) (sym left)
      ∙ ap (λ (r : ChatResponse). record_reply payload user turn r.reply s.backend) same
  | inr e ↦ let refused = rw e at h in cc
]

-- What the preparation and the run leave alone is, after a chat, what recording the turn makes of
-- it.
chat-inv :
    {Token : Type 0} (outside : Outside Token) (harness : Agent → List Message → Run)
    (payload : ChatRequest) (user : Uuid) (auth_token : Token) (tracing : Bool) (turn : Turn)
    (s after : Service) (response : ChatResponse)
    → chat outside harness payload user auth_token tracing turn s ≡ (ok response, after)
    → (t : Backend) × (t.chat_messages ≡ s.backend.chat_messages)
      × (after.backend ≡ record_reply payload user turn response.reply t)
unfolding chat submit set_cancelled remove_job
chat-inv outside harness payload user auth_token tracing turn s after response h =
    let Same : Backend → Type 0 = λ b. b.chat_messages ≡ s.backend.chat_messages in
    let (p, t, prepared, rest) =
      bind-inv (prepare payload user tracing)
        (λ p. run_agent outside harness auth_token p >>= answer payload user turn) s after response
        h in
    let (finish, u, ran, answered) =
      bind-inv (run_agent outside harness auth_token p) (answer payload user turn) t after response
        rest in
    let at_t : Same t.backend =
      subst (λ (r : Result Prepared × Service). Same r.1.backend) prepared
        ((prepare_keeps Same payload user tracing).holds s refl) in
    let at_u : Same u.backend =
      subst (λ (r : Result Finish × Service). Same r.1.backend) ran
        ((run_agent_keeps outside {P = Same} (λ job. record { holds = λ b k. k })
            (λ now job. record { holds = λ b k. k }) (λ job. record { holds = λ b k. k }) harness
            auth_token p).holds
          t at_t) in
    (u.backend, at_u, answer-inv payload user turn finish u after response answered)

-- A chat that returns has said its message and its reply in the conversation that it names, whoever
-- owns it, once each, and in no other conversation: however the database orders rows of one time, before
-- and after, what a conversation tells after the chat is what it told before with the turn's two
-- messages added, up to order.
pub chat-told :
    {Token : Type 0} (outside : Outside Token) (harness : Agent → List Message → Run)
    (payload : ChatRequest) (user : Uuid) (auth_token : Token) (tracing : Bool) (turn : Turn)
    (s after : Service) (response : ChatResponse) (c : String)
    (told_before told_after : List Message)
    → chat outside harness payload user auth_token tracing turn s ≡ (ok response, after)
    → Told c s.backend told_before
    → Told c after.backend told_after
    → Perm told_after
        (add_turn payload.conversation_id payload.message response.reply (λ _. told_before) c)
unfolding record_reply
chat-told outside harness payload user auth_token tracing turn s after response c told_before
      told_after h before at_end =
    let (t, same, recorded) =
      chat-inv outside harness payload user auth_token tracing turn s after response h in
    record_turn-told user payload.conversation_id payload.message response.reply turn.ids turn.now t
      c told_before told_after
      (subst (λ rows. Perm told_before (map message_of (select (is_in c) rows))) (sym same) before)
      (subst (λ b. Told c b told_after) recorded at_end)

-- The history of a conversation after a chat in it, in any order that the database may answer with
-- when it orders by time alone: if all the messages that were stored are older than the turn, those
-- of the conversation come first, and then the turn's own two, the message and the reply.
pub chat-ordered :
    {Token : Type 0} (outside : Outside Token) (harness : Agent → List Message → Run)
    (payload : ChatRequest) (user : Uuid) (auth_token : Token) (tracing : Bool) (turn : Turn)
    (s after : Service) (response : ChatResponse) (rows : List ChatMessage)
    → chat outside harness payload user auth_token tracing turn s ≡ (ok response, after)
    → All (λ (m : ChatMessage). m.created_at < turn.now) s.backend.chat_messages
    → Perm rows (select (is_in payload.conversation_id) after.backend.chat_messages)
    → IsOldestFirst (λ (m : ChatMessage). m.created_at) rows
    → (earlier : List ChatMessage) × (last : List ChatMessage) × (rows ≡ earlier ++ last)
      × Perm earlier (select (is_in payload.conversation_id) s.backend.chat_messages)
      × Perm (map message_of last) (human payload.message ∷ ai response.reply ∷ [])
unfolding record_reply
chat-ordered outside harness payload user auth_token tracing turn s after response rows h older
      answered sorted =
    let (t, same, recorded) =
      chat-inv outside harness payload user auth_token tracing turn s after response h in
    let (earlier, last, parts, before, said) =
      record_turn-ordered user payload.conversation_id payload.message response.reply turn.ids
        turn.now t rows
        (subst (All (λ (m : ChatMessage). m.created_at < turn.now)) (sym same) older)
        (subst (λ b. Perm rows (select (is_in payload.conversation_id) b.chat_messages)) recorded
          answered)
        sorted in
    (
      earlier,
      last,
      parts,
      subst (λ ms. Perm earlier (select (is_in payload.conversation_id) ms)) same before,
      said,
    )
