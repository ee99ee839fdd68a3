-- ===== src/Agent/Chat.antt =====
-- `chat` and `chat_stream` of api/v1/agent/router.py. The client reads a stream to its end.
pub mod Streams
pub mod Kept
pub mod Recorded
pub mod Titled
use onecrawler_backend.Prelude.{
  ℕ, String, Bool, true, false, not, Option, none, some, List, [], ◌∷◌, if◌then◌else◌, str_append,
}
use onecrawler_backend.Exec.{
  Exec, Result, ok, err, pure, gets, raise, raise_if, modify, ◌>>=◌, ◌>>◌,
}
use onecrawler_backend.Models.{Uuid}
use onecrawler_backend.Backend.{Backend}
use onecrawler_backend.Agent.Llm.{Attempt, made, failed}
use onecrawler_backend.Agent.Cache.{AgentKey, Agent, AgentCache, get_agent}
use onecrawler_backend.Agent.Setup.Resolving.{ChatRequest, Resolved, resolve_agent_settings}
use onecrawler_backend.Agent.Conversations.{
  Message, history_messages, conversation_history, record_turn,
}
use onecrawler_backend.Agent.Tools.{Outside, AgentDeps, Reply, ToolError}
use onecrawler_backend.Agent.Tools.Toolbox.{
  ToolCall, ToolEvent, tool_call, tool_result, tool_error, tool_name,
}
use onecrawler_backend.Agent.Run.{
  RunState, Run, Finish, ended, broken, Item, text_delta, tool_activity, other_event, exception,
  finished_with, arun, drive,
}

-- the API with the agents that its process keeps
pub record Service : Type 0 where
  pub backend : Backend
  pub agents : AgentCache

abbrev pub on_backend : {A : Type 0} → Exec Backend A → Exec Service A
on_backend m s = let run = m s.backend in (run.0, record s { backend = run.1 })

abbrev pub built : Attempt Agent → Result Agent
built (made agent) = ok agent
-- the `ValueError`, which no handler catches
built (failed e) = err 500 "Internal Server Error"

unfoldable pub obtain : Bool → AgentKey → Exec Service Agent
unfolding get_agent
obtain tracing key s =
    let got = get_agent tracing key s.agents in (built got.0, record s { agents = got.1 })

pub record Prepared : Type 0 where
  pub agent : Agent
  pub messages : List Message
  pub search_api_key : Option String

pub record ChatResponse : Type 0 where
  pub conversation_id : String
  pub reply : String

-- the commit of a turn: its time, and the ids of its messages
pub record Turn : Type 0 where
  pub ids : ℕ → ℕ
  pub now : ℕ

-- what `serialize_event` makes of an event: the text of a tool's message is that of the error, or
-- of the result
pub data SerializedEvent : Type 0 where
  ai_message : ToolCall → SerializedEvent
  error_message : ToolError → String → SerializedEvent
  result_message : Reply → String → SerializedEvent

pub data SseEvent : Type 0 where
  -- the node and the text
  token : String → String → SseEvent
  message : String → SerializedEvent → SseEvent
  done : SseEvent
  error : String → SseEvent

abbrev pub agent_name : String
agent_name = "onecrawler"

unfoldable pub serialize_event : ToolEvent → SerializedEvent
serialize_event (tool_call c) = ai_message c
serialize_event (tool_error c e) = error_message e (tool_name c)
serialize_event (tool_result c reply) = result_message reply (tool_name c)

abbrev pub event_name : ToolEvent → String
event_name (tool_call c) = tool_name c
event_name (tool_error c e) = tool_name c
event_name (tool_result c reply) = tool_name c

unfoldable pub activity : ToolEvent → SseEvent
unfolding serialize_event
activity e = message (event_name e) (serialize_event e)

module _ (payload : ChatRequest) (user_id : Uuid) where
  -- the lines with which both handlers begin
  unfoldable pub prepare : Bool → Exec Service Prepared
  unfolding resolve_agent_settings obtain history_messages conversation_history ◌>>=◌
  prepare tracing = do
    resolved ← on_backend (resolve_agent_settings payload user_id)
    history ← gets (λ s. conversation_history payload.conversation_id s.backend)
    agent ← obtain tracing resolved.key
    pure (record {
      agent = agent;
      messages = history_messages history payload.message;
      search_api_key = resolved.search_api_key;
    })

  unfoldable pub record_reply : Turn → String → Backend → Backend
  unfolding record_turn
  record_reply turn reply =
      record_turn user_id payload.conversation_id payload.message reply turn.ids turn.now

  -- `chat` from the end of the run on
  unfoldable pub answer : Turn → Finish → Exec Service ChatResponse
  unfolding record_reply ◌>>=◌
  answer turn (broken reason) = raise 502 (str_append "Agent run failed: " reason)
  answer turn (ended state) = do
    raise_if (not state.answered) 502
        (str_append "Agent stopped without answering (" (str_append state.stop_reason ")."))
    modify (λ s. record s { backend = record_reply turn state.output s.backend })
    pure (record { conversation_id = payload.conversation_id; reply = state.output })

  -- The loop of `event_generator`. A queue that is empty would be waited for.
  unfoldable pub consume : Turn → List Item → Backend → List SseEvent × Backend
  unfolding record_reply activity
  consume turn [] s = ([], s)
  consume turn (text_delta delta ∷ items) s =
      let rest = consume turn items s in (token agent_name delta ∷ rest.0, rest.1)
  consume turn (tool_activity e ∷ items) s =
      let rest = consume turn items s in (activity e ∷ rest.0, rest.1)
  consume turn (other_event ∷ items) s = consume turn items s
  consume turn (exception text ∷ items) s = (error text ∷ [], s)
  consume turn (finished_with state ∷ items) s =
      (done ∷ [], if state.answered then record_reply turn state.output s else s)

-- `harness` is deepharness: the run of an agent on a transcript.
module _ {Token : Type 0} (outside : Outside Token) (harness : Agent → List Message → Run) where
  abbrev pub deps_of : Token → Prepared → AgentDeps Token
  deps_of auth_token p = record { auth_token = auth_token; search_api_key = p.search_api_key }

  unfoldable pub run_agent : Token → Prepared → Exec Service Finish
  unfolding arun
  run_agent auth_token p s =
      let run = arun outside (deps_of auth_token p) (harness p.agent p.messages) s.backend in
      (ok run.0, record s { backend = run.1 })

  unfoldable pub chat : ChatRequest → Uuid → Token → Bool → Turn → Exec Service ChatResponse
  unfolding prepare run_agent answer
  chat payload user_id auth_token tracing turn = do
    p ← prepare payload user_id tracing
    finish ← run_agent auth_token p
    answer payload user_id turn finish

  unfoldable pub stream :
      ChatRequest → Uuid → Token → Turn → Prepared → Exec Service (List SseEvent)
  unfolding drive consume
  stream payload user_id auth_token turn p s =
      let driven = drive outside (deps_of auth_token p) (harness p.agent p.messages) s.backend in
      let sent = consume payload user_id turn driven.0 driven.1 in
      (ok sent.0, record s { backend = sent.1 })

  unfoldable pub chat_stream :
      ChatRequest → Uuid → Token → Bool → Turn → Exec Service (List SseEvent)
  unfolding prepare stream
  chat_stream payload user_id auth_token tracing turn = do
    p ← prepare payload user_id tracing
    stream payload user_id auth_token turn p
