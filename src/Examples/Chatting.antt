-- ===== src/Examples/Chatting.antt =====
-- The theorems on the assistant at one concrete world: it is asked to stop a crawl, and does.
use onecrawler_backend.Prelude.{
  ◌++◌, map, ◌≡◌, refl, String, true, false, Option, none, some, List, [], ◌∷◌, ◌++◌, arith, All,
}
use onecrawler_backend.Exec.{Result, ok, err}
use onecrawler_backend.Models.Agent.{AgentSettings}
use onecrawler_backend.Auth.{Claims}
use onecrawler_backend.Crawls.Serving.{RowsHaveJobs}
use onecrawler_backend.Agent.Llm.{ChatModel, made, build_chat_model}
use onecrawler_backend.Agent.Cache.{AgentKey, Agent, get_agent, model_of}
use onecrawler_backend.Agent.Cache.Transparent.{new_agent, IsSound, get_agent-new}
use onecrawler_backend.Agent.Setup.{LlmConfigIn, set_agent_settings, check_provider_requirements}
use onecrawler_backend.Agent.Setup.Resolving.{ChatRequest, resolve_agent_settings}
use onecrawler_backend.Agent.Setup.Saved.{plain, set_agent_settings-resolve}
use onecrawler_backend.Agent.Conversations.{Message}
use mathlib.Core.List.Perm
use onecrawler_backend.Agent.Tools.Crawling.{cancel_crawl_tool}
use onecrawler_backend.Agent.Tools.{request as send}
use onecrawler_backend.Auth.{get_current_user}
use onecrawler_backend.Crawls.{cancel_crawl}
use onecrawler_backend.Tables.{select}
use onecrawler_backend.Models.Agent.{ChatMessage}
use onecrawler_backend.Agent.Conversations.{is_in, message_of, human, ai, record_turn}
use onecrawler_backend.Agent.Conversations.Memory.{transcripts, transcripts-Told, add_turn}
use mathlib.Core.List.{Perm}
use onecrawler_backend.Agent.Conversations.Titles.{HasShortTitle}
use onecrawler_backend.Agent.Tools.{Outside, AgentDeps}
use onecrawler_backend.Agent.Tools.Reading.{export_data_tool}
use onecrawler_backend.Agent.Tools.Toolbox.{ToolCall}
use onecrawler_backend.Agent.Tools.Exports.{HasFailed, export_data_tool_raises}
use onecrawler_backend.Agent.Run.{Run, drive}
use onecrawler_backend.Agent.Chat.{Service, Turn, SseEvent, chat, chat_stream}
use onecrawler_backend.Agent.Chat.Streams.{IsStep, IsVerdict, chat_stream-chat, chat_stream_ends}
use onecrawler_backend.Agent.Chat.Kept.{SameAccounts, chat_is_confined}
use onecrawler_backend.Agent.Chat.Recorded.{chat-told, chat-ordered}
use onecrawler_backend.Agent.Chat.Titled.{chat-titles}
use onecrawler_backend.Agent.Tracing.Runs.{
  run_traced, tool_spans, called_tools, tool_spans-run_traced,
}
use onecrawler_backend.Examples.{world, config, jwt}

abbrev llm : LlmConfigIn
llm = record { provider = "openai"; model = "gpt"; api_key = some "k"; base_url = none }

abbrev key : AgentKey
key = record { provider = "openai"; model = "gpt"; api_key = some "k"; base_url = none }

get_agent-new_example :
    ((get_agent false key []).0 ≡ new_agent false key (model_of key))
    × IsSound false (get_agent false key []).1
get_agent-new_example = get_agent-new false key [] (tt, omega arith)

set_agent_settings-resolve_example :
    let after = (set_agent_settings 1 (record { llm = some llm; search = none }) 500 world).1 in
    (search_api_key : Option String) × (m : ChatModel) × (resolve_agent_settings
        (plain "Stop it" "c")
        1
        after
      ≡ (ok (record { key = key; search_api_key = search_api_key }), after))
    × (build_chat_model "openai" "gpt" (some "k") none ≡ made m)
unfolding check_provider_requirements
set_agent_settings-resolve_example =
    set_agent_settings-resolve 1 llm none 500 "Stop it" "c" world refl refl

-- the user's settings
abbrev row : AgentSettings
row = record {
  user_id = 1;
  llm_provider = some "openai";
  llm_model = some "gpt";
  llm_api_key = some "k";
  llm_base_url = none;
  search_provider = none;
  search_api_key = none;
  updated_at = 500;
}

abbrev outside : Outside Claims
outside = record {
  config = config;
  jwt = jwt;
  ilike = λ text pattern. true;
  collates = λ a b. true;
  urlparse = λ url. none;
  strptime = λ text. false;
  search = λ api_key query n. none;
}

abbrev token : Claims
token = record {
  sub = 1;
  email = none;
  user_type = none;
  name = none;
  kind = "access";
  jti = 5;
  iat = 0;
  exp = 10;
}

abbrev service : Service
service = record { backend = record world { agent_settings = row ∷ [] }; agents = [] }

-- It cancels job 7 and says so.
abbrev harness : Agent → List Message → Run
harness agent messages =
    Run.tool (ToolCall.cancel_crawl 7) (record { now = 600; new_id = 9 })
      λ result.
        Run.text "Stopped."
          (Run.finished (record { answered = true; output = "Stopped."; stop_reason = "answer" }))

abbrev request : ChatRequest
request = plain "Stop it" "c"

abbrev turn : Turn
turn = record { ids = λ n. n; now = 700 }

-- what the chat leaves
abbrev stopped : Service
stopped = (chat outside harness request 1 token false turn service).1

chat_stream-chat_example :
    (chat_stream outside harness request 1 token false turn service).1 ≡ stopped
chat_stream-chat_example = chat_stream-chat outside harness request 1 token false turn service

abbrev streamed : Service
streamed = (chat_stream outside harness request 1 token false turn service).1

-- the events of the stream
abbrev events : Result (List SseEvent) → List SseEvent
events (ok es) = es
events (err code text) = []

abbrev sent : List SseEvent
sent = events (chat_stream outside harness request 1 token false turn service).0

chat_stream_ends_example :
    (steps : List SseEvent) × (last : SseEvent) × (sent ≡ steps ++ last ∷ [])
    × All IsStep steps
    × IsVerdict (chat outside harness request 1 token false turn service).0 last
unfolding chat_stream build_chat_model
chat_stream_ends_example =
    chat_stream_ends outside harness request 1 token false turn service streamed sent refl

chat_is_confined_example :
    RowsHaveJobs stopped.backend × SameAccounts service.backend stopped.backend
chat_is_confined_example =
    chat_is_confined outside harness request 1 token false turn service ((refl, (refl, tt)), tt, tt)

chat-told_example :
    Perm
      (transcripts stopped.backend "c")
      (add_turn "c" "Stop it" "Stopped." (λ _. transcripts service.backend "c") "c")
unfolding chat build_chat_model
chat-told_example =
    chat-told outside harness request 1 token false turn service stopped
      (record { conversation_id = "c"; reply = "Stopped." }) "c" (transcripts service.backend "c")
      (transcripts stopped.backend "c") refl (transcripts-Told "c" service.backend)
      (transcripts-Told "c" stopped.backend)

chat-ordered_example :
    let rows = select (is_in "c") stopped.backend.chat_messages in
    (earlier : List ChatMessage) × (last : List ChatMessage) × (rows ≡ earlier ++ last)
    × Perm earlier (select (is_in "c") service.backend.chat_messages)
    × Perm (map message_of last) (human "Stop it" ∷ ai "Stopped." ∷ [])
unfolding chat build_chat_model record_turn cancel_crawl_tool send get_current_user cancel_crawl
chat-ordered_example =
    chat-ordered outside harness request 1 token false turn service stopped
      (record { conversation_id = "c"; reply = "Stopped." })
      (select (is_in "c") stopped.backend.chat_messages) refl tt
      (Perm.refl (select (is_in "c") stopped.backend.chat_messages)) ((omega arith, tt), (tt, tt))

chat-titles_example : All HasShortTitle stopped.backend.conversations
chat-titles_example = chat-titles outside harness request 1 token false turn service tt

export_data_tool_raises_example :
    HasFailed
      (export_data_tool outside
        (record { auth_token = token; search_api_key = none })
        (record { now = 600; new_id = 9 })
        none
        none
        none
        none
        "zip"
        world).0
export_data_tool_raises_example =
    export_data_tool_raises outside (record { auth_token = token; search_api_key = none })
      (record { now = 600; new_id = 9 }) none none none none world

abbrev deps : AgentDeps Claims
deps = record { auth_token = token; search_api_key = none }

-- the run of an agent that cancels job 7
abbrev stopping : Run
stopping =
    harness
      (record {
        chat_model = ChatModel.open_ai "gpt" (some "k") none;
        span_name = some "openai/gpt";
        steps = 25;
      })
      []

tool_spans-run_traced_example :
    tool_spans (run_traced outside deps true "c" "Stop it" stopping service.backend).2
    ≡ called_tools (drive outside deps stopping service.backend).0
tool_spans-run_traced_example =
    tool_spans-run_traced outside deps "c" "Stop it" stopping service.backend
