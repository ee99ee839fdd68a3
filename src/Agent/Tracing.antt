-- ===== src/Agent/Tracing.antt =====
-- agent/tracing.py: the spans that the program opens by hand, as what a tracking server is told of
-- them, in order. MLflow is not part of the repository: a span is told that it is open, what it is
-- given, and that it is over, with the exception that ends it if there is one.
pub mod Nesting
pub mod Streams
pub mod Runs
use onecrawler_backend.Prelude.{
  ℕ, zero, suc, String, Bool, true, false, Option, none, some, List, [], ◌∷◌, ◌++◌, map,
}
use onecrawler_backend.Backend.{Backend}
use onecrawler_backend.Agent.Conversations.{Message}
use onecrawler_backend.Agent.Tools.{
  Outside, AgentDeps, Draw, Reply, ToolError, ToolResult, returned, raised,
}
use onecrawler_backend.Agent.Tools.Toolbox.{ToolCall, ToolEvent, tool_name, call}

pub data SpanType : Type 0 where
  chat_model : SpanType
  tool : SpanType
  agent : SpanType

-- what ends a span besides its end
pub data Fault : Type 0 where
  error : String → Fault
  tool_error : ToolError → Fault

pub data Mark : Type 0 where
  opened : String → SpanType → Mark
  -- the messages, and the names of the tools
  model_inputs : List Message → List String → Mark
  -- the text, and the names and arguments of the calls
  completion : String → List (String × String) → Mark
  -- input, output and total tokens
  token_usage : ℕ → ℕ → ℕ → Mark
  tool_inputs : ToolCall → Mark
  tool_outputs : Reply → Mark
  -- the conversation and the message
  run_inputs : String → String → Mark
  run_output : String → Mark
  closed : Mark
  faulted : Fault → Mark

-- what a call returns or raises
pub data Answer (A : Type 0) : Type 0 where
  replied : A → Answer A
  broke : Fault → Answer A

abbrev pub closing : {A : Type 0} → Answer A → Mark
closing (Answer.replied a) = Mark.closed
closing (Answer.broke f) = Mark.faulted f

-- `with mlflow.start_span(name, span_type=…) as span:` around a body
abbrev pub spanned : {A : Type 0} → String → SpanType → Answer A → List Mark → List Mark
spanned name kind a body = Mark.opened name kind ∷ (body ++ closing a ∷ [])

-- `CompletionResponse`, with the arguments of its calls as text
pub record Usage : Type 0 where
  pub prompt_tokens : ℕ
  pub completion_tokens : ℕ
  pub total_tokens : ℕ

pub record ModelCall : Type 0 where
  pub name : String
  pub arguments : String

pub record CompletionResponse : Type 0 where
  pub content : String
  pub tool_calls : List ModelCall
  pub usage : Option Usage

pub record ToolSpec : Type 0 where
  pub name : String

abbrev usage_marks : Option Usage → List Mark
usage_marks none = []
usage_marks (some u) = Mark.token_usage u.prompt_tokens u.completion_tokens u.total_tokens ∷ []

abbrev call_pair : ModelCall → String × String
call_pair c = (c.name, c.arguments)

-- `_record`
unfoldable pub record_response : CompletionResponse → List Mark
record_response r = Mark.completion r.content (map call_pair r.tool_calls) ∷ usage_marks r.usage

abbrev spec_name : ToolSpec → String
spec_name t = t.name

-- `[tool["name"] for tool in tools or []]`
abbrev spec_names : Option (List ToolSpec) → List String
spec_names none = []
spec_names (some ts) = map spec_name ts

-- `TracedLLM._inputs`
unfoldable pub inputs : List Message → Option (List ToolSpec) → Mark
inputs messages tools = Mark.model_inputs messages (spec_names tools)

abbrev recorded : Answer CompletionResponse → List Mark
unfolding record_response
recorded (Answer.replied r) = record_response r
recorded (Answer.broke f) = []

-- `TracedLLM.agenerate` and `generate`, around those of a provider
unfoldable pub generate :
    {W : Type 0}
    → (List Message → Option (List ToolSpec) → W → Answer CompletionResponse × W)
    → String
    → List Message
    → Option (List ToolSpec)
    → W
    → Answer CompletionResponse × W × List Mark
unfolding record_response inputs
generate inner name messages tools w =
    let (a, w') = inner messages tools w in
    (a, w', spanned name SpanType.chat_model a (inputs messages tools ∷ recorded a))

abbrev answer_of : ToolResult → Answer Reply
answer_of (returned reply) = Answer.replied reply
answer_of (raised e) = Answer.broke (Fault.tool_error e)

abbrev output_marks : ToolResult → List Mark
output_marks (returned reply) = Mark.tool_outputs reply ∷ []
output_marks (raised e) = []

module _ {Token : Type 0} (outside : Outside Token) (deps : AgentDeps Token) where
  -- `TracedToolbox.call`
  unfoldable pub traced_call :
      Bool → ToolCall → Draw → Backend → ToolResult × List ToolEvent × Backend × List Mark
  traced_call events c draw s =
      let (result, told, after) = call outside deps events c draw s in
      (
        result,
        told,
        after,
        spanned (tool_name c) SpanType.tool (answer_of result)
            (Mark.tool_inputs c ∷ output_marks result),
      )

-- The depth of open spans after a mark: a mark that opens none needs one to stand on.
abbrev stay : ℕ → Option ℕ
stay zero = none
stay (suc d) = some (suc d)

abbrev leave : ℕ → Option ℕ
leave zero = none
leave (suc d) = some d

abbrev pub step : ℕ → Mark → Option ℕ
step d (Mark.opened name kind) = some (suc d)
step d Mark.closed = leave d
step d (Mark.faulted f) = leave d
step d _ = stay d

abbrev pub nest_from : (ℕ → Option ℕ) → Option ℕ → Option ℕ
nest_from f none = none
nest_from f (some d) = f d

-- the depth after all marks of a list, or none if one of them stands on no span
unfoldable pub nest : List Mark → ℕ → Option ℕ
nest [] d = some d
nest (m ∷ ms) d = nest_from (nest ms) (step d m)
