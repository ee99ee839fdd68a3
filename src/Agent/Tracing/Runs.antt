-- ===== src/Agent/Tracing/Runs.antt =====
-- `agent_run` around the run of an agent, whose toolbox is a `TracedToolbox` when tracing is on.
-- The spans of its model calls (Agent/Tracing/Streams) are not among the marks here: the tree of a
-- run does not say where they stand.
use mathlib.Core.List.{append_assoc}
use onecrawler_backend.Prelude.{
  suc, ◌≡◌, ◌∙◌, refl, sym, ap, append-nil, Bool, true, false, some, List, [], ◌∷◌, ◌++◌, String,
}
use onecrawler_backend.Backend.{Backend}
use onecrawler_backend.Agent.Tools.{Outside, AgentDeps, ToolResult, returned, raised}
use onecrawler_backend.Agent.Tools.Toolbox.{ToolCall, tool_call, tool_name, outcome, call}
use onecrawler_backend.Agent.Run.{
  RunState, Run, finished, failed, text, other, tool, Finish, ended, broken, Item, tool_activity,
  arun, drive,
}
use onecrawler_backend.Agent.Tracing.{
  Mark, SpanType, Fault, Answer, closing, spanned, answer_of, output_marks, traced_call, nest,
}
use onecrawler_backend.Agent.Tracing.Nesting.{
  IsLevel, nil-IsLevel, append-IsLevel, nest-spanned, nest-traced_call,
}

abbrev finish_answer : Finish → Answer RunState
finish_answer (ended state) = Answer.replied state
finish_answer (broken e) = Answer.broke (Fault.error e)

-- `if span is not None: span.set_outputs({"reply": state.output})`
abbrev finish_marks : Finish → List Mark
finish_marks (ended state) = Mark.run_output state.output ∷ []
finish_marks (broken e) = []

-- `agent_run`: the marks of a run in a span of their own, if tracing is on
unfoldable pub agent_run : Bool → String → String → Finish → List Mark → List Mark
agent_run false conversation_id message f ms = ms
agent_run true conversation_id message f ms =
    spanned "agent_run" SpanType.agent (finish_answer f)
      (Mark.run_inputs conversation_id message ∷ (ms ++ finish_marks f))

module _ {Token : Type 0} (outside : Outside Token) (deps : AgentDeps Token) where
  -- a run whose tools are called through `TracedToolbox`, without a queue
  unfoldable pub traced_arun : Run → Backend → Finish × Backend × List Mark
  unfolding traced_call call
  traced_arun (finished state) s = (ended state, s, [])
  traced_arun (failed error) s = (broken error, s, [])
  traced_arun (text delta run) s = traced_arun run s
  traced_arun (other run) s = traced_arun run s
  traced_arun (tool c draw run) s =
      let (result, events, after, ms) = traced_call outside deps false c draw s in
      let (f, last, rest) = traced_arun (run result) after in (f, last, ms ++ rest)

  -- the run of `chat`, with the tracing of the process on or off
  unfoldable pub run_traced : Bool → String → String → Run → Backend → Finish × Backend × List Mark
  unfolding agent_run
  run_traced false conversation_id message run s =
      let (f, last) = arun outside deps run s in
      (f, last, agent_run false conversation_id message f [])
  run_traced true conversation_id message run s =
      let (f, last, ms) = traced_arun run s in
      (f, last, agent_run true conversation_id message f ms)

  traced_arun-arun :
      (run : Run) (s : Backend)
      → ((traced_arun run s).0, (traced_arun run s).1) ≡ arun outside deps run s
  unfolding traced_arun arun
  traced_arun-arun (finished state) s = refl
  traced_arun-arun (failed error) s = refl
  traced_arun-arun (text delta run) s = traced_arun-arun run s
  traced_arun-arun (other run) s = traced_arun-arun run s
  traced_arun-arun (tool c draw run) s =
      let done = call outside deps false c draw s in traced_arun-arun (run done.0) done.2

  traced_arun-IsLevel : (run : Run) (s : Backend) → IsLevel (traced_arun run s).2
  unfolding traced_arun
  traced_arun-IsLevel (finished state) s = nil-IsLevel
  traced_arun-IsLevel (failed error) s = nil-IsLevel
  traced_arun-IsLevel (text delta run) s = traced_arun-IsLevel run s
  traced_arun-IsLevel (other run) s = traced_arun-IsLevel run s
  traced_arun-IsLevel (tool c draw run) s =
      let (result, events, after, ms) = traced_call outside deps false c draw s in
      append-IsLevel ms (traced_arun (run result) after).2
        (λ d. nest-traced_call outside deps false c draw s (suc d))
        (traced_arun-IsLevel (run result) after)

finish-IsLevel : (f : Finish) → IsLevel (finish_marks f)
unfolding nest
finish-IsLevel (ended state) d = refl
finish-IsLevel (broken e) d = refl

run_inputs-IsLevel : (c m : String) → IsLevel (Mark.run_inputs c m ∷ [])
unfolding nest
run_inputs-IsLevel c m d = refl

nest_nothing : nest [] 0 ≡ some 0
unfolding nest
nest_nothing = refl

-- With tracing or without it, a run ends alike, and the spans of the run and of its tools are nested.
run_traced-arun :
    {Token : Type 0} (outside : Outside Token) (deps : AgentDeps Token) (enabled : Bool)
    (conversation_id message : String) (run : Run) (s : Backend)
    → let (f, last, ms) = run_traced outside deps enabled conversation_id message run s in
      ((f, last) ≡ arun outside deps run s) × (nest ms 0 ≡ some 0)
unfolding run_traced
run_traced-arun outside deps false c m run s = (refl, nest_nothing)
run_traced-arun outside deps true c m run s =
    let f = (traced_arun outside deps run s).0 in
    let ms = (traced_arun outside deps run s).2 in
    (
      traced_arun-arun outside deps run s,
      nest-spanned "agent_run" SpanType.agent (finish_answer f)
          (Mark.run_inputs c m ∷ (ms ++ finish_marks f))
          (append-IsLevel (Mark.run_inputs c m ∷ []) (ms ++ finish_marks f) (run_inputs-IsLevel c m)
            (append-IsLevel ms (finish_marks f) (traced_arun-IsLevel outside deps run s)
              (finish-IsLevel f)))
          0,
    )

-- the tools that have a span, in order
abbrev span_tool : Mark → List String
span_tool (Mark.opened name SpanType.tool) = name ∷ []
span_tool _ = []

abbrev pub tool_spans : List Mark → List String
tool_spans [] = []
tool_spans (m ∷ ms) = span_tool m ++ tool_spans ms

-- the tools that a stream reports as called, in order
abbrev called_tool : Item → List String
called_tool (tool_activity (tool_call c)) = tool_name c ∷ []
called_tool _ = []

abbrev pub called_tools : List Item → List String
called_tools [] = []
called_tools (item ∷ items) = called_tool item ++ called_tools items

tool_spans-append : (xs ys : List Mark) → tool_spans (xs ++ ys) ≡ tool_spans xs ++ tool_spans ys
tool_spans-append [] ys = refl
tool_spans-append (x ∷ xs) ys =
    rw (tool_spans-append xs ys) (sym (append_assoc (span_tool x) (tool_spans xs) (tool_spans ys)))

tool_spans-finish :
    (ms : List Mark) (f : Finish)
    → tool_spans ((ms ++ finish_marks f) ++ closing (finish_answer f) ∷ []) ≡ tool_spans ms
tool_spans-finish ms (ended state) =
    tool_spans-append (ms ++ finish_marks (ended state)) (Mark.closed ∷ [])
    ∙ append-nil (tool_spans (ms ++ finish_marks (ended state)))
    ∙ tool_spans-append ms (finish_marks (ended state))
    ∙ append-nil (tool_spans ms)
tool_spans-finish ms (broken e) =
    tool_spans-append (ms ++ []) (Mark.faulted (Fault.error e) ∷ [])
    ∙ append-nil (tool_spans (ms ++ []))
    ∙ ap tool_spans (append-nil ms)

module _ {Token : Type 0} (outside : Outside Token) (deps : AgentDeps Token) where
  -- One call has one span, and tells a stream of one call.
  tool_spans-call :
      (c : ToolCall) (r : ToolResult) (rest : List Mark)
      → tool_spans (
          spanned (tool_name c) SpanType.tool (answer_of r) (Mark.tool_inputs c ∷ output_marks r)
          ++ rest)
        ≡ tool_name c ∷ tool_spans rest
  tool_spans-call c (returned reply) rest = refl
  tool_spans-call c (raised e) rest = refl

  called_tools-outcome :
      (c : ToolCall) (r : ToolResult) (rest : List Item)
      → called_tools (tool_activity (outcome c r) ∷ rest) ≡ called_tools rest
  called_tools-outcome c (returned reply) rest = refl
  called_tools-outcome c (raised e) rest = refl

  tool_spans-drive :
      (run : Run) (s : Backend)
      → tool_spans (traced_arun outside deps run s).2 ≡ called_tools (drive outside deps run s).0
  unfolding traced_arun drive
  tool_spans-drive (finished state) s = refl
  tool_spans-drive (failed error) s = refl
  tool_spans-drive (text delta run) s = tool_spans-drive run s
  tool_spans-drive (other run) s = tool_spans-drive run s
  tool_spans-drive (tool c draw run) s =
      let done = call outside deps false c draw s in
      tool_spans-call c done.0 (traced_arun outside deps (run done.0) done.2).2
      ∙ ap (◌∷◌ (tool_name c)) (
          tool_spans-drive (run done.0) done.2
          ∙ sym (called_tools-outcome c done.0 (drive outside deps (run done.0) done.2).0))

-- With tracing on, the trace of a run has one span for each tool that the run calls, in the order
-- in which `chat_stream` reports the calls of the same run to its client.
pub tool_spans-run_traced :
    {Token : Type 0} (outside : Outside Token) (deps : AgentDeps Token)
    (conversation_id message : String) (run : Run) (s : Backend)
    → tool_spans (run_traced outside deps true conversation_id message run s).2
      ≡ called_tools (drive outside deps run s).0
unfolding run_traced
tool_spans-run_traced outside deps c m run s =
    let (f, last, ms) = traced_arun outside deps run s in
    tool_spans-finish ms f ∙ tool_spans-drive outside deps run s
