-- ===== src/Agent/Run.antt =====
-- A run of an agent of deepharness, and what the program makes of it. The run is a parameter: the
-- tree of what the harness does with a transcript, one branch for each result of a tool. It calls
-- its tools one after another; `arun` and `astream_events` make the same run.
use onecrawler_backend.Prelude.{String, Bool, true, false, List, [], ◌∷◌, ◌++◌, map}
use onecrawler_backend.Backend.{Backend}
use onecrawler_backend.Agent.Tools.{Outside, AgentDeps, Draw, ToolResult}
use onecrawler_backend.Agent.Tools.Toolbox.{ToolCall, ToolEvent, call}

pub record RunState : Type 0 where
  pub answered : Bool
  pub output : String
  pub stop_reason : String

pub data Run : Type 0 where
  finished : RunState → Run
  -- an exception, with its text
  failed : String → Run
  text : String → Run → Run
  -- an event that the program does not look at
  other : Run → Run
  tool : ToolCall → Draw → (ToolResult → Run) → Run

-- what `arun` returns or raises
pub data Finish : Type 0 where
  ended : RunState → Finish
  broken : String → Finish

-- what the queue of a stream holds
pub data Item : Type 0 where
  text_delta : String → Item
  tool_activity : ToolEvent → Item
  other_event : Item
  exception : String → Item
  finished_with : RunState → Item

module _ {Token : Type 0} (outside : Outside Token) (deps : AgentDeps Token) where
  -- `agent.arun(…)`, without a queue
  unfoldable pub arun : Run → Backend → Finish × Backend
  unfolding call
  arun (finished state) s = (ended state, s)
  arun (failed error) s = (broken error, s)
  arun (text delta run) s = arun run s
  arun (other run) s = arun run s
  arun (tool c draw run) s =
      let (result, events, after) = call outside deps false c draw s in arun (run result) after

  -- `drive()` of `chat_stream`: the queue is filled from the run and from the toolbox.
  unfoldable pub drive : Run → Backend → List Item × Backend
  unfolding call
  drive (finished state) s = (finished_with state ∷ [], s)
  drive (failed error) s = (exception error ∷ [], s)
  drive (text delta run) s = let rest = drive run s in (text_delta delta ∷ rest.0, rest.1)
  drive (other run) s = let rest = drive run s in (other_event ∷ rest.0, rest.1)
  drive (tool c draw run) s =
      let (result, events, after) = call outside deps true c draw s in
      let rest = drive (run result) after in (map tool_activity events ++ rest.0, rest.1)
