-- ===== src/Agent/Tracing/Nesting.antt =====
-- Marks of spans that nest.
use onecrawler_backend.Prelude.{
  ℕ, Bool, suc, ◌≡◌, refl, Option, none, some, List, [], ◌∷◌, ◌++◌, String,
}
use onecrawler_backend.Agent.Conversations.{Message}
use onecrawler_backend.Agent.Tools.{Outside, AgentDeps, Draw, ToolResult, returned, raised}
use onecrawler_backend.Agent.Tools.Toolbox.{ToolCall, tool_name, call}
use onecrawler_backend.Backend.{Backend}
use onecrawler_backend.Agent.Tracing.{
  Mark, SpanType, Answer, CompletionResponse, Usage, ToolSpec, usage_marks, spanned,
  record_response, recorded, inputs, generate, output_marks, traced_call, step, nest_from, nest,
  answer_of,
}

nest_from-nest :
    (f g h : ℕ → Option ℕ)
    → ((d : ℕ) → f d ≡ nest_from g (h d))
    → (o : Option ℕ) → nest_from f o ≡ nest_from g (nest_from h o)
nest_from-nest f g h e none = refl
nest_from-nest f g h e (some d) = e d

pub nest-append : (xs ys : List Mark) (d : ℕ) → nest (xs ++ ys) d ≡ nest_from (nest ys) (nest xs d)
unfolding nest
nest-append [] ys d = refl
nest-append (x ∷ xs) ys d =
    nest_from-nest (nest (xs ++ ys)) (nest ys) (nest xs) (nest-append xs ys) (step d x)

-- Marks that stand on an open span and leave it open.
abbrev pub IsLevel : List Mark → Type 0
IsLevel ms = (d : ℕ) → nest ms (suc d) ≡ some (suc d)

pub nil-IsLevel : IsLevel []
unfolding nest
nil-IsLevel d = refl

pub append-IsLevel : (xs ys : List Mark) → IsLevel xs → IsLevel ys → IsLevel (xs ++ ys)
append-IsLevel xs ys hx hy d = rw (nest-append xs ys (suc d), hx d, hy d) refl

-- A span around such marks stands anywhere.
pub nest-spanned :
    {A : Type 0} (name : String) (kind : SpanType) (a : Answer A) (ms : List Mark)
    → IsLevel ms
    → (d : ℕ) → nest (spanned name kind a ms) d ≡ some d
unfolding nest
nest-spanned name kind (Answer.replied r) ms h d =
    rw (nest-append ms (Mark.closed ∷ []) (suc d), h d) refl
nest-spanned name kind (Answer.broke f) ms h d =
    rw (nest-append ms (Mark.faulted f ∷ []) (suc d), h d) refl

usage-IsLevel : (u : Option Usage) → IsLevel (usage_marks u)
unfolding nest
usage-IsLevel none d = refl
usage-IsLevel (some u) d = refl

pub record_response-IsLevel : (r : CompletionResponse) → IsLevel (record_response r)
unfolding nest record_response
record_response-IsLevel r d = usage-IsLevel r.usage d

recorded-IsLevel : (a : Answer CompletionResponse) → IsLevel (recorded a)
unfolding nest recorded
recorded-IsLevel (Answer.replied r) d = record_response-IsLevel r d
recorded-IsLevel (Answer.broke f) d = refl

pub inputs-IsLevel :
    (messages : List Message) (tools : Option (List ToolSpec))
    → IsLevel (inputs messages tools ∷ [])
unfolding nest inputs
inputs-IsLevel messages tools d = refl

outputs-IsLevel : (c : ToolCall) (r : ToolResult) → IsLevel (Mark.tool_inputs c ∷ output_marks r)
unfolding nest
outputs-IsLevel c (returned reply) d = refl
outputs-IsLevel c (raised e) d = refl

pub nest-generate :
    {W : Type 0} (inner : List Message → Option (List ToolSpec) → W → Answer CompletionResponse × W)
    (name : String) (messages : List Message) (tools : Option (List ToolSpec)) (w : W) (d : ℕ)
    → nest (generate inner name messages tools w).2 d ≡ some d
unfolding generate
nest-generate inner name messages tools w d =
    let a = (inner messages tools w).0 in
    nest-spanned name SpanType.chat_model a (inputs messages tools ∷ recorded a)
      (append-IsLevel (inputs messages tools ∷ []) (recorded a) (inputs-IsLevel messages tools)
        (recorded-IsLevel a))
      d

pub nest-traced_call :
    {Token : Type 0} (outside : Outside Token) (deps : AgentDeps Token) (events : Bool)
    (c : ToolCall) (draw : Draw) (s : Backend) (d : ℕ)
    → nest (traced_call outside deps events c draw s).3 d ≡ some d
unfolding traced_call
nest-traced_call outside deps events c draw s d =
    let result = (call outside deps events c draw s).0 in
    nest-spanned (tool_name c) SpanType.tool (answer_of result)
      (Mark.tool_inputs c ∷ output_marks result) (outputs-IsLevel c result) d
