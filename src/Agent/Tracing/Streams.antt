-- ===== src/Agent/Tracing/Streams.antt =====
-- `astream_events` of `TracedLLM`. `stream_events`, which the program does not call, has the same body.
use onecrawler_backend.Prelude.{ℕ, zero, suc, ◌≡◌, refl, ap, String, Option, List, [], ◌∷◌, ◌++◌}
use onecrawler_backend.Agent.Conversations.{Message}
use onecrawler_backend.Agent.Tracing.{
  Mark, SpanType, Fault, CompletionResponse, ToolSpec, record_response, inputs,
}

-- an event of a provider: text, or one that has a `response`
pub data StreamEvent : Type 0 where
  delta : String → StreamEvent
  completed : CompletionResponse → StreamEvent

-- what a provider streams, to its end or to an exception
pub data Stream : Type 0 where
  ended : Stream
  failed : Fault → Stream
  event : StreamEvent → Stream → Stream

-- how a stream ended for its reader
pub data StreamEnd : Type 0 where
  exhausted : StreamEnd
  broken : Fault → StreamEnd
  left : StreamEnd

-- A reader takes up to `suc n` events and then leaves: the events, and how the stream ended.
abbrev pub read : ℕ → Stream → List StreamEvent × StreamEnd
read n Stream.ended = ([], StreamEnd.exhausted)
read n (Stream.failed f) = ([], StreamEnd.broken f)
read zero (Stream.event e rest) = (e ∷ [], StreamEnd.left)
read (suc n) (Stream.event e rest) = let (es, end) = read n rest in (e ∷ es, end)

-- `if hasattr(event, "response"): _record(span, event.response)`
abbrev event_marks : StreamEvent → List Mark
event_marks (StreamEvent.delta t) = []
event_marks (StreamEvent.completed r) = record_response r

-- the loop of the generator: an event is recorded before it is handed on
abbrev loop : ℕ → Stream → List StreamEvent × StreamEnd × List Mark
loop n Stream.ended = ([], StreamEnd.exhausted, [])
loop n (Stream.failed f) = ([], StreamEnd.broken f, [])
loop zero (Stream.event e rest) = (e ∷ [], StreamEnd.left, event_marks e)
loop (suc n) (Stream.event e rest) =
    let (es, end, ms) = loop n rest in (e ∷ es, end, event_marks e ++ ms)

-- A reader that leaves an asynchronous generator does not close it: its span ends at some later
-- time, if at all, so that no mark of its end stands here.
abbrev end_marks : StreamEnd → List Mark
end_marks StreamEnd.exhausted = Mark.closed ∷ []
end_marks (StreamEnd.broken f) = Mark.faulted f ∷ []
end_marks StreamEnd.left = []

-- `astream_events`: the stream of the provider in a span, as a reader of up to `suc n` events sees
-- it
unfoldable pub traced_events :
    String
    → List Message
    → Option (List ToolSpec)
    → ℕ
    → Stream
    → List StreamEvent × StreamEnd × List Mark
traced_events name messages tools n stream =
    let (es, end, ms) = loop n stream in
    (es, end, Mark.opened name SpanType.chat_model ∷ inputs messages tools ∷ (ms ++ end_marks end))

read-loop : (n : ℕ) (stream : Stream) → ((loop n stream).0, (loop n stream).1) ≡ read n stream
read-loop n Stream.ended = refl
read-loop n (Stream.failed f) = refl
read-loop zero (Stream.event e rest) = refl
read-loop (suc n) (Stream.event e rest) =
    ap (λ (r : List StreamEvent × StreamEnd). (e ∷ r.0, r.1)) (read-loop n rest)

-- A traced stream hands on what the provider streams, as far as its reader reads.
traced_events-read :
    (name : String) (messages : List Message) (tools : Option (List ToolSpec)) (n : ℕ)
    (stream : Stream)
    → (
      (traced_events name messages tools n stream).0,
      (traced_events name messages tools n stream).1,
    )
      ≡ read n stream
unfolding traced_events
traced_events-read name messages tools n stream = read-loop n stream
