-- ===== src/Agent/Chat/Streams.antt =====
-- The event stream of `chat_stream` against the answer of `chat`.
use onecrawler_backend.Prelude.{
  ◌≡◌, ◌∙◌, refl, sym, ap, inl, inr, ◌⊎◌, String, Bool, List, [], ◌∷◌, ◌++◌, All, Bool-cases,
  if◌then◌else◌, str_append,
}
use onecrawler_backend.Exec.{Result, ok, err, ◌>>=◌, bind-inv, bind_same}
use onecrawler_backend.Models.{Uuid}
use onecrawler_backend.Backend.{Backend}
use onecrawler_backend.Agent.Cache.{Agent}
use onecrawler_backend.Agent.Setup.Resolving.{ChatRequest}
use onecrawler_backend.Agent.Conversations.{Message}
use onecrawler_backend.Agent.Tools.{Outside, AgentDeps}
use onecrawler_backend.Agent.Tools.Toolbox.{run_tool, call, outcome, tool_call}
use onecrawler_backend.Agent.Run.{
  Run, finished, failed, text, other, tool, Finish, ended, broken, arun, drive,
}
use onecrawler_backend.Agent.Chat.{
  Service, Turn, Prepared, ChatResponse, SseEvent, token, message, done, error, agent_name,
  activity, prepare, record_reply, answer, consume, run_agent, deps_of, chat, stream, chat_stream,
}

-- the events with which a stream goes on, and those with which it ends
abbrev pub IsStep : SseEvent → Type 0
IsStep (token node delta) = Unit {0}
IsStep (message node event) = Unit {0}
IsStep done = ⊥
IsStep (error reason) = ⊥

abbrev pub last_event : Finish → SseEvent
last_event (ended state) = done
last_event (broken reason) = error reason

module _ {Token : Type 0} (outside : Outside Token) (deps : AgentDeps Token) (payload : ChatRequest)
    (user : Uuid) (turn : Turn) where
  -- what the end of a run writes
  abbrev settle : Finish → Backend → Backend
  settle (ended state) s =
      if state.answered then record_reply payload user turn state.output s else s
  settle (broken reason) s = s

  drive-arun :
      (run : Run) (s : Backend) → (drive outside deps run s).1 ≡ (arun outside deps run s).1
  unfolding drive arun call
  drive-arun (finished state) s = refl
  drive-arun (failed reason) s = refl
  drive-arun (text delta run) s = drive-arun run s
  drive-arun (other run) s = drive-arun run s
  drive-arun (tool c draw run) s =
      let did = run_tool outside deps c draw s in drive-arun (run did.0) did.1

  consume-drive :
      (run : Run) (s final : Backend)
      → (consume payload user turn (drive outside deps run s).0 final).1
        ≡ settle (arun outside deps run s).0 final
  unfolding drive arun call consume activity
  consume-drive (finished state) s final = refl
  consume-drive (failed reason) s final = refl
  consume-drive (text delta run) s final = consume-drive run s final
  consume-drive (other run) s final = consume-drive run s final
  consume-drive (tool c draw run) s final =
      let did = run_tool outside deps c draw s in consume-drive (run did.0) did.1 final

  consume_ends :
      (run : Run) (s final : Backend)
      → (steps : List SseEvent) × ((consume payload user turn (drive outside deps run s).0 final).0
          ≡ steps ++ last_event (arun outside deps run s).0 ∷ [])
        × All IsStep steps
  unfolding drive arun call consume activity
  consume_ends (finished state) s final = ([], refl, tt)
  consume_ends (failed reason) s final = ([], refl, tt)
  consume_ends (text delta run) s final =
      let (steps, e, h) = consume_ends run s final in
      (token agent_name delta ∷ steps, ap (λ es. token agent_name delta ∷ es) e, (tt, h))
  consume_ends (other run) s final = consume_ends run s final
  consume_ends (tool c draw run) s final =
      let did = run_tool outside deps c draw s in
      let (steps, e, h) = consume_ends (run did.0) did.1 final in
      (
        activity (tool_call c) ∷ activity (outcome c did.0) ∷ steps,
        ap (λ es. activity (tool_call c) ∷ activity (outcome c did.0) ∷ es) e,
        (tt, (tt, h)),
      )

  answer-settle :
      (finish : Finish) (s : Service)
      → (answer payload user turn finish s).1 ≡ record s { backend = settle finish s.backend }
  unfolding answer
  answer-settle (broken reason) s = refl
  answer-settle (ended state) s = elim (Bool-cases state.answered) [
    | inl e ↦ rw e refl
    | inr e ↦ rw e refl
  ]

-- the text of the 502 after a run that did not answer
abbrev pub stopped : String → String
stopped reason = str_append "Agent stopped without answering (" (str_append reason ").")

-- The last event of a stream says what `chat` would have answered; a run that stopped without an
-- answer ends a stream as one with an answer does.
abbrev pub IsVerdict : Result ChatResponse → SseEvent → Type 0
IsVerdict (ok response) last = last ≡ done
IsVerdict (err code said) last =
    ((last ≡ done) × (reason : String) × (said ≡ stopped reason))
    ⊎ ((reason : String) × (last ≡ error reason) × (said ≡ str_append "Agent run failed: " reason))

answer-IsVerdict :
    (payload : ChatRequest) (user : Uuid) (turn : Turn) (finish : Finish) (s : Service)
    → IsVerdict (answer payload user turn finish s).0 (last_event finish)
unfolding answer
answer-IsVerdict payload user turn (broken reason) s = inr (reason, refl, refl)
answer-IsVerdict payload user turn (ended state) s = elim (Bool-cases state.answered) [
  | inl e ↦ rw e refl
  | inr e ↦ rw e (inl (refl, state.stop_reason, refl))
]

module _ {Token : Type 0} (outside : Outside Token) (harness : Agent → List Message → Run) where
  -- Streamed or not, a chat leaves the same database, queue and agents behind, whatever the run
  -- does and however it ends.
  pub chat_stream-chat :
      (payload : ChatRequest) (user : Uuid) (auth_token : Token) (tracing : Bool) (turn : Turn)
      (s : Service)
      → (chat_stream outside harness payload user auth_token tracing turn s).1
        ≡ (chat outside harness payload user auth_token tracing turn s).1
  unfolding chat chat_stream stream run_agent ◌>>=◌
  chat_stream-chat payload user auth_token tracing turn s =
      bind_same (prepare payload user tracing) (stream outside harness payload user auth_token turn)
        _ s same_end
    where
      same_end :
          (p : Prepared) (t : Service)
          → (stream outside harness payload user auth_token turn p t).1
            ≡ ((run_agent outside harness auth_token p >>= answer payload user turn) t).1
      same_end p t =
          let deps = deps_of outside harness auth_token p in
          let run = harness p.agent p.messages in
          let ran = arun outside deps run t.backend in
          ap (λ (b : Backend). record t { backend = b })
            (consume-drive outside deps payload user turn run t.backend _
              ∙ ap (settle outside deps payload user turn ran.0)
                  (drive-arun outside deps payload user turn run t.backend))
          ∙ sym (answer-settle outside deps payload user turn ran.0 (record t { backend = ran.1 }))

  -- A stream ends: its events are tokens and messages and then one last event, which is `done` if
  -- `chat` would have returned a reply or reported a run without an answer, and the error of the
  -- run if `chat` would have reported that the run failed.
  pub chat_stream_ends :
      (payload : ChatRequest) (user : Uuid) (auth_token : Token) (tracing : Bool) (turn : Turn)
      (s after : Service) (events : List SseEvent)
      → chat_stream outside harness payload user auth_token tracing turn s ≡ (ok events, after)
      → (steps : List SseEvent) × (last : SseEvent) × (events ≡ steps ++ last ∷ [])
        × All IsStep steps
        × IsVerdict (chat outside harness payload user auth_token tracing turn s).0 last
  unfolding chat chat_stream stream run_agent ◌>>=◌
  chat_stream_ends payload user auth_token tracing turn s after events h =
      let (p, t, prepared, streamed) =
        bind-inv (prepare payload user tracing)
          (stream outside harness payload user auth_token turn) s after events h in
      let deps = deps_of outside harness auth_token p in
      let run = harness p.agent p.messages in
      let ran = arun outside deps run t.backend in
      let (steps, e, are_steps) = consume_ends outside deps payload user turn run t.backend _ in
      (
        steps,
        last_event ran.0,
        sym (sent_events streamed) ∙ e,
        are_steps,
        rw prepared (answer-IsVerdict payload user turn ran.0 (record t { backend = ran.1 })),
      )
    where
      sent_events :
          {r q : List SseEvent} {t u : Service}
          → ◌≡◌ {A = Result (List SseEvent) × Service} (ok r, t) (ok q, u)
          → r ≡ q
      sent_events e = cc
