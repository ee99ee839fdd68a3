-- ===== src/Agent/Chat/Kept.antt =====
-- What a chat leaves as it was, whatever its run does.
use onecrawler_backend.Prelude.{ℕ, ◌≡◌, refl, inl, inr, Bool-cases, Bool, String, List}
use onecrawler_backend.Exec.{Exec}
use onecrawler_backend.Exec.Preserves.{Preserves, preserves_rules}
use onecrawler_backend.Models.{Uuid, CrawlJob}
use onecrawler_backend.Backend.{Backend}
use onecrawler_backend.Crawls.{submit, set_cancelled, remove_job}
use onecrawler_backend.Crawls.Serving.{
  RowsHaveJobs, submit_keeps, set_cancelled_keeps, remove_job_keeps,
}
use onecrawler_backend.Agent.Cache.{Agent}
use onecrawler_backend.Agent.Setup.Resolving.{ChatRequest, resolve_agent_settings}
use onecrawler_backend.Agent.Conversations.{Message}
use onecrawler_backend.Agent.Tools.{Outside, AgentDeps}
use onecrawler_backend.Agent.Tools.Toolbox.{run_tool, call}
use onecrawler_backend.Agent.Tools.Kept.{run_tool_keeps}
use onecrawler_backend.Agent.Run.{
  Run, finished, failed, text, other, tool, Finish, ended, broken, arun,
}
use onecrawler_backend.Agent.Chat.{
  Service, Turn, Prepared, on_backend, obtain, prepare, record_reply, answer, run_agent, deps_of,
  chat,
}

-- a property of the database, as one of the service
abbrev pub OnBackend : (Backend → Type 0) → Service → Type 0
OnBackend P s = P s.backend

on_backend_keeps :
    {A : Type 0} {P : Backend → Type 0} (m : Exec Backend A)
    → Preserves P m
    → Preserves (OnBackend P) (on_backend m)
on_backend_keeps m k = record { holds = λ s h. k.holds s.backend h }

module _ (P : Backend → Type 0) where
  obtain_keeps : (tracing : Bool) (key : _) → Preserves (OnBackend P) (obtain tracing key)
  unfolding obtain
  obtain_keeps tracing key = record { holds = λ s h. h }

  resolve_agent_settings_keeps :
      (payload : ChatRequest) (user : Uuid) → Preserves P (resolve_agent_settings payload user)
  unfolding resolve_agent_settings
  resolve_agent_settings_keeps payload user = search preserves_rules

  pub prepare_keeps :
      (payload : ChatRequest) (user : Uuid) (tracing : Bool)
      → Preserves (OnBackend P) (prepare payload user tracing)
  unfolding prepare
  prepare_keeps payload user tracing =
      search (preserves_rules, obtain_keeps, on_backend_keeps, resolve_agent_settings_keeps)

module _ {Token : Type 0} (outside : Outside Token) {P : Backend → Type 0}
    (on_submit : (job : CrawlJob) → Preserves P (submit job))
    (on_cancel : (now : ℕ) (job : CrawlJob) → Preserves P (set_cancelled now job))
    (on_remove : (job : CrawlJob) → Preserves P (remove_job job)) where
  arun_keeps :
      (deps : AgentDeps Token) (run : Run) (s : Backend) → P s → P (arun outside deps run s).1
  unfolding arun call
  arun_keeps deps (finished state) s h = h
  arun_keeps deps (failed reason) s h = h
  arun_keeps deps (text delta run) s h = arun_keeps deps run s h
  arun_keeps deps (other run) s h = arun_keeps deps run s h
  arun_keeps deps (tool c draw run) s h =
      let did = run_tool outside deps c draw s in
      arun_keeps deps (run did.0) did.1
        ((run_tool_keeps outside deps on_submit on_cancel on_remove c draw).holds s h)

  pub run_agent_keeps :
      (harness : Agent → List Message → Run) (auth_token : Token) (p : Prepared)
      → Preserves (OnBackend P) (run_agent outside harness auth_token p)
  unfolding run_agent
  run_agent_keeps harness auth_token p = record {
    holds = λ s h.
        arun_keeps (deps_of outside harness auth_token p) (harness p.agent p.messages) s.backend h;
  }

  module _ (payload : ChatRequest) (user : Uuid) (turn : Turn)
      (on_record : (reply : String) (s : Backend)
        → P s
        → P (record_reply payload user turn reply s)) where
    answer_keeps : (finish : Finish) → Preserves (OnBackend P) (answer payload user turn finish)
    unfolding answer
    answer_keeps (broken reason) = record { holds = λ s h. h }
    answer_keeps (ended state) = record {
      holds = λ s h. elim (Bool-cases state.answered) [
        | inl e ↦ rw e (on_record state.output s.backend h)
        | inr e ↦ rw e h
      ];
    }

    pub chat_keeps :
        (harness : Agent → List Message → Run) (auth_token : Token) (tracing : Bool)
        → Preserves (OnBackend P) (chat outside harness payload user auth_token tracing turn)
    unfolding chat
    chat_keeps harness auth_token tracing =
        search (preserves_rules, prepare_keeps, run_agent_keeps harness, answer_keeps)

-- the tables that belong to the user's account and settings
abbrev pub SameAccounts : Backend → Backend → Type 0
SameAccounts s t =
    (t.users ≡ s.users)
    × (t.refresh_sessions ≡ s.refresh_sessions)
    × (t.blocklist ≡ s.blocklist)
    × (t.templates ≡ s.templates)
    × (t.provider_api_keys ≡ s.provider_api_keys)
    × (t.agent_settings ≡ s.agent_settings)

-- Whatever tools the agent calls, if each id that it gives to a tool is a UUID, a chat keeps the rows
-- of jobs rows of jobs that exist, and it changes no user, session, template, provider key or agent
-- setting and blocks no token.
pub chat_is_confined :
    {Token : Type 0} (outside : Outside Token) (harness : Agent → List Message → Run)
    (payload : ChatRequest) (user : Uuid) (auth_token : Token) (tracing : Bool) (turn : Turn)
    (s : Service)
    → RowsHaveJobs s.backend
    → let after = (chat outside harness payload user auth_token tracing turn s).1 in
      RowsHaveJobs after.backend × SameAccounts s.backend after.backend
unfolding record_reply submit set_cancelled remove_job
chat_is_confined outside harness payload user auth_token tracing turn s h = (
  (chat_keeps outside submit_keeps set_cancelled_keeps remove_job_keeps payload user turn
        (λ reply t k. k) harness auth_token tracing).holds
      s h,
  (chat_keeps outside {P = SameAccounts s.backend} (λ job. record { holds = λ t k. k })
        (λ now job. record { holds = λ t k. k }) (λ job. record { holds = λ t k. k }) payload user
        turn (λ reply t k. k) harness auth_token tracing).holds
      s (refl, refl, refl, refl, refl, refl),
)
