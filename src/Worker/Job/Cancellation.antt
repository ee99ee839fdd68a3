-- ===== src/Worker/Job/Cancellation.antt =====
-- `cancel_crawl` against `run_crawl_job`.
use onecrawler_backend.Prelude.{
  ℕ, ◌+◌, ◌≤◌, ◌≡◌, ◌∙◌, refl, ap, inl, inr, true, false, String, Option, none, some, List, ◌∷◌,
  ◌++◌, arith, ◌==◌, Bool-cases, length, ==_iff, is_blank,
}
use onecrawler_backend.Tables.{find}
use onecrawler_backend.Tables.Laws.{find_matches}
use onecrawler_backend.Models.{
  Uuid, CrawlJob, CrawlMode, CrawlStatus, Content, ScrapingOutputFormat,
}
use onecrawler_backend.Backend.{Backend}
use onecrawler_backend.Crawls.{has_id, is_owned, is_active}
use onecrawler_backend.Worker.Requests.{Request, perform_all}
use onecrawler_backend.Worker.Requests.Effect.{row}
use onecrawler_backend.Worker.Engine.{Moment, Stream}
use onecrawler_backend.Worker.Settings.{Settings, Built, build_settings}
use onecrawler_backend.Worker.Settings.Filters.{build_filter_chain}
use onecrawler_backend.Worker.Live.{IsLive, IsCancelled, update-IsLive, perform_all-IsLive, is_live}
use onecrawler_backend.Worker.Modes.{
  Run, Outcome, returned, assign, set_counts, each, save_content, run_crawler,
}
use onecrawler_backend.Worker.Modes.Stopping.{prefixed, Steps, Stopped, each-Stopped}
use onecrawler_backend.Worker.Job.{
  Externals, Script, run_mode, conclude, settle, start, run_built, run_crawl_job, set_running,
  set_started, set_status, log_end, is_running, status_is_cancelled,
}
use onecrawler_backend.Worker.Job.Opening.{running_of}
use onecrawler_backend.Worker.Job.Ending.{last_run, last_run-row}

-- Saving a page keeps the job's id and its life, and counts one page.
save_content-Steps :
    (decode_url : String → String) (format : ScrapingOutputFormat) (target_url : String)
    → Steps (save_content decode_url format target_url)
save_content-Steps decode_url format target_url = record {
  same_id = λ m a r. refl;
  counts = λ m a r. refl;
  keeps_live = λ user id m a r h.
      let k =
        update-IsLive user id (has_id r.job.id)
          (set_counts (r.job.urls_discovered + 1) (r.job.urls_scraped + 1)) r.db (λ j. refl)
          (λ j. refl) (λ j e. e) h in
      record { job = k.job; owned = k.owned; at = k.at; live = k.live };
}

-- The job as the first commit leaves it in the session.
abbrev started : Moment → CrawlJob → CrawlJob
started m job = record job { status = CrawlStatus.running; started_at = some (m.t 0) }

module _ (m : Moment) (job : CrawlJob) (db : Backend) where
  start-job : (start m job db).job ≡ started m job
  unfolding start
  start-job = elim (Bool-cases (is_running job.status)) [
    | inl e ↦ rw e (
        ap (λ (status : CrawlStatus). record job { status = status; started_at = some (m.t 0) })
          (running_of job.status e))
    | inr e ↦ rw e
  ]

  start-run : start m job db ≡ record { job = started m job; db = (start m job db).db }
  start-run = λ i. record { job = start-job i; db = (start m job db).db }

  start-IsLive : (user id : Uuid) → IsLive user id db → IsLive user id (start m job db).db
  unfolding start
  start-IsLive user id h =
      let opened = perform_all-IsLive user id m.meanwhile db h in
      let rerun =
        update-IsLive user id (has_id job.id) (set_started (m.t 0)) (perform_all m.meanwhile db)
          (λ j. refl) (λ j. refl) (λ j e. e) opened in
      let first =
        update-IsLive user id (has_id job.id) (set_running (m.t 0)) (perform_all m.meanwhile db)
          (λ j. refl) (λ j. refl) (λ j e. refl) opened in
      elim (Bool-cases (is_running job.status)) [
        | inl e ↦
            rw e (record { job = rerun.job; owned = rerun.owned; at = rerun.at; live = rerun.live })
        | inr e ↦
            rw e (record { job = first.job; owned = first.owned; at = first.at; live = first.live })
      ]

log_end-job :
    (m : Moment) (error : Option String) (status : CrawlStatus) (r : Run)
    → (log_end m error status r).job ≡ r.job
log_end-job m none status r = refl
log_end-job m (some message) status r = elim (Bool-cases (is_blank message)) [
  | inl e ↦ rw e
  | inr e ↦ rw e
]

-- A loop that was stopped leaves the job cancelled.
conclude-cancelled :
    (m : Moment) (r : Run) (o : Outcome)
    → o ≡ returned true
    → (conclude m (r, o)).job ≡ set_status CrawlStatus.cancelled (m.t 0) r.job
unfolding conclude
conclude-cancelled m r (returned true) e =
    log_end-job m r.job.error CrawlStatus.cancelled
      (assign (set_status CrawlStatus.cancelled (m.t 0)) r)
conclude-cancelled m r _ e = cc

-- A loop that ran to its end after a page or more leaves it completed.
conclude-completed :
    (m : Moment) (r : Run)
    → 1 ≤ r.job.urls_discovered
    → (conclude m (r, returned false)).job ≡ set_status CrawlStatus.completed (m.t 0) r.job
unfolding conclude
conclude-completed m r h =
    let found : (r.job.urls_discovered == 0) ≡ false = ground arith in
    rw found (
      log_end-job m r.job.error CrawlStatus.completed
        (assign (set_status CrawlStatus.completed (m.t 0)) r))

not_cancelled :
    (status : CrawlStatus) → is_active status ≡ true → status_is_cancelled status ≡ false
not_cancelled CrawlStatus.cancelled h = cc
not_cancelled _ h = refl

active_live : (status : CrawlStatus) → is_active status ≡ true → is_live status ≡ true
active_live CrawlStatus.queued h = refl
active_live CrawlStatus.running h = refl
active_live _ h = cc

module _ (x : Externals) (script : Script) (id : Uuid) (db : Backend) (job : CrawlJob)
    (at : row id db ≡ some job) (settings : Settings)
    (made : build_settings x.check (start script.opening job db).db job.settings job.user_id
      ≡ Built.built settings) where
  -- the session when the mode begins, and how the mode ends
  abbrev first_run : Run
  first_run = record { job = started script.opening job; db = (start script.opening job db).db }

  abbrev pub mode_end : Run × Outcome
  mode_end = run_mode x script settings job.mode first_run

  last_run-conclude :
      last_run x script job db ≡ conclude script.closing (settle script.closing mode_end)
  unfolding run_built
  last_run-conclude =
      ap
        (λ (r : Run).
          run_built x script (build_settings x.check r.db r.job.settings r.job.user_id) r)
        (start-run script.opening job db)
      ∙ ap (λ (b : Built). run_built x script b first_run) made

  settled_completed :
      mode_end.1 ≡ returned false
      → 1 ≤ mode_end.0.job.urls_discovered
      → (conclude script.closing (settle script.closing mode_end)).job
        ≡ set_status CrawlStatus.completed (script.closing.t 0) mode_end.0.job
  settled_completed outcome found =
      let r = record (mode_end.0) { db = perform_all script.closing.meanwhile mode_end.0.db } in
      rw outcome (conclude-completed script.closing r found)

  -- A cancellation that reaches the database after the loop has ended, and before the last commit,
  -- is lost: the API has answered that the job is cancelled, and the job ends as completed.
  pub late_cancel_is_lost :
      status_is_cancelled job.status ≡ false
      → mode_end.1 ≡ returned false
      → 1 ≤ mode_end.0.job.urls_discovered
      → IsCancelled id (perform_all script.closing.meanwhile mode_end.0.db)
      → (after : CrawlJob) × (row id (run_crawl_job x script id db) ≡ some after)
        × (after.status ≡ CrawlStatus.completed)
  late_cancel_is_lost fresh outcome found cancelled =
      let job_end = ap (λ (r : Run). r.job) last_run-conclude ∙ settled_completed outcome found in
      (
        (last_run x script job db).job,
        last_run-row x script id db job at fresh,
        ap (λ (j : CrawlJob). j.status) job_end,
      )

  stopped :
      (user : Uuid) (now : ℕ) (earlier later : List Request) (m : Moment)
      (before : List (Moment × Content)) (page : Content) (rest : Stream Content)
      → find (is_owned user id) db.crawl_jobs ≡ some job
      → is_active job.status ≡ true
      → m.meanwhile ≡ earlier ++ Request.cancel user id now ∷ later
      → Stopped (length before) first_run (
          each
            (save_content x.decode_url settings.scraping_output_format job.target_url)
            (prefixed before (Stream.yields m page rest))
            first_run)
  stopped user now earlier later m before page rest owner active cancel =
      each-Stopped (save_content-Steps x.decode_url settings.scraping_output_format job.target_url)
        user id now earlier later m before page rest first_run cancel
        ((==_iff job.id id).0 (find_matches (has_id id) db.crawl_jobs at))
        (start-IsLive script.opening job db user id
          (record { job = job; owned = owner; at = at; live = active_live job.status active }))

  settled_cancelled :
      mode_end.1 ≡ returned true
      → (conclude script.closing (settle script.closing mode_end)).job
        ≡ set_status CrawlStatus.cancelled (script.closing.t 0) mode_end.0.job
  settled_cancelled outcome =
      conclude-cancelled script.closing
        (record (mode_end.0) { db = perform_all script.closing.meanwhile mode_end.0.db }) mode_end.1
        outcome

  crawled :
      (m : Moment) (before : List (Moment × Content)) (page : Content) (rest : Stream Content)
      → job.mode ≡ CrawlMode.crawler
      → x.crawl settings (build_filter_chain x.nonzero job.filters) job.target_url
        ≡ prefixed before (Stream.yields m page rest)
      → mode_end
        ≡ each
            (save_content x.decode_url settings.scraping_output_format job.target_url)
            (prefixed before (Stream.yields m page rest))
            first_run
  unfolding run_mode run_crawler
  crawled m before page rest mode stream =
      ap (λ (mode : CrawlMode). run_mode x script settings mode first_run) mode
      ∙ ap
          (λ (s : Stream Content).
            each (save_content x.decode_url settings.scraping_output_format job.target_url) s
              first_run)
          stream

  -- A crawl that its owner cancels while pages still come ends as cancelled, and counts no page
  -- beyond those that came before the cancellation.
  pub cancel_is_honoured :
      (user : Uuid) (now : ℕ) (earlier later : List Request) (m : Moment)
      (before : List (Moment × Content)) (page : Content) (rest : Stream Content)
      → find (is_owned user id) db.crawl_jobs ≡ some job
      → is_active job.status ≡ true
      → job.mode ≡ CrawlMode.crawler
      → x.crawl settings (build_filter_chain x.nonzero job.filters) job.target_url
        ≡ prefixed before (Stream.yields m page rest)
      → m.meanwhile ≡ earlier ++ Request.cancel user id now ∷ later
      → (after : CrawlJob) × (row id (run_crawl_job x script id db) ≡ some after)
        × (after.status ≡ CrawlStatus.cancelled)
        × (after.urls_discovered ≤ job.urls_discovered + length before)
  cancel_is_honoured user now earlier later m before page rest owner active mode stream cancel =
      let fresh = not_cancelled job.status active in
      let ended = crawled m before page rest mode stream in
      let stop = stopped user now earlier later m before page rest owner active cancel in
      let job_end =
        ap (λ (r : Run). r.job) last_run-conclude
        ∙ settled_cancelled (ap (λ (o : Run × Outcome). o.1) ended ∙ stop.outcome)
        ∙ ap (λ (o : Run × Outcome). set_status CrawlStatus.cancelled (script.closing.t 0) o.0.job)
            ended in
      (
        (last_run x script job db).job,
        last_run-row x script id db job at fresh,
        ap (λ (j : CrawlJob). j.status) job_end,
        rw (ap (λ (j : CrawlJob). j.urls_discovered) job_end) stop.pages,
      )
