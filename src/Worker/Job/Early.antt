-- ===== src/Worker/Job/Early.antt =====
-- A cancellation in the window of `run_crawl_job` between its read of the job and its first commit.
use mathlib.Core.Option
use onecrawler_backend.Prelude.{ℕ, ◌≡◌, ◌∙◌, refl, ap, false, some, List, ◌∷◌, ◌++◌}
use onecrawler_backend.Tables.Laws.{find-update}
use onecrawler_backend.Models.{Uuid, CrawlJob, CrawlStatus}
use onecrawler_backend.Backend.{Backend}
use onecrawler_backend.Crawls.{has_id}
use onecrawler_backend.Worker.Requests.{Request, perform_all}
use onecrawler_backend.Worker.Requests.Effect.{row}
use onecrawler_backend.Worker.Engine.{Moment}
use onecrawler_backend.Worker.Live.{IsLive, IsCancelled, perform_all-cancel}
use onecrawler_backend.Worker.Job.{start, is_running, set_running}

-- A worker that has read a job as not running takes back a cancellation that the job's owner makes
-- before the worker's first commit: the row was cancelled, and is running after that commit.
pub early_cancel_is_lost :
    (m : Moment) (user : Uuid) (now : ℕ) (before after : List Request) (job : CrawlJob)
    (db : Backend)
    → IsLive user job.id db
    → is_running job.status ≡ false
    → m.meanwhile ≡ before ++ Request.cancel user job.id now ∷ after
    → IsCancelled job.id (perform_all m.meanwhile db)
      × (later : CrawlJob) × (row job.id (start m job db).db ≡ some later)
      × (later.status ≡ CrawlStatus.running)
unfolding start
early_cancel_is_lost m user now before after job db live queued window =
    let cancelled : IsCancelled job.id (perform_all m.meanwhile db) =
      rw window (perform_all-cancel user job.id now before after db live) in
    (
      cancelled,
      set_running (m.t 0) cancelled.job,
      rw queued (
          find-update (has_id job.id) (set_running (m.t 0)) (perform_all m.meanwhile db).crawl_jobs
            (λ j h. h)
          ∙ ap (Option.map (set_running (m.t 0))) cancelled.at),
      refl,
    )
