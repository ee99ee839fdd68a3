-- ===== src/Worker/Job/Ending.antt =====
-- How `run_crawl_job` leaves the job that it was given.
use mathlib.Core.Path.{subst}
use onecrawler_backend.Prelude.{◌≡◌, sym, false, some, ==_iff, str_append}
use onecrawler_backend.Tables.Laws.{find_matches}
use onecrawler_backend.Models.{Uuid, CrawlJob}
use onecrawler_backend.Backend.{Backend}
use onecrawler_backend.Crawls.{has_id}
use onecrawler_backend.Worker.Requests.{perform_all}
use onecrawler_backend.Worker.Requests.Effect.{row}
use onecrawler_backend.Worker.Settings.{Built, build_settings}
use onecrawler_backend.Worker.Modes.{Run}
use onecrawler_backend.Worker.Modes.Sound.{Base, Sound, catch_up-Sound}
use onecrawler_backend.Worker.Job.{
  Externals, Script, run_mode, start, run_built, run_found, run_crawl_job, status_is_cancelled,
}
use onecrawler_backend.Worker.Job.Opening.{run_mode-Sound, base_of, start-Sound}
use onecrawler_backend.Worker.Job.Concluding.{
  Ended, RunEnded, set_failed-Ended, log-Ended, conclude-Ended,
}

run_built-Ended :
    {b : Base} (x : Externals) (script : Script) (made : Built) (r : Run)
    → Sound b r
    → RunEnded b (run_built x script made r)
unfolding run_built
run_built-Ended x script (Built.refused message) r h =
    log-Ended (script.closing.id 0) (script.closing.t 1) "error"
      (str_append "Invalid settings: " message) _
      (set_failed-Ended (script.closing.t 0) _ (catch_up-Sound script.closing.meanwhile r h)
        (str_append "Invalid settings: " message))
run_built-Ended x script (Built.built settings) r h =
    let (after, o) = run_mode x script settings r.job.mode r in
    conclude-Ended script.closing
      (record after { db = perform_all script.closing.meanwhile after.db }) o
      (catch_up-Sound script.closing.meanwhile after
        (run_mode-Sound x script settings r.job.mode r h))

-- The session at the end of an execution.
abbrev pub last_run : Externals → Script → CrawlJob → Backend → Run
last_run x script job db =
    let r = start script.opening job db in
    run_built x script (build_settings x.check r.db r.job.settings r.job.user_id) r

run_found-Ended :
    (x : Externals) (script : Script) (job : CrawlJob) (db : Backend)
    → row job.id db ≡ some job
    → status_is_cancelled job.status ≡ false
    → Ended
        (base_of script.opening job db)
        (last_run x script job db).job
        (run_found x script job db)
unfolding run_found
run_found-Ended x script job db at fresh = rw fresh (
    run_built-Ended x script _ (start script.opening job db) (start-Sound script.opening job db at))

pub run_crawl_job-found :
    (x : Externals) (script : Script) (id : Uuid) (db : Backend) (job : CrawlJob)
    → row id db ≡ some job
    → run_crawl_job x script id db ≡ run_found x script job db
unfolding run_crawl_job
run_crawl_job-found x script id db job at = rw (at, run_crawl_job)

pub last_run-Ended :
    (x : Externals) (script : Script) (id : Uuid) (db : Backend) (job : CrawlJob)
    → row id db ≡ some job
    → status_is_cancelled job.status ≡ false
    → Ended
        (base_of script.opening job db)
        (last_run x script job db).job
        (run_crawl_job x script id db)
last_run-Ended x script id db job at fresh =
    let same_id : job.id ≡ id = (==_iff job.id id).0 (find_matches (has_id id) db.crawl_jobs at) in
    rw (run_crawl_job-found x script id db job at)
      (run_found-Ended x script job db (subst (λ i. row i db ≡ some job) (sym same_id) at) fresh)

pub last_run-row :
    (x : Externals) (script : Script) (id : Uuid) (db : Backend) (job : CrawlJob)
    → row id db ≡ some job
    → status_is_cancelled job.status ≡ false
    → row id (run_crawl_job x script id db) ≡ some (last_run x script job db).job
last_run-row x script id db job at fresh =
    let same_id : job.id ≡ id = (==_iff job.id id).0 (find_matches (has_id id) db.crawl_jobs at) in
    subst (λ i. row i (run_crawl_job x script id db) ≡ some (last_run x script job db).job) same_id
      (last_run-Ended x script id db job at fresh).in_db

-- An execution of a job that is there and was not cancelled before it began, if it is not stopped
-- from outside and if the engine and the constructors raise nothing but an `Exception`, leaves the
-- job concluded, whether they raise or not: the row is finished with a time, a failed one has an
-- error and a completed one a page or more; of the job only the status, the error, the times and
-- the two counts have changed; the counts did not fall; as many results were counted as were added;
-- and of the urls that were counted as many or fewer are left. The meantime is any sequence of
-- requests to the crawl handlers that change a job, but for its deletion.
pub run_crawl_job_ends :
    (x : Externals) (script : Script) (id : Uuid) (db : Backend) (job : CrawlJob)
    → row id db ≡ some job
    → status_is_cancelled job.status ≡ false
    → (after : CrawlJob) × Ended
        (base_of script.opening job db)
        after
        (run_crawl_job x script id db)
run_crawl_job_ends x script id db job at fresh =
    ((last_run x script job db).job, last_run-Ended x script id db job at fresh)
