-- ===== src/Worker/Live.antt =====
-- A job that its owner can cancel, or that is cancelled, through what the API and the worker write.
use mathlib.Core.Option
use onecrawler_backend.Prelude.{
  ℕ, ◌≡◌, ◌∙◌, refl, ap, Bool, true, false, some, List, [], ◌∷◌, ◌++◌, ==_refl, Bool-cases, inl,
  inr, if◌then◌else◌,
}
use onecrawler_backend.Tables.{find, update}
use onecrawler_backend.Tables.Laws.{find-append_some, find-update_any}
use onecrawler_backend.Exec.Preserves.{Preserves}
use onecrawler_backend.Models.{Uuid, CrawlJob, CrawlStatus, DiscoveredUrl}
use onecrawler_backend.Backend.{Backend}
use onecrawler_backend.Crawls.{
  has_id, is_owned, is_active, cancelled_at, submit, set_cancelled, remove_discovered, cancel_crawl,
}
use onecrawler_backend.Crawls.Branches.{cancel_crawl-active, cancel_crawl-idle}
use onecrawler_backend.Worker.Requests.{Request, perform, perform_all}
use onecrawler_backend.Worker.Requests.Rule.{perform_keeps, perform_all_keeps}
use onecrawler_backend.Worker.Modes.{is_cancelled}

-- queued, running or cancelled
abbrev pub is_live : CrawlStatus → Bool
is_live CrawlStatus.queued = true
is_live CrawlStatus.running = true
is_live CrawlStatus.cancelled = true
is_live _ = false

-- The job with the id is the user's, and is queued, running or cancelled.
pub record IsLive (user id : Uuid) (s : Backend) : Type 0 where
  pub job : CrawlJob
  pub owned : find (is_owned user id) s.crawl_jobs ≡ some job
  pub at : find (has_id id) s.crawl_jobs ≡ some job
  pub live : is_live job.status ≡ true

-- The job with the id is cancelled.
pub record IsCancelled (id : Uuid) (s : Backend) : Type 0 where
  pub job : CrawlJob
  pub at : find (has_id id) s.crawl_jobs ≡ some job
  pub status : job.status ≡ CrawlStatus.cancelled

module _ (user id : Uuid) where
  -- an update of the jobs' rows that keeps the ids, the owners and a live status
  pub update-IsLive :
      (q : CrawlJob → Bool) (f : CrawlJob → CrawlJob) (s : Backend)
      → ((j : CrawlJob) → (f j).id ≡ j.id)
      → ((j : CrawlJob) → (f j).user_id ≡ j.user_id)
      → ((j : CrawlJob) → is_live j.status ≡ true → is_live (f j).status ≡ true)
      → IsLive user id s
      → IsLive user id (record s { crawl_jobs = update q f s.crawl_jobs })
  update-IsLive q f s same_id same_user keeps h = record {
    job = if q h.job then f h.job else h.job;
    owned =
        find-update_any (is_owned user id) q f s.crawl_jobs (λ j. rw (same_id j, same_user j))
        ∙ ap (Option.map (λ x. if q x then f x else x)) h.owned;
    at =
        find-update_any (has_id id) q f s.crawl_jobs (λ j. rw (same_id j))
        ∙ ap (Option.map (λ x. if q x then f x else x)) h.at;
    live = elim (Bool-cases (q h.job)) [ inl e ↦ rw e (keeps h.job h.live) | inr e ↦ rw e h.live ];
  }

  submit-IsLive : (job : CrawlJob) → Preserves (IsLive user id) (submit job)
  unfolding submit
  submit-IsLive job = record {
    holds = λ s h. record {
      job = h.job;
      owned = find-append_some (is_owned user id) s.crawl_jobs (job ∷ []) h.owned;
      at = find-append_some (has_id id) s.crawl_jobs (job ∷ []) h.at;
      live = h.live;
    };
  }

  set_cancelled-IsLive :
      (now : ℕ) (job : CrawlJob) → Preserves (IsLive user id) (set_cancelled now job)
  unfolding set_cancelled
  set_cancelled-IsLive now job = record {
    holds = λ s h.
        update-IsLive (has_id job.id) (cancelled_at now) s (λ j. refl) (λ j. refl) (λ j k. refl) h;
  }

  remove_discovered-IsLive :
      (row : DiscoveredUrl) → Preserves (IsLive user id) (remove_discovered row)
  unfolding remove_discovered
  remove_discovered-IsLive row = record {
    holds = λ s h. record { job = h.job; owned = h.owned; at = h.at; live = h.live };
  }

  perform-IsLive : (r : Request) (s : Backend) → IsLive user id s → IsLive user id (perform r s)
  perform-IsLive = perform_keeps submit-IsLive set_cancelled-IsLive remove_discovered-IsLive

  pub perform_all-IsLive :
      (rs : List Request) (s : Backend) → IsLive user id s → IsLive user id (perform_all rs s)
  perform_all-IsLive = perform_all_keeps submit-IsLive set_cancelled-IsLive remove_discovered-IsLive

module _ (id : Uuid) where
  pub update-IsCancelled :
      (q : CrawlJob → Bool) (f : CrawlJob → CrawlJob) (s : Backend)
      → ((j : CrawlJob) → (f j).id ≡ j.id)
      → ((j : CrawlJob) → j.status ≡ CrawlStatus.cancelled → (f j).status ≡ CrawlStatus.cancelled)
      → IsCancelled id s
      → IsCancelled id (record s { crawl_jobs = update q f s.crawl_jobs })
  update-IsCancelled q f s same_id keeps h = record {
    job = if q h.job then f h.job else h.job;
    at =
        find-update_any (has_id id) q f s.crawl_jobs (λ j. rw (same_id j))
        ∙ ap (Option.map (λ x. if q x then f x else x)) h.at;
    status = elim (Bool-cases (q h.job)) [
      | inl e ↦ rw e (keeps h.job h.status)
      | inr e ↦ rw e h.status
    ];
  }

  submit-IsCancelled : (job : CrawlJob) → Preserves (IsCancelled id) (submit job)
  unfolding submit
  submit-IsCancelled job = record {
    holds = λ s h. record {
      job = h.job;
      at = find-append_some (has_id id) s.crawl_jobs (job ∷ []) h.at;
      status = h.status;
    };
  }

  set_cancelled-IsCancelled :
      (now : ℕ) (job : CrawlJob) → Preserves (IsCancelled id) (set_cancelled now job)
  unfolding set_cancelled
  set_cancelled-IsCancelled now job = record {
    holds =
        λ s h. update-IsCancelled (has_id job.id) (cancelled_at now) s (λ j. refl) (λ j k. refl) h;
  }

  remove_discovered-IsCancelled :
      (row : DiscoveredUrl) → Preserves (IsCancelled id) (remove_discovered row)
  unfolding remove_discovered
  remove_discovered-IsCancelled row = record {
    holds = λ s h. record { job = h.job; at = h.at; status = h.status };
  }

  -- No request of the API takes a cancellation back.
  pub perform_all-IsCancelled :
      (rs : List Request) (s : Backend) → IsCancelled id s → IsCancelled id (perform_all rs s)
  perform_all-IsCancelled =
      perform_all_keeps submit-IsCancelled set_cancelled-IsCancelled remove_discovered-IsCancelled

live_idle :
    (status : CrawlStatus)
    → is_live status ≡ true
    → is_active status ≡ false
    → status ≡ CrawlStatus.cancelled
live_idle CrawlStatus.cancelled l i = refl
live_idle _ l i = cc

-- The worker reads a cancellation.
pub is_cancelled-IsCancelled :
    (id : Uuid) (s : Backend) → IsCancelled id s → is_cancelled id s ≡ true
unfolding is_cancelled
is_cancelled-IsCancelled id s h = rw (h.at, h.status)

-- A cancellation by the owner of a live job takes effect.
pub cancel_crawl-IsCancelled :
    (user id : Uuid) (now : ℕ) (s : Backend)
    → IsLive user id s
    → IsCancelled id (cancel_crawl user id now s).1
cancel_crawl-IsCancelled user id now s h = elim (Bool-cases (is_active h.job.status)) [
  | inl active ↦ rw (cancel_crawl-active user id now s h.job h.owned active) (record {
    job = cancelled_at now h.job;
    at =
        find-update_any (has_id id) (has_id h.job.id) (cancelled_at now) s.crawl_jobs (λ j. refl)
        ∙ ap (Option.map (λ x. if has_id h.job.id x then cancelled_at now x else x)) h.at
        ∙ rw (==_refl h.job.id);
    status = refl;
  })
  | inr idle ↦
      rw (cancel_crawl-idle user id now s h.job h.owned idle)
        (record { job = h.job; at = h.at; status = live_idle h.job.status h.live idle })
]

-- Requests among which the owner cancels a live job leave it cancelled.
pub perform_all-cancel :
    (user id : Uuid) (now : ℕ) (before after : List Request) (s : Backend)
    → IsLive user id s
    → IsCancelled id (perform_all (before ++ Request.cancel user id now ∷ after) s)
unfolding perform_all perform
perform_all-cancel user id now [] after s h =
    perform_all-IsCancelled id after (cancel_crawl user id now s).1
      (cancel_crawl-IsCancelled user id now s h)
perform_all-cancel user id now (r ∷ before) after s h =
    perform_all-cancel user id now before after (perform r s) (perform-IsLive user id r s h)
