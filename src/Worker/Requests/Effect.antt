-- ===== src/Worker/Requests/Effect.antt =====
-- What the API's writes leave of a job's row.
use mathlib.Core.Option
use onecrawler_backend.Prelude.{
  ℕ, ◌≡◌, ◌⊎◌, inl, inr, refl, Option, some, List, [], ◌∷◌, arith, ◌==◌, Bool-cases, if◌then◌else◌,
}
use onecrawler_backend.Tables.{find, update, insert}
use onecrawler_backend.Tables.Laws.{find-append_some}
use onecrawler_backend.Exec.Preserves.{Preserves}
use onecrawler_backend.Models.{Uuid, CrawlJob, DiscoveredUrl}
use onecrawler_backend.Backend.{Backend}
use onecrawler_backend.Crawls.{has_id, cancelled_at, submit, set_cancelled, remove_discovered}
use onecrawler_backend.Worker.Requests.Rule.{perform_all_keeps}
use onecrawler_backend.Worker.Requests.{Request, perform_all}

-- the row of a job
abbrev pub row : Uuid → Backend → Option CrawlJob
row id s = find (has_id id) s.crawl_jobs

-- What may have become of a row.
abbrev pub MayCancel : CrawlJob → Option CrawlJob → Type 0
MayCancel job after = (after ≡ some job) ⊎ ((now : ℕ) × (after ≡ some (cancelled_at now job)))

row-update :
    (id other : Uuid) (f : CrawlJob → CrawlJob) (jobs : List CrawlJob)
    → ((j : CrawlJob) → (f j).id ≡ j.id)
    → find (has_id id) (update (has_id other) f jobs)
      ≡ (if other == id then Option.map f (find (has_id id) jobs) else find (has_id id) jobs)
row-update id other f [] same = ground arith
row-update id other f (j ∷ jobs) same = ground (arith, same j, row-update id other f jobs same)

-- `s` has the row of the job, cancelled or not.
pub record HasRow (id : Uuid) (job : CrawlJob) (s : Backend) : Type 0 where
  pub at : MayCancel job (row id s)

module _ (id : Uuid) (job : CrawlJob) where
  insert-MayCancel :
      (new : CrawlJob) (jobs : List CrawlJob)
      → MayCancel job (find (has_id id) jobs)
      → MayCancel job (find (has_id id) (insert new jobs))
  insert-MayCancel new jobs (inl e) = inl (find-append_some (has_id id) jobs (new ∷ []) e)
  insert-MayCancel new jobs (inr (now, e)) =
      inr (now, find-append_some (has_id id) jobs (new ∷ []) e)

  cancel-MayCancel :
      (other : Uuid) (now : ℕ) (jobs : List CrawlJob)
      → MayCancel job (find (has_id id) jobs)
      → MayCancel job (find (has_id id) (update (has_id other) (cancelled_at now) jobs))
  cancel-MayCancel other now jobs h = elim (Bool-cases (other == id)) [
    | inl e ↦ inr (now, ground (arith, row-update id other (cancelled_at now) jobs (λ j. refl)))
    | inr e ↦ rw (row-update id other (cancelled_at now) jobs (λ j. refl), e) h
  ]

  submit-HasRow : (new : CrawlJob) → Preserves (HasRow id job) (submit new)
  unfolding submit
  submit-HasRow new = record {
    holds = λ s h. record { at = insert-MayCancel new s.crawl_jobs h.at };
  }

  set_cancelled-HasRow :
      (now : ℕ) (found : CrawlJob) → Preserves (HasRow id job) (set_cancelled now found)
  unfolding set_cancelled
  set_cancelled-HasRow now found = record {
    holds = λ s h. record { at = cancel-MayCancel found.id now s.crawl_jobs h.at };
  }

  remove_discovered-HasRow :
      (found : DiscoveredUrl) → Preserves (HasRow id job) (remove_discovered found)
  unfolding remove_discovered
  remove_discovered-HasRow found = record { holds = λ s h. record { at = h.at } }

  -- Whatever the API does while the worker runs, the job's row stays, cancelled or not.
  pub perform_all-HasRow :
      (rs : List Request) (s : Backend) → HasRow id job s → HasRow id job (perform_all rs s)
  perform_all-HasRow = perform_all_keeps submit-HasRow set_cancelled-HasRow remove_discovered-HasRow
