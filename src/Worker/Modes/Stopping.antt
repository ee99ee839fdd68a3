-- ===== src/Worker/Modes/Stopping.antt =====
-- A loop of worker/tasks.py under a cancellation.
use onecrawler_backend.Prelude.{
  ℕ, ◌+◌, ◌≤◌, ◌≡◌, refl, true, List, [], ◌∷◌, ◌++◌, arith, ◌∙◌, Bool-cases, inl, inr, length,
}
use onecrawler_backend.Models.{Uuid}
use onecrawler_backend.Worker.Requests.{Request, perform_all}
use onecrawler_backend.Worker.Engine.{Moment, Stream}
use onecrawler_backend.Worker.Live.{
  IsLive, perform_all-IsLive, perform_all-cancel, is_cancelled-IsCancelled,
}
use onecrawler_backend.Worker.Modes.{Run, Outcome, returned, catch_up, each, is_cancelled}

-- the rounds of `before`, and then the stream
abbrev pub prefixed : {A : Type 0} → List (Moment × A) → Stream A → Stream A
prefixed [] stream = stream
prefixed ((m, a) ∷ before) stream = Stream.yields m a (prefixed before stream)

-- What a step that saves a page keeps: the id, a live job, and how far the count may grow.
pub record Steps {A : Type 0} (save : Moment → A → Run → Run) : Type 0 where
  pub same_id : (m : Moment) (a : A) (r : Run) → (save m a r).job.id ≡ r.job.id
  pub counts :
      (m : Moment) (a : A) (r : Run) → (save m a r).job.urls_discovered ≡ r.job.urls_discovered + 1
  pub keeps_live :
      (user id : Uuid) (m : Moment) (a : A) (r : Run)
      → IsLive user id r.db
      → IsLive user id (save m a r).db

-- The outcome of a loop that was stopped, after at most `n` pages more.
pub record Stopped (n : ℕ) (r : Run) (e : Run × Outcome) : Type 0 where
  pub outcome : e.1 ≡ returned true
  pub pages : e.0.job.urls_discovered ≤ r.job.urls_discovered + n

module _ {A : Type 0} {save : Moment → A → Run → Run} (steps : Steps save) where
  -- The owner's cancellation in the round after `before` stops the loop there: whatever came
  -- before, no page of that round or a later one is saved.
  pub each-Stopped :
      (user id : Uuid) (now : ℕ) (earlier later : List Request) (m : Moment)
      (before : List (Moment × A)) (a : A) (rest : Stream A) (r : Run)
      → m.meanwhile ≡ earlier ++ Request.cancel user id now ∷ later
      → r.job.id ≡ id
      → IsLive user id r.db
      → Stopped (length before) r (each save (prefixed before (Stream.yields m a rest)) r)
  unfolding each
  each-Stopped user id now earlier later m [] a rest r e same h =
      let seen : is_cancelled r.job.id (perform_all m.meanwhile r.db) ≡ true =
        rw (same, e)
          (is_cancelled-IsCancelled id _ (perform_all-cancel user id now earlier later r.db h)) in
      rw seen (record { outcome = refl; pages = omega arith })
  each-Stopped user id now earlier later m ((m', b) ∷ before) a rest r e same h =
      let next = save m' b (catch_up m' r) in
      let ih =
        each-Stopped user id now earlier later m before a rest next e
          (steps.same_id m' b (catch_up m' r) ∙ same)
          (steps.keeps_live user id m' b (catch_up m' r)
            (perform_all-IsLive user id m'.meanwhile r.db h)) in
      elim (Bool-cases (is_cancelled r.job.id (catch_up m' r).db)) [
        | inl seen ↦ rw seen (record { outcome = refl; pages = omega arith })
        | inr unseen ↦ rw unseen (record {
          outcome = ih.outcome;
          pages = omega (arith, ih.pages, steps.counts m' b (catch_up m' r));
        })
      ]
