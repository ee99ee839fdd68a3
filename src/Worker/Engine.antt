-- ===== src/Worker/Engine.antt =====
-- The crawling engine as the worker sees it. What it raises is an `Exception`, with its text.
use onecrawler_backend.Prelude.{ℕ, String, Option, List}
use onecrawler_backend.Models.{Uuid, Content}
use onecrawler_backend.Worker.Requests.{Request}

-- One round of a loop over pages: what the API did since the last round, and the ids and clock
-- readings that the round draws, in order.
pub record Moment : Type 0 where
  pub meanwhile : List Request
  pub id : ℕ → Uuid
  pub t : ℕ → ℕ

-- `await engine.run(…)`: it raises, or returns a list.
pub data Fetch : Type 0 where
  failed : String → Fetch
  fetched : List (Moment × String) → Fetch

-- `engine.stream(…)`: it ends, raises, or yields and goes on.
pub data Stream (A : Type 0) : Type 0 where
  finished : Stream A
  raised : String → Stream A
  yields : Moment → A → Stream A → Stream A

-- An item of `Scraper.stream`.
pub record ScrapedItem : Type 0 where
  pub result : Content
  pub url : Option String
