-- ===== src/Models/Settings/Literals.antt =====
-- The `Literal[…]` types of api/v1/crawler/schema.py.
use onecrawler_backend.Prelude.{String}

pub data LinkExtractionStrategy : Type 0 where
  shallow deep : LinkExtractionStrategy

pub data ScrapingStrategy : Type 0 where
  heuristic genai markdownify : ScrapingStrategy

pub data ProxyRotationMethod : Type 0 where
  round_robin random : ProxyRotationMethod

pub data GenAiProvider : Type 0 where
  openai google ollama : GenAiProvider

pub data FilterKind : Type 0 where
  by_date by_keywords by_files by_extension by_cosine_similarity : FilterKind

pub data FilterGroupMode : Type 0 where
  and or : FilterGroupMode

pub data WaitUntil : Type 0 where
  load domcontentloaded networkidle : WaitUntil

abbrev pub provider_text : GenAiProvider → String
provider_text GenAiProvider.openai = "openai"
provider_text GenAiProvider.google = "google"
provider_text GenAiProvider.ollama = "ollama"
