-- ===== src/Models/Pages.antt =====
-- What the crawling engine yields for a page, and what the JSON column of a result keeps of it.
use onecrawler_backend.Prelude.{String, Option}

-- A `dict`: the entries that the worker reads, and the text that `json.dumps` gives of it.
pub record Extraction : Type 0 where
  pub url : Option String
  pub title : Option String
  pub text : Option String
  pub raw_text : Option String
  pub dump : String

-- A page's content is a `dict`, or anything else, of which the worker takes `str(content)`.
pub data Content : Type 0 where
  mapping : Extraction → Content
  printed : String → Content

-- The `dict` itself, or `{"text": text}`.
pub data Payload : Type 0 where
  extracted : Extraction → Payload
  text_only : String → Payload
