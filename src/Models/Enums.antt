-- ===== src/Models/Enums.antt =====
-- The enumerations of db/models.py, and the strings that they are.
use onecrawler_backend.Prelude.{String}

pub data CrawlStatus : Type 0 where
  queued running completed failed cancelled : CrawlStatus

pub data CrawlMode : Type 0 where
  sitemap link_extraction crawler scraper : CrawlMode

pub data ScrapingOutputFormat : Type 0 where
  markdown json xml xmltei : ScrapingOutputFormat

-- `str(status)` of the `StrEnum`
abbrev pub status_text : CrawlStatus → String
status_text CrawlStatus.queued = "queued"
status_text CrawlStatus.running = "running"
status_text CrawlStatus.completed = "completed"
status_text CrawlStatus.failed = "failed"
status_text CrawlStatus.cancelled = "cancelled"

abbrev pub mode_text : CrawlMode → String
mode_text CrawlMode.sitemap = "sitemap"
mode_text CrawlMode.link_extraction = "link_extraction"
mode_text CrawlMode.crawler = "crawler"
mode_text CrawlMode.scraper = "scraper"

abbrev pub format_text : ScrapingOutputFormat → String
format_text ScrapingOutputFormat.markdown = "markdown"
format_text ScrapingOutputFormat.json = "json"
format_text ScrapingOutputFormat.xml = "xml"
format_text ScrapingOutputFormat.xmltei = "xmltei"
