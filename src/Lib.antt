-- ===== src/Lib.antt =====
-- OneCrawler's backend: the HTTP API that accounts and crawl jobs go through, the worker that runs
-- the jobs, and the assistant that drives the API.
--
-- The program has two processes. The API (main.py and src/api) checks tokens, writes rows and puts
-- job ids on a queue. The worker (src/worker) takes an id, runs the crawling engine, and writes
-- what it finds. They share the database (src/db/models.py) and Redis, and nothing else: a user
-- cancels a job by writing its status, which the worker reads again for every page. The assistant
-- (src/agent, src/api/v1/agent) runs within the API: a chat hands a transcript to an agent of
-- deepharness, whose tools are requests to the API with the user's own token.
--
-- Which file models which part:
--   Prelude, Exec, Tables   numbers, texts and lists; a handler as a function of the state that
--                           returns or raises `HTTPException`; the SQL statements on lists of rows
--   Models, Backend         src/db/models.py and the request bodies of
--                           src/api/v1/crawler/schema.py; all that the two processes share
--   Auth                    src/core/security.py, src/core/sessions.py,
--                           src/api/security/dependencies.py and router.py
--   Users                   the routers of src/api/users, and the administrator of main.py
--   Crawls                  src/api/v1/crawler/router.py; Crawls/Bodies the defaults and
--                           the validator, Crawls/Responses the responses, of
--                           src/api/v1/crawler/schema.py
--   Data                    src/api/v1/data/router.py and schema.py
--   Configuration           src/api/v1/settings/router.py and src/api/v1/dashboard/router.py
--   Worker                  src/worker/tasks.py and src/worker/settings_builder.py
--   Agent                   src/agent (Llm, Cache, Tools, Tracing) and src/api/v1/agent (Setup,
--                           Conversations, Chat); Agent/Run what a run of the harness is;
--                           Agent/Tools/Routing the paths of src/agent/core/client.py and the
--                           routes of src/api/v1
--   Startup                 src/core/pool.py, the lifespan of main.py and the database's address in
--                           src/core/config.py
--   Migrations              alembic/env.py (Chain) and alembic/versions (Versions): Schema what a
--                           database holds, Operations and Running what the calls of `op` do to
--                           it, Frame what they leave alone, Metadata the schema that
--                           src/db/models.py declares
--   Examples                the theorems at concrete inputs
--
-- A handler has the name of the function that it translates. It is given what the function draws
-- from outside: the id of the user that `get_current_user` returned, the ids of `uuid4`, and the
-- clock, in milliseconds, as one number or as the sequence of its readings. A response is the row
-- or the record that it is made from. A table is the list of its rows in order of insertion; rows
-- with equal sort keys come in that order, which is one of those that the database may choose: the
-- statements have no tie-breaker, and nothing makes two queries choose alike.
-- A unique constraint is a test before the write.
--
-- The worker's session keeps its own copy of the job's row, as SQLAlchemy does without expiry on
-- commit, and a commit writes the columns that were assigned. What the API does in the meantime is
-- an explicit list of requests at each point where the worker waits: before the first commit,
-- before each page, and before the last commit. A deletion of the job under way is not among them.
-- The engine is a parameter: it raises, returns a list, or is a stream of pages that ends or
-- raises. A stream is finite, so every loop is structural recursion, and there is no fuel. What the
-- engine raises is an `Exception`: a job that arq stops at its `job_timeout` is left by
-- `CancelledError`, which the worker does not handle, and is not modelled.
--
-- Parameters that stand for other packages: PyJWT (a token decodes to the claims that it was made
-- from while it is valid, to nothing once it has expired, and always to the same claims), argon2 (a
-- password verifies against its own hash), `unquote`, `ILIKE`, the collation of the database, and
-- the checks of the engine's constructors. Floats are passed on as the text of their literals.
--
-- A run of deepharness is a parameter too: the tree of what it does with a transcript, with a
-- branch for each result of a tool. It is finite, calls its tools one after another, and is the
-- same for `arun` and `astream_events`; a stream is read to its end. A tool's request is answered by
-- the handler's own model, and is never lost. The ids that it gives to its tools are UUIDs, numbers
-- here: the source puts any text into the path of the request, which then can lead elsewhere
-- (Agent/Tools/Routed). The calendar, `urlparse`, `strptime` and the web
-- search are parameters without assumptions.
--
-- A handler is one step of the state, but for a refresh, which Users/Race splits where it stops
-- reading and starts writing: two requests take turns there, in the order that a list gives.
--
-- A migration is the list of its calls of `op`, run on tables with columns, constraints, indexes
-- and rows. The calls have the documented behaviour of the PostgreSQL statements that Alembic
-- issues for them, as far as the migrations depend on it: a name that is taken or missing, rows
-- that break a new constraint, and objects that others depend on make them fail. A name that the
-- program leaves out is the one that PostgreSQL gives. The casts to jsonb, to uuid and to text are
-- parameters. The revision `none` stands for a database without `alembic_version` and for one where
-- that table is empty. Tracing is a list of marks: what a span is told, in order; the end of the span
-- of a stream that its reader leaves early is not among them.
--
-- Not modelled: the checks that pydantic makes of a body before a handler runs, but for
-- those named above and in Users/Endpoints; logging, the loading of the configuration, the
-- registration of routers, but for the routes of api/v1 in Agent/Tools/Routing, the prompt of the
-- agent, the offline mode of Alembic, and the serialization of responses: they carry no state of
-- the program. A race between two requests is modelled for the refresh alone.
pub mod Agent
pub mod Auth
pub mod Backend
pub mod Configuration
pub mod Crawls
pub mod Data
pub mod Examples
pub mod Exec
pub mod Migrations
pub mod Models
pub mod Prelude
pub mod Startup
pub mod Tables
pub mod Users
pub mod Worker
