-- ===== src/Startup.antt =====
-- The life of the API's process: `lifespan` of main.py, core/pool.py and the address of the
-- database in core/config.py.
use onecrawler_backend.Prelude.{ℕ, suc, Option, none, some, String, str_append}
use onecrawler_backend.Models.{Uuid}
use onecrawler_backend.Backend.{Backend}
use onecrawler_backend.Auth.{PasswordHasher}
use onecrawler_backend.Users.Register.{AdminConfig, seed_admin}

-- the `POSTGRES_*` settings, the port as the text of its digits
pub record PostgresConfig : Type 0 where
  pub user : String
  pub password : String
  pub db : String
  pub host : String
  pub port : String

infixr 6 ◌then◌
abbrev ◌then◌ : String → String → String
s then t = str_append s t

unfoldable pub postgres_url : PostgresConfig → String
postgres_url c =
    "postgresql+asyncpg://" then c.user then ":" then c.password then "@" then c.host then ":"
    then c.port then "/" then c.db

-- `_pool`, how many pools were made, and how many were closed
pub record Pools : Type 0 where
  pub pool : Option ℕ
  pub made : ℕ
  pub closed : ℕ

pub record Process : Type 0 where
  pub backend : Backend
  pub pools : Pools

-- A pool is the number of its making.
unfoldable pub get_arq_pool : Pools → ℕ × Pools
get_arq_pool p = kept p.pool
  where
    kept : Option ℕ → ℕ × Pools
    kept (some pool) = (pool, p)
    kept none = (p.made, record p { pool = some p.made; made = suc p.made })

unfoldable pub close_arq_pool : Pools → Pools
close_arq_pool p = dropped p.pool
  where
    dropped : Option ℕ → Pools
    dropped (some pool) = record p { pool = none; closed = suc p.closed }
    dropped none = p

-- `lifespan` around what the process serves
unfoldable pub lifespan :
    PasswordHasher → AdminConfig → Uuid → (Process → Process) → Process → Process
unfolding seed_admin get_arq_pool close_arq_pool
lifespan hasher config new_id serve p =
    let seeded : Process = record p { backend = seed_admin hasher config new_id p.backend } in
    let started : Process = record seeded { pools = (get_arq_pool seeded.pools).1 } in
    let served = serve started in record served { pools = close_arq_pool served.pools }
