-- ===== src/Users/Logout.antt =====
-- api/users/logout/router.py
use onecrawler_backend.Prelude.{
  ℕ, ◌+◌, ◌*◌, ◌/◌, ◌-◌, max, ◌&&◌, Option, none, some, ◌∷◌, ◌==◌, if◌then◌else◌, str_eq,
}
use onecrawler_backend.Tables.{delete}
use onecrawler_backend.Exec.{Exec, modify, ◌>>=◌, ◌>>◌}
use onecrawler_backend.Models.{Uuid}
use onecrawler_backend.Backend.{Backend}
use onecrawler_backend.Auth.{Config, Jwt, Claims, CurrentUser, decode_access_token}
use onecrawler_backend.Auth.Sessions.{revoke_refresh_session}

-- `redis.setex(f"blocklist:{jti}", ttl, "1")`
unfoldable pub block : Uuid → ℕ → ℕ → Backend → Backend
block jti ttl now s = record s {
  blocklist = (jti, now + ttl * 1000) ∷ delete (λ (e : Uuid × ℕ). e.0 == jti) s.blocklist;
}

-- `ttl = max(current_user.exp - int(time.time()), 1)`
abbrev pub block_ttl : CurrentUser → ℕ → ℕ
block_ttl user now = max (user.exp - now / 1000) 1

-- `is_own_refresh_token`, and what it guards
abbrev pub revoke_own : CurrentUser → ℕ → Option Claims → Backend → Backend
revoke_own user now none s = s
revoke_own user now (some claims) s =
    if str_eq claims.kind "refresh" && claims.sub == user.id
    then revoke_refresh_session claims.jti now s
    else s

module _ {Token : Type 0} (config : Config) (jwt : Jwt Token) where
  -- `if payload and payload.refresh_token`
  abbrev pub revoke_given : CurrentUser → ℕ → ℕ → Option Token → Backend → Backend
  revoke_given user decode_time revoke_time none s = s
  revoke_given user decode_time revoke_time (some token) s =
      revoke_own user revoke_time (decode_access_token config jwt decode_time token) s

  unfoldable pub logout : Option Token → CurrentUser → (ℕ → ℕ) → Exec Backend (Unit {0})
  unfolding block revoke_refresh_session ◌>>=◌
  logout refresh_token user t = do
    modify (block user.jti (block_ttl user (t 0)) (t 1))
    modify (revoke_given user (t 2) (t 3) refresh_token)
