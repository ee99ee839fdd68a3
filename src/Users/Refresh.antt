-- ===== src/Users/Refresh.antt =====
-- api/users/refresh/router.py
use onecrawler_backend.Prelude.{ℕ, not, ◌||◌, str_eq, ltb, is_some}
use onecrawler_backend.Tables.{find}
use onecrawler_backend.Exec.{Exec, gets, or_raise, raise_if, modify, ◌>>=◌, ◌>>◌}
use onecrawler_backend.Models.{Uuid}
use onecrawler_backend.Backend.{Backend}
use onecrawler_backend.Auth.{Config, Jwt, decode_access_token, user_by_id}
use onecrawler_backend.Auth.Sessions.{has_jti, revoke_refresh_session}
use onecrawler_backend.Users.Login.{TokenOut, issue_tokens}

module _ {Token : Type 0} (config : Config) (jwt : Jwt Token) where
  unfoldable pub refresh : Token → Uuid → Uuid → (ℕ → ℕ) → Exec Backend (TokenOut Token)
  unfolding ◌>>=◌
  refresh token access_jti refresh_jti t = do
    claims ←
        or_raise (decode_access_token config jwt (t 0) token) 401 "Invalid or expired refresh token"
    raise_if (not (str_eq claims.kind "refresh")) 401 "Invalid or expired refresh token"
    session ←
        or_raise (← gets (λ s. find (has_jti claims.jti) s.refresh_sessions)) 401
          "Invalid or expired refresh token"
    raise_if (is_some session.revoked_at || ltb session.expires_at (t 1)) 401
        "Invalid or expired refresh token"
    user ← or_raise (← gets (user_by_id claims.sub)) 401 "Invalid or expired refresh token"
    raise_if (not user.is_active) 401 "Invalid or expired refresh token"
    modify (revoke_refresh_session session.jti (t 2))
    issue_tokens config jwt user access_jti refresh_jti (t 3) (t 4) (t 5)
