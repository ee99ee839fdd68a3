-- ===== src/Users/Login.antt =====
-- api/users/login/router.py
use onecrawler_backend.Prelude.{ℕ, ◌*◌, String, not}
use onecrawler_backend.Exec.{Exec, pure, gets, or_raise, raise_if, modify, ◌>>=◌, ◌>>◌}
use onecrawler_backend.Models.{Uuid, Users}
use onecrawler_backend.Backend.{Backend}
use onecrawler_backend.Auth.{
  Config, Jwt, PasswordHasher, verify_password, create_access_token, create_refresh_token,
}
use onecrawler_backend.Auth.Sessions.{record_refresh_session}
use onecrawler_backend.Users.Register.{user_by_email}

pub record LoginRequest : Type 0 where
  pub email : String
  pub password : String

pub record TokenOut (Token : Type 0) : Type 0 where
  pub access_token : Token
  pub refresh_token : Token
  pub expires_in : ℕ

module _ {Token : Type 0} (config : Config) (jwt : Jwt Token) where
  -- The two tokens and the session row that `login` and `refresh` end with.
  abbrev pub issue_tokens : Users → Uuid → Uuid → ℕ → ℕ → ℕ → Exec Backend (TokenOut Token)
  issue_tokens user access_jti refresh_jti access_time refresh_time record_time = do
    let token =
        create_access_token config jwt user.id user.email user.user_type user.name access_jti
          access_time
    let fresh = create_refresh_token config jwt user.id refresh_jti refresh_time
    modify (record_refresh_session user.id refresh_jti fresh.1 record_time)
    pure (record {
      access_token = token;
      refresh_token = fresh.0;
      expires_in = config.access_token_expire_minutes * 60;
    })

  unfoldable pub login :
      PasswordHasher → LoginRequest → Uuid → Uuid → (ℕ → ℕ) → Exec Backend (TokenOut Token)
  unfolding verify_password ◌>>=◌
  login hasher payload access_jti refresh_jti t = do
    user ← or_raise (← gets (user_by_email payload.email)) 401 "Invalid email or password"
    raise_if (not (verify_password hasher payload.password user.hashed_password)) 401
        "Invalid email or password"
    raise_if (not user.is_active) 403 "Account is disabled"
    issue_tokens user access_jti refresh_jti (t 0) (t 1) (t 2)
