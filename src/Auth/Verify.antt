-- ===== src/Auth/Verify.antt =====
-- api/security/router.py
use onecrawler_backend.Prelude.{ℕ, String}
use onecrawler_backend.Exec.{Exec, pure, ◌>>=◌}
use onecrawler_backend.Models.{Uuid}
use onecrawler_backend.Backend.{Backend}
use onecrawler_backend.Auth.{Config, Jwt, get_current_user}

pub record CurrentUserOut : Type 0 where
  pub id : Uuid
  pub name : String
  pub email : String
  pub user_type : String

module _ {Token : Type 0} (config : Config) (jwt : Jwt Token) where
  unfoldable pub verify_token : ℕ → Token → Exec Backend CurrentUserOut
  unfolding get_current_user ◌>>=◌
  verify_token now token = do
    user ← get_current_user config jwt now token
    pure (record { id = user.id; name = user.name; email = user.email; user_type = user.user_type })
