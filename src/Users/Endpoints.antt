-- ===== src/Users/Endpoints.antt =====
-- The bodies and the responses of api/users: the schema.py beside each router, and the routes with
-- them. A body that breaks a constraint is answered 422 before its handler runs.
use onecrawler_backend.Prelude.{
  ℕ, String, Bool, not, ◌&&◌, Option, none, some, List, leb, if◌then◌else◌, count_chars,
}
use onecrawler_backend.Exec.{Exec, pure, raise_if, or_raise, ◌>>=◌, ◌>>◌}
use onecrawler_backend.Models.{Uuid, Users}
use onecrawler_backend.Backend.{Backend}
use onecrawler_backend.Auth.{Config, Jwt, PasswordHasher, CurrentUser}
use onecrawler_backend.Users.Register.{RegisterRequest, register}
use onecrawler_backend.Users.Logout.{logout}
use onecrawler_backend.Users.Refresh.{refresh}
use onecrawler_backend.Users.Account.{ChangePasswordRequest, rename, change_password}
use onecrawler_backend.Users.SessionList.{SessionOut, list_sessions}

pub record UserOut : Type 0 where
  pub id : Uuid
  pub name : String
  pub email : String
  pub user_type : String
  pub is_active : Bool

-- `from_attributes`
abbrev pub user_out : Users → UserOut
user_out u = record {
  id = u.id;
  name = u.name;
  email = u.email;
  user_type = u.user_type;
  is_active = u.is_active;
}

pub record RefreshOut (Token : Type 0) : Type 0 where
  pub access_token : Token
  pub refresh_token : Token
  pub token_type : String
  pub expires_in : ℕ

pub record DetailOut : Type 0 where
  pub detail : String

pub record SessionListOut : Type 0 where
  pub items : List SessionOut

-- `Field(min_length=n)`
abbrev has_length : ℕ → String → Bool
has_length n s = leb n (count_chars s)

-- `EmailStr` is the parameter: the address in its normal form, if it is one.
unfoldable pub read_register :
    (String → Option String) → String → String → String → Option RegisterRequest
read_register read_email name email password = with_email (read_email email)
  where
    with_email : Option String → Option RegisterRequest
    with_email none = none
    with_email (some address) =
        if has_length 1 name && has_length 8 password
        then some (record { name = name; email = address; password = password })
        else none

unfoldable pub post_register :
    (String → Option String)
    → PasswordHasher
    → String
    → String
    → String
    → Uuid
    → Exec Backend UserOut
unfolding register read_register ◌>>=◌
post_register read_email hasher name email password new_id = do
  payload ← or_raise (read_register read_email name email password) 422 ""
  user ← register hasher payload new_id
  pure (user_out user)

unfoldable pub patch_name : Uuid → String → Exec Backend UserOut
unfolding rename ◌>>=◌
patch_name user_id name = do
  raise_if (not (has_length 1 name)) 422 ""
  user ← rename user_id name
  pure (user_out user)

unfoldable pub post_password :
    PasswordHasher → Uuid → ChangePasswordRequest → ℕ → Exec Backend DetailOut
unfolding change_password ◌>>=◌
post_password hasher user_id payload now = do
  raise_if (not (has_length 8 payload.new_password)) 422 ""
  change_password hasher user_id payload now
  pure (record { detail = "Password updated" })

module _ {Token : Type 0} (config : Config) (jwt : Jwt Token) where
  unfoldable pub post_refresh : Token → Uuid → Uuid → (ℕ → ℕ) → Exec Backend (RefreshOut Token)
  unfolding refresh ◌>>=◌
  post_refresh refresh_token access_jti refresh_jti t = do
    out ← refresh config jwt refresh_token access_jti refresh_jti t
    pure (record {
      access_token = out.access_token;
      refresh_token = out.refresh_token;
      token_type = "bearer";
      expires_in = out.expires_in;
    })

  unfoldable pub post_logout : Option Token → CurrentUser → (ℕ → ℕ) → Exec Backend DetailOut
  unfolding logout ◌>>=◌
  post_logout refresh_token user t = do
    logout config jwt refresh_token user t
    pure (record { detail = "Logged out" })

unfoldable pub get_sessions : Uuid → ℕ → Exec Backend SessionListOut
unfolding list_sessions ◌>>=◌
get_sessions user_id now = do items ← list_sessions user_id now; pure (record { items = items })
