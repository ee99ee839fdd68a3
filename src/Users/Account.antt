-- ===== src/Users/Account.antt =====
-- api/users/account/router.py, but for `get_usage`.
use onecrawler_backend.Prelude.{ℕ, String, Bool, false, not, Option, none, some, ◌==◌}
use onecrawler_backend.Tables.{update}
use onecrawler_backend.Exec.{Exec, pure, gets, or_raise, raise_if, modify, ◌>>=◌, ◌>>◌}
use onecrawler_backend.Models.{Uuid, Users}
use onecrawler_backend.Backend.{Backend}
use onecrawler_backend.Auth.{PasswordHasher, hash_password, verify_password, user_by_id}
use onecrawler_backend.Auth.Sessions.{revoke_all_refresh_sessions}
use onecrawler_backend.Users.Register.{user_by_email}

-- The lookup and the 404 with which each handler begins.
unfoldable pub get_me : Uuid → Exec Backend Users
unfolding ◌>>=◌
get_me user_id = do or_raise (← gets (user_by_id user_id)) 404 "User not found"

-- The `UPDATE` of one user's row.
abbrev pub set_user : Uuid → (Users → Users) → Backend → Backend
set_user id f s = record s { users = update (λ (u : Users). u.id == id) f s.users }

unfoldable pub rename : Uuid → String → Exec Backend Users
unfolding get_me
rename user_id name = do
  user ← get_me user_id
  modify (set_user user.id (λ u. record u { name = name }))
  pure (record user { name = name })

pub record ChangeEmailRequest : Type 0 where
  pub email : String
  pub password : String

-- `existing is not None and existing.id != user.id`
abbrev pub is_another : Option Users → Uuid → Bool
is_another none id = false
is_another (some u) id = not (u.id == id)

unfoldable pub change_email : PasswordHasher → Uuid → ChangeEmailRequest → Exec Backend Users
unfolding get_me verify_password
change_email hasher user_id payload = do
  user ← get_me user_id
  raise_if (not (verify_password hasher payload.password user.hashed_password)) 401
      "Incorrect password"
  existing ← gets (user_by_email payload.email)
  raise_if (is_another existing user.id) 409 "Email already registered"
  modify (set_user user.id (λ u. record u { email = payload.email }))
  pure (record user { email = payload.email })

pub record ChangePasswordRequest : Type 0 where
  pub current_password : String
  pub new_password : String

unfoldable pub change_password :
    PasswordHasher → Uuid → ChangePasswordRequest → ℕ → Exec Backend (Unit {0})
unfolding get_me verify_password revoke_all_refresh_sessions
change_password hasher user_id payload now = do
  user ← get_me user_id
  raise_if (not (verify_password hasher payload.current_password user.hashed_password)) 401
      "Incorrect password"
  modify (
      set_user user.id
        (λ u. record u { hashed_password = hash_password hasher payload.new_password }))
  modify (revoke_all_refresh_sessions user.id now)
