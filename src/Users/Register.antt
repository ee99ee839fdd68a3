-- ===== src/Users/Register.antt =====
-- api/users/register/router.py, and the `lifespan` of main.py.
use onecrawler_backend.Prelude.{String, true, Option, str_eq, is_some, if◌then◌else◌}
use onecrawler_backend.Tables.{find, insert}
use onecrawler_backend.Exec.{Exec, pure, gets, raise_if, modify, ◌>>=◌, ◌>>◌}
use onecrawler_backend.Models.{Uuid, Users}
use onecrawler_backend.Backend.{Backend}
use onecrawler_backend.Auth.{PasswordHasher, hash_password}

-- `select(Users).where(Users.email == email)`
abbrev pub user_by_email : String → Backend → Option Users
user_by_email email s = find (λ (u : Users). str_eq u.email email) s.users

pub record RegisterRequest : Type 0 where
  pub name : String
  pub email : String
  pub password : String

-- The row of a request; `is_active` and `user_type` are the column defaults.
abbrev pub new_user : PasswordHasher → RegisterRequest → Uuid → Users
new_user hasher payload new_id = record {
  id = new_id;
  name = payload.name;
  email = payload.email;
  hashed_password = hash_password hasher payload.password;
  is_active = true;
  user_type = "user";
}

unfoldable pub register : PasswordHasher → RegisterRequest → Uuid → Exec Backend Users
unfolding ◌>>=◌
register hasher payload new_id = do
  existing ← gets (user_by_email payload.email)
  raise_if (is_some existing) 409 "Email already registered"
  modify (λ s. record s { users = insert (new_user hasher payload new_id) s.users })
  pure (new_user hasher payload new_id)

-- The `DEFAULT_ADMIN_*` settings.
pub record AdminConfig : Type 0 where
  pub default_admin_name : String
  pub default_admin_email : String
  pub default_admin_password : String

-- the start-up half of `lifespan`
unfoldable pub seed_admin : PasswordHasher → AdminConfig → Uuid → Backend → Backend
seed_admin hasher config new_id s =
    if is_some (user_by_email config.default_admin_email s) then s else record s {
      users =
          insert
            (record {
              id = new_id;
              name = config.default_admin_name;
              email = config.default_admin_email;
              hashed_password = hash_password hasher config.default_admin_password;
              is_active = true;
              user_type = "admin";
            })
            s.users;
    }
