-- ===== src/Auth.antt =====
-- core/security.py, core/sessions.py and api/security/dependencies.py. PyJWT and argon2 are not
-- part of the program: they are the parameters below, with the behaviour that the program relies
-- on. A clock reading is in milliseconds; where a handler reads the clock more than once it is
-- given the readings, `t 0`, `t 1` and so on.
pub mod Sessions
pub mod Verify
use onecrawler_backend.Prelude.{
  ℕ, ◌+◌, ◌*◌, ◌/◌, ◌≤◌, ◌<◌, ◌≡◌, String, Bool, true, false, not, ◌&&◌, Option, none, some, List,
  [], ◌∷◌, ltb, ◌==◌, if◌then◌else◌, str_eq,
}
use onecrawler_backend.Tables.{find}
use onecrawler_backend.Exec.{Exec, pure, gets, or_raise, raise_if, ◌>>=◌, ◌>>◌}
use onecrawler_backend.Models.{Uuid, Users}
use onecrawler_backend.Backend.{Backend}

-- `Settings` of core/config.py, as far as tokens go
pub record Config : Type 0 where
  pub access_token_expire_minutes : ℕ
  pub refresh_token_expire_days : ℕ

-- The claims of the tokens that this service signs; `type` is `kind`, and a refresh token has no
-- profile. `iat` and `exp` are in seconds.
pub record Claims : Type 0 where
  pub sub : Uuid
  pub email : Option String
  pub user_type : Option String
  pub name : Option String
  pub kind : String
  pub jti : Uuid
  pub iat : ℕ
  pub exp : ℕ

-- `jwt.encode` and `jwt.decode` under the service's key; `none` is a `PyJWTError`. PyJWT checks
-- the signature, that `iat` is not in the future and that `exp` is.
pub record Jwt (Token : Type 0) : Type 0 where
  pub encode : Claims → Token
  pub decode : ℕ → Token → Option Claims
  pub decode-encode :
      (now : ℕ) (c : Claims)
      → c.iat * 1000 ≤ now
      → now < c.exp * 1000
      → decode now (encode c) ≡ some c
  pub decode_unexpired :
      (now : ℕ) (token : Token) (c : Claims) → decode now token ≡ some c → now < c.exp * 1000
  pub decode_stable :
      (now later : ℕ) (token : Token) (c d : Claims)
      → decode now token ≡ some c
      → decode later token ≡ some d
      → c ≡ d

-- What `_hasher.verify` does: it returns, or raises `VerifyMismatchError`.
pub data Verdict : Type 0 where
  verified mismatch : Verdict

-- `argon2.PasswordHasher`, with the salt that it draws left inside `hash`.
pub record PasswordHasher : Type 0 where
  pub hash : String → String
  pub verify : String → String → Verdict
  pub verify-hash : (password : String) → verify (hash password) password ≡ verified

abbrev pub hash_password : PasswordHasher → String → String
hash_password hasher password = hasher.hash password

-- the `except VerifyMismatchError`
abbrev pub is_verified : Verdict → Bool
is_verified verified = true
is_verified mismatch = false

unfoldable pub verify_password : PasswordHasher → String → String → Bool
verify_password hasher password hashed = is_verified (hasher.verify hashed password)

pub record CurrentUser : Type 0 where
  pub id : Uuid
  pub email : String
  pub user_type : String
  pub name : String
  pub jti : Uuid
  pub exp : ℕ

-- `db.get(Users, id)`
abbrev pub user_by_id : Uuid → Backend → Option Users
user_by_id id s = find (λ (u : Users). u.id == id) s.users

-- `user is None or not user.is_active`
abbrev pub is_usable : Option Users → Bool
is_usable none = false
is_usable (some u) = u.is_active

-- `redis.exists(f"blocklist:{jti}")`
abbrev pub is_blocked : ℕ → Uuid → List (Uuid × ℕ) → Bool
is_blocked now jti [] = false
is_blocked now jti ((j, drop_at) ∷ keys) =
    let rest = is_blocked now jti keys in if j == jti && ltb now drop_at then true else rest

module _ {Token : Type 0} (config : Config) (jwt : Jwt Token) where
  unfoldable pub create_access_token : Uuid → String → String → String → Uuid → ℕ → Token
  create_access_token user_id email user_type name jti now = jwt.encode (record {
    sub = user_id;
    email = some email;
    user_type = some user_type;
    name = some name;
    kind = "access";
    jti = jti;
    iat = now / 1000;
    exp = (now + config.access_token_expire_minutes * 60000) / 1000;
  })

  -- the token, and the time at which it expires
  unfoldable pub create_refresh_token : Uuid → Uuid → ℕ → Token × ℕ
  create_refresh_token user_id jti now =
      let expires_at = now + config.refresh_token_expire_days * 86400000 in
      (
        jwt.encode (record {
          sub = user_id;
          email = none;
          user_type = none;
          name = none;
          kind = "refresh";
          jti = jti;
          iat = now / 1000;
          exp = expires_at / 1000;
        }),
        expires_at,
      )

  unfoldable pub decode_access_token : ℕ → Token → Option Claims
  decode_access_token now token = jwt.decode now token

  unfoldable pub get_current_user : ℕ → Token → Exec Backend CurrentUser
  unfolding decode_access_token ◌>>=◌
  get_current_user now token = do
    payload ← or_raise (decode_access_token now token) 401 "Invalid or expired token"
    raise_if (not (str_eq payload.kind "access")) 401 "Invalid or expired token"
    raise_if (← gets (λ s. is_blocked now payload.jti s.blocklist)) 401 "Invalid or expired token"
    user ← or_raise (← gets (user_by_id payload.sub)) 401 "Invalid or expired token"
    raise_if (not user.is_active) 401 "Invalid or expired token"
    pure (record {
      id = user.id;
      email = user.email;
      user_type = user.user_type;
      name = user.name;
      jti = payload.jti;
      exp = payload.exp;
    })
