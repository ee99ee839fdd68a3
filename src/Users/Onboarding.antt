-- ===== src/Users/Onboarding.antt =====
-- api/users/register/router.py followed by api/users/login/router.py.
use onecrawler_backend.Prelude.{
  ℕ, ◌*◌, ◌++◌, ◌≡◌, ◌∙◌, sym, ap, inl, inr, none, some, arith, Option-cases, str_eq, eq_refl, [],
  ◌∷◌,
}
use onecrawler_backend.Tables.{insert}
use onecrawler_backend.Tables.Laws.{find-append}
use onecrawler_backend.Exec.{Result, ok, ◌>>=◌}
use onecrawler_backend.Models.{Uuid, Users}
use onecrawler_backend.Backend.{Backend}
use onecrawler_backend.Auth.{
  Config, Jwt, PasswordHasher, verify_password, create_access_token, create_refresh_token,
}
use onecrawler_backend.Auth.Sessions.{record_refresh_session}
use onecrawler_backend.Users.Register.{RegisterRequest, register, new_user, user_by_email}
use onecrawler_backend.Users.Login.{login}

-- What a registration that returned did.
register-ok :
    (hasher : PasswordHasher) (payload : RegisterRequest) (new_id : Uuid) (s after : Backend)
    (user : Users)
    → register hasher payload new_id s ≡ (ok user, after)
    → (user_by_email payload.email s ≡ none)
      × (after ≡ record s { users = insert (new_user hasher payload new_id) s.users })
unfolding register
register-ok hasher payload new_id s after user e =
    elim (Option-cases (user_by_email payload.email s)) [
      | inr (u, f) ↦ absurd (ground (arith, f, e))
      | inl n ↦ (n, ap (λ (p : Result Users × Backend). p.1) (sym e) ∙ rw n)
    ]

-- An account that was registered can log in at once with its e-mail address and password: the
-- response has the two tokens of the new user, and a session of that user with the refresh token's
-- id and time of expiry, not revoked, is added to the sessions; nothing else changes.
pub register-login :
    {Token : Type 0} (config : Config) (jwt : Jwt Token) (hasher : PasswordHasher)
    (payload : RegisterRequest) (new_id access_jti refresh_jti : Uuid) (t : ℕ → ℕ)
    (s after : Backend) (user : Users)
    → register hasher payload new_id s ≡ (ok user, after)
    → login config jwt hasher
        (record { email = payload.email; password = payload.password })
        access_jti
        refresh_jti
        t
        after
      ≡ (
        ok (record {
          access_token =
              create_access_token config jwt new_id payload.email "user" payload.name access_jti
                (t 0);
          refresh_token = (create_refresh_token config jwt new_id refresh_jti (t 1)).0;
          expires_in = config.access_token_expire_minutes * 60;
        }),
        record after {
          refresh_sessions =
              after.refresh_sessions
              ++ record {
                jti = refresh_jti;
                user_id = new_id;
                created_at = t 2;
                expires_at = (create_refresh_token config jwt new_id refresh_jti (t 1)).1;
                revoked_at = none;
              }
                ∷ [];
        },
      )
unfolding login verify_password record_refresh_session ◌>>=◌
register-login config jwt hasher payload new_id access_jti refresh_jti t s after user e =
    let (fresh, state) = register-ok hasher payload new_id s after user e in
    let found : user_by_email payload.email after ≡ some (new_user hasher payload new_id) =
      ap (user_by_email payload.email) state
      ∙ find-append (λ (u : Users). str_eq u.email payload.email) s.users
          (new_user hasher payload new_id ∷ []) fresh
      ∙ rw (eq_refl payload.email) in
    let verifies = hasher.verify-hash payload.password in rw (found, verifies)
