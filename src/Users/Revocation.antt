-- ===== src/Users/Revocation.antt =====
-- The sessions under `change_password` of api/users/account/router.py and `revoke-all` of
-- api/users/sessions/router.py.
use mathlib.Core.Option
use onecrawler_backend.Prelude.{
  ℕ, ◌≡◌, ◌∙◌, ◌≢◌, sym, refl, ap, inl, inr, false, ◌&&◌, some, List, [], ◌∷◌, arith, ◌==◌, ==_iff,
  Bool-cases, Option-cases, ltb, if◌then◌else◌,
}
use onecrawler_backend.Tables.{find, update, select}
use onecrawler_backend.Tables.Laws.{find_matches, find-update_any}
use onecrawler_backend.Tables.Order.{order_by_desc}
use onecrawler_backend.Exec.{Result, ok, err}
use onecrawler_backend.Models.{Uuid, Users, RefreshSession}
use onecrawler_backend.Backend.{Backend}
use onecrawler_backend.Auth.{Config, Jwt, PasswordHasher, Claims, user_by_id, verify_password}
use onecrawler_backend.Auth.Sessions.{
  has_jti, is_open, is_open_of, revoked, revoke_all_refresh_sessions,
}
use onecrawler_backend.Users.Account.{ChangePasswordRequest, change_password}
use onecrawler_backend.Users.SessionList.{list_sessions, revoke_all_sessions}
use onecrawler_backend.Users.Refresh.{refresh}
use onecrawler_backend.Users.Rotation.{refresh_closed}

-- what becomes of a row
abbrev after_revoke : Uuid → ℕ → RefreshSession → RefreshSession
after_revoke user_id now r = if is_open_of user_id r then revoked now r else r

session-revoke_all :
    (user_id jti : Uuid) (now : ℕ) (s : Backend)
    → find (has_jti jti) (revoke_all_refresh_sessions user_id now s).refresh_sessions
      ≡ Option.map (after_revoke user_id now) (find (has_jti jti) s.refresh_sessions)
unfolding revoke_all_refresh_sessions
session-revoke_all user_id jti now s =
    find-update_any (has_jti jti) (is_open_of user_id) (revoked now) s.refresh_sessions (λ r. refl)

-- A session of the user is closed afterwards.
closed-revoke_all :
    (user_id jti : Uuid) (now : ℕ) (s : Backend) (row : RefreshSession)
    → find (has_jti jti) s.refresh_sessions ≡ some row
    → row.user_id ≡ user_id
    → is_open (find (has_jti jti) (revoke_all_refresh_sessions user_id now s).refresh_sessions)
      ≡ false
closed-revoke_all user_id jti now s row found mine =
    rw (session-revoke_all user_id jti now s ∙ ap (Option.map (after_revoke user_id now)) found)
      (ground (arith, mine))

-- `revoke-all` leaves every session of another user as it was.
revoke_all-others :
    (user_id jti : Uuid) (now : ℕ) (s : Backend) (row : RefreshSession)
    → find (has_jti jti) s.refresh_sessions ≡ some row
    → row.user_id ≢ user_id
    → find (has_jti jti) (revoke_all_sessions user_id now s).1.refresh_sessions ≡ some row
unfolding revoke_all_sessions
revoke_all-others user_id jti now s row found other =
    session-revoke_all user_id jti now s
    ∙ ap (Option.map (after_revoke user_id now)) found
    ∙ ground (arith, other)

-- No row is open after the update.
none_open :
    (user_id : Uuid) (now later : ℕ) (rows : List RefreshSession)
    → select
        (λ r. is_open_of user_id r && ltb later r.expires_at)
        (update (is_open_of user_id) (revoked now) rows)
      ≡ []
none_open user_id now later [] = refl
none_open user_id now later (r ∷ rows) = ground (arith, none_open user_id now later rows)

-- The list of a user's sessions is empty after `revoke-all`, at whatever time it is asked for.
list_sessions-revoke_all :
    (user_id : Uuid) (now later : ℕ) (s : Backend)
    → (list_sessions user_id later (revoke_all_sessions user_id now s).1).0 ≡ ok []
unfolding list_sessions revoke_all_sessions order_by_desc
list_sessions-revoke_all user_id now later s = rw (none_open user_id now later s.refresh_sessions)

-- What a successful change of password leaves of the sessions.
change_password-sessions :
    (hasher : PasswordHasher) (user_id : Uuid) (payload : ChangePasswordRequest) (now : ℕ)
    (s after : Backend)
    → change_password hasher user_id payload now s ≡ (ok tt, after)
    → after.refresh_sessions ≡ (revoke_all_refresh_sessions user_id now s).refresh_sessions
unfolding change_password revoke_all_refresh_sessions
change_password-sessions hasher user_id payload now s after e =
    elim (Option-cases (user_by_id user_id s)) [
      | inl n ↦ absurd (ground (arith, n, e))
      | inr (u, f) ↦
          elim (Bool-cases (verify_password hasher payload.current_password u.hashed_password)) [
            | inr n ↦ absurd (ground (arith, f, n, e))
            | inl v ↦
                let own : u.id ≡ user_id =
                  (==_iff u.id user_id).0
                    (find_matches (λ (x : Users). x.id == user_id) s.users f) in
                ap (λ (p : Result (Unit {0}) × Backend). p.1.refresh_sessions) (sym e)
                ∙ rw (f, v, own)
          ]
    ]

-- A change of password ends every session that the user had: a refresh token whose session was
-- the user's is refused from then on.
pub change_password_ends_sessions :
    {Token : Type 0} (config : Config) (jwt : Jwt Token) (hasher : PasswordHasher) (user_id : Uuid)
    (payload : ChangePasswordRequest) (now : ℕ) (s after : Backend) (token : Token)
    (claims : Claims) (row : RefreshSession) (access_jti refresh_jti : Uuid) (t : ℕ → ℕ)
    → change_password hasher user_id payload now s ≡ (ok tt, after)
    → jwt.decode (t 0) token ≡ some claims
    → find (has_jti claims.jti) s.refresh_sessions ≡ some row
    → row.user_id ≡ user_id
    → refresh config jwt token access_jti refresh_jti t after
      ≡ (err 401 "Invalid or expired refresh token", after)
change_password_ends_sessions config jwt hasher user_id payload now s after token claims row
      access_jti refresh_jti t changed decoded found mine =
    refresh_closed config jwt token access_jti refresh_jti t after claims decoded (
      rw (change_password-sessions hasher user_id payload now s after changed)
        (closed-revoke_all user_id claims.jti now s row found mine))
