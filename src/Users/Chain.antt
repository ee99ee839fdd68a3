-- ===== src/Users/Chain.antt =====
-- `refresh` of api/users/refresh/router.py: the token that it issues.
use mathlib.Core.Option
use onecrawler_backend.Prelude.{
  ℕ, ◌+◌, ◌*◌, ◌/◌, ◌≤◌, ◌<◌, ◌≡◌, ◌∙◌, refl, ap, inl, inr, false, none, some, ◌∷◌, [], arith, ltb,
  ◌==◌, ==_refl, ==_iff, Bool-cases, if◌then◌else◌,
}
use onecrawler_backend.Tables.{find}
use onecrawler_backend.Tables.Laws.{find-update_any, find-append, find_matches}
use onecrawler_backend.Exec.{ok}
use onecrawler_backend.Models.{Uuid, Users}
use onecrawler_backend.Backend.{Backend}
use onecrawler_backend.Auth.{
  Config, Jwt, Claims, decode_access_token, user_by_id, create_refresh_token, create_access_token,
}
use onecrawler_backend.Auth.Sessions.{
  has_jti, is_open, revoked, new_session, revoke_refresh_session, record_refresh_session,
}
use onecrawler_backend.Users.Login.{TokenOut}
use onecrawler_backend.Users.Refresh.{refresh}
use onecrawler_backend.Users.Rotation.{refresh-Refreshed}

module _ (jti : Uuid) (now : ℕ) (s : Backend) where
  -- Revoking a session adds none and leaves the users.
  find-revoke_none :
      (fresh : Uuid)
      → find (has_jti fresh) s.refresh_sessions ≡ none
      → find (has_jti fresh) (revoke_refresh_session jti now s).refresh_sessions ≡ none
  unfolding revoke_refresh_session
  find-revoke_none fresh e = elim (Bool-cases (is_open (find (has_jti jti) s.refresh_sessions))) [
    | inr n ↦ rw n e
    | inl o ↦ rw o (
        find-update_any (has_jti fresh) (has_jti jti) (revoked now) s.refresh_sessions (λ r. refl)
        ∙ ap (Option.map (λ r. if has_jti jti r then revoked now r else r)) e)
  ]

  users-revoke : (revoke_refresh_session jti now s).users ≡ s.users
  unfolding revoke_refresh_session
  users-revoke = ground arith

-- the claims of a refresh token
abbrev refresh_claims : Config → Uuid → Uuid → ℕ → Claims
refresh_claims config user_id jti now = record {
  sub = user_id;
  email = none;
  user_type = none;
  name = none;
  kind = "refresh";
  jti = jti;
  iat = now / 1000;
  exp = (now + config.refresh_token_expire_days * 86400000) / 1000;
}

-- The refresh token that a refresh issues under an id of its own is accepted by a refresh that
-- reads the clock after it was issued and before the second in which it expires: that one answers
-- with a new pair of tokens for the user whom the first token named.
pub refresh-chain :
    {Token : Type 0} (config : Config) (jwt : Jwt Token) (token : Token)
    (access_jti refresh_jti next_access next_refresh : Uuid) (t next : ℕ → ℕ) (s after : Backend)
    (out : TokenOut Token)
    → refresh config jwt token access_jti refresh_jti t s ≡ (ok out, after)
    → find (has_jti refresh_jti) s.refresh_sessions ≡ none
    → t 4 ≤ next 0
    → next 0 < (t 4 + config.refresh_token_expire_days * 86400000) / 1000 * 1000
    → next 1 ≤ t 4 + config.refresh_token_expire_days * 86400000
    → (claims : Claims) × (user : Users) × (last : Backend) × (jwt.decode (t 0) token ≡ some claims)
      × (user_by_id claims.sub s ≡ some user)
      × (refresh config jwt out.refresh_token next_access next_refresh next after ≡ (
        ok (record {
          access_token =
              create_access_token config jwt user.id user.email user.user_type user.name next_access
                (next 3);
          refresh_token = (create_refresh_token config jwt user.id next_refresh (next 4)).0;
          expires_in = config.access_token_expire_minutes * 60;
        }),
        last,
      ))
unfolding refresh decode_access_token create_refresh_token record_refresh_session
refresh-chain config jwt token access_jti refresh_jti next_access next_refresh t next s after out e
      fresh begun unexpired in_time =
    let done = refresh-Refreshed config jwt token access_jti refresh_jti t s out after e in
    let claims = refresh_claims config done.user.id refresh_jti (t 4) in
    let decoded : jwt.decode (next 0) out.refresh_token ≡ some claims =
      ap (jwt.decode (next 0)) done.issued
      ∙ jwt.decode-encode (next 0) claims (omega (arith, begun)) unexpired in
    let expires_at = t 4 + config.refresh_token_expire_days * 86400000 in
    let session = new_session done.user.id refresh_jti expires_at (t 5) in
    let found : find (has_jti refresh_jti) after.refresh_sessions ≡ some session =
      ap (λ (x : Backend). find (has_jti refresh_jti) x.refresh_sessions) done.state
      ∙ find-append (has_jti refresh_jti)
          (revoke_refresh_session done.session.jti (t 2) s).refresh_sessions (session ∷ [])
          (find-revoke_none done.session.jti (t 2) s refresh_jti fresh)
      ∙ rw (==_refl refresh_jti) in
    let same_id : done.user.id ≡ done.claims.sub =
      (==_iff done.user.id done.claims.sub).0
        (find_matches (λ (u : Users). u.id == done.claims.sub) s.users done.of_user) in
    let user : user_by_id done.user.id after ≡ some done.user =
      ap (user_by_id done.user.id) done.state
      ∙ ap (find (λ (u : Users). u.id == done.user.id)) (users-revoke done.session.jti (t 2) s)
      ∙ rw (same_id, done.of_user) in
    let live : ltb expires_at (next 1) ≡ false = ground arith in
    let active = done.active in
    (
      done.claims,
      done.user,
      record_refresh_session done.user.id next_refresh
          (create_refresh_token config jwt done.user.id next_refresh (next 4)).1 (next 5)
          (revoke_refresh_session refresh_jti (next 2) after),
      done.decoded,
      done.of_user,
      rw (decoded, found, live, user, active),
    )
