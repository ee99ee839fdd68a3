-- ===== src/Users/Rotation.antt =====
-- `refresh` of api/users/refresh/router.py: what it checks, and the token that it was given.
use mathlib.Core.Option
use mathlib.Core.Path.{subst}
use onecrawler_backend.Prelude.{
  ℕ, ◌≡◌, ◌∙◌, ap, sym, inl, inr, true, false, ◌||◌, none, some, ◌∷◌, [], arith, str_eq, ltb,
  ==_iff, Option-cases, Bool-cases, is_some,
}
use onecrawler_backend.Tables.{find, update}
use onecrawler_backend.Tables.Laws.{find-update, find-append_some, find_matches}
use onecrawler_backend.Exec.{Result, ok, err}
use onecrawler_backend.Models.{Uuid, Users, RefreshSession}
use onecrawler_backend.Backend.{Backend}
use onecrawler_backend.Auth.{
  Config, Jwt, Claims, decode_access_token, user_by_id, create_refresh_token,
}
use onecrawler_backend.Auth.Sessions.{
  has_jti, is_open, revoked, new_session, revoke_refresh_session, record_refresh_session,
}
use onecrawler_backend.Users.Login.{TokenOut}
use onecrawler_backend.Users.Refresh.{refresh}

-- the refresh token of a response, or another one in place of an error's
abbrev token_of : {Token : Type 0} → Token → Result (TokenOut Token) → Token
token_of other (ok out) = out.refresh_token
token_of other (err code detail) = other

module _ {Token : Type 0} (config : Config) (jwt : Jwt Token) (token : Token)
    (access_jti refresh_jti : Uuid) (t : ℕ → ℕ) (s : Backend) where
  abbrev outcome : Result (TokenOut Token) × Backend
  outcome = refresh config jwt token access_jti refresh_jti t s

  abbrev refusal : Result (TokenOut Token) × Backend
  refusal = (err 401 "Invalid or expired refresh token", s)

  -- A token that does not decode is refused.
  pub refresh_undecoded : jwt.decode (t 0) token ≡ none → outcome ≡ refusal
  unfolding refresh decode_access_token
  refresh_undecoded e = rw e

  module _ (claims : Claims) (decoded : jwt.decode (t 0) token ≡ some claims) where
    -- So is a token whose session is missing or was revoked.
    pub refresh_closed :
        is_open (find (has_jti claims.jti) s.refresh_sessions) ≡ false → outcome ≡ refusal
    unfolding refresh decode_access_token
    refresh_closed closed = ground (arith, decoded)

  -- What a successful refresh has checked, and what it leaves of the sessions.
  pub record Refreshed (out : TokenOut Token) (after : Backend) : Type 0 where
    pub claims : Claims
    pub session : RefreshSession
    pub user : Users
    pub decoded : jwt.decode (t 0) token ≡ some claims
    pub found : find (has_jti claims.jti) s.refresh_sessions ≡ some session
    pub was_open : session.revoked_at ≡ none
    pub of_user : user_by_id claims.sub s ≡ some user
    pub active : user.is_active ≡ true
    pub state :
        after
        ≡ record_refresh_session user.id refresh_jti
            (create_refresh_token config jwt user.id refresh_jti (t 4)).1
            (t 5)
            (revoke_refresh_session session.jti (t 2) s)
    pub issued : out.refresh_token ≡ (create_refresh_token config jwt user.id refresh_jti (t 4)).0

  pub refresh-Refreshed :
      (out : TokenOut Token) (after : Backend) → outcome ≡ (ok out, after) → Refreshed out after
  unfolding refresh decode_access_token
  refresh-Refreshed out after e = elim (Option-cases (jwt.decode (t 0) token)) [
    | inl n ↦ absurd (ground (arith, n, e))
    | inr (c, d) ↦ elim (Bool-cases (str_eq c.kind "refresh")) [
      | inr n ↦ absurd (ground (arith, d, n, e))
      | inl k ↦ elim (Option-cases (find (has_jti c.jti) s.refresh_sessions)) [
        | inl n ↦ absurd (ground (arith, d, k, n, e))
        | inr (row, f) ↦ elim (Bool-cases (is_some row.revoked_at || ltb row.expires_at (t 1))) [
          | inl n ↦ absurd (ground (arith, d, k, f, n, e))
          | inr o ↦ elim (Option-cases (user_by_id c.sub s)) [
            | inl n ↦ absurd (ground (arith, d, k, f, o, n, e))
            | inr (u, g) ↦ elim (Bool-cases u.is_active) [
              | inr n ↦ absurd (ground (arith, d, k, f, o, g, n, e))
              | inl a ↦ record {
                claims = c;
                session = row;
                user = u;
                decoded = d;
                found = f;
                was_open = ground (arith, o);
                of_user = g;
                active = a;
                state =
                    ap (λ (p : Result (TokenOut Token) × Backend). p.1) (sym e)
                    ∙ rw (d, k, f, o, g, a);
                issued =
                    ap
                      (λ (p : Result (TokenOut Token) × Backend).
                        token_of (create_refresh_token config jwt u.id refresh_jti (t 4)).0 p.0)
                      (sym e)
                    ∙ rw (d, k, f, o, g, a);
              }
            ]
          ]
        ]
      ]
    ]
  ]

-- Revoking an open session closes it, and a new session row does not reopen it.
revoked_is_closed :
    (jti user_id new_jti : Uuid) (expires_at created_at now : ℕ) (s : Backend)
    (row : RefreshSession)
    → find (has_jti jti) s.refresh_sessions ≡ some row
    → row.revoked_at ≡ none
    → is_open (
        find
          (has_jti jti)
          (record_refresh_session user_id new_jti expires_at created_at
            (revoke_refresh_session jti now s)).refresh_sessions)
      ≡ false
unfolding record_refresh_session revoke_refresh_session
revoked_is_closed jti user_id new_jti expires_at created_at now s row found was_open =
    let opened : is_open (find (has_jti jti) s.refresh_sessions) ≡ true = rw (found, was_open) in
    let closed =
      find-append_some (has_jti jti) (update (has_jti jti) (revoked now) s.refresh_sessions)
        (new_session user_id new_jti expires_at created_at ∷ [])
        (find-update (has_jti jti) (revoked now) s.refresh_sessions (λ r h. h)
          ∙ ap (Option.map (revoked now)) found) in
    rw opened (rw closed)

-- After a refresh the session of the token is closed, however the token is decoded again.
closed_after :
    {Token : Type 0} {config : Config} {jwt : Jwt Token} {token : Token}
    {access_jti refresh_jti : Uuid} {t : ℕ → ℕ} {s after : Backend} {out : TokenOut Token} {now : ℕ}
    → Refreshed config jwt token access_jti refresh_jti t s out after
    → (c : Claims) → jwt.decode now token ≡ some c
    → is_open (find (has_jti c.jti) after.refresh_sessions) ≡ false
closed_after {config = config} {jwt = jwt} {token = token} {refresh_jti = refresh_jti} {t = t}
      {s = s} {after = after} {now = now} done c d =
    let row_jti : done.session.jti ≡ done.claims.jti =
      (==_iff done.session.jti done.claims.jti).0
        (find_matches (has_jti done.claims.jti) s.refresh_sessions done.found) in
    let same_jti : done.claims.jti ≡ c.jti =
      ap (λ (x : Claims). x.jti) (jwt.decode_stable (t 0) now token done.claims c done.decoded d) in
    let closed =
      revoked_is_closed done.session.jti done.user.id refresh_jti
        (create_refresh_token config jwt done.user.id refresh_jti (t 4)).1 (t 5) (t 2) s
        done.session
        (subst (λ j. find (has_jti j) s.refresh_sessions ≡ some done.session) (sym row_jti)
          done.found)
        done.was_open in
    subst (λ j. is_open (find (has_jti j) after.refresh_sessions) ≡ false) (row_jti ∙ same_jti)
      (rw done.state closed)

-- A refresh token works once: after a refresh that succeeded, the same token is refused, whenever
-- it is presented again and whatever ids that request draws.
pub refresh_once :
    {Token : Type 0} (config : Config) (jwt : Jwt Token) (token : Token)
    (access_jti refresh_jti again_access again_refresh : Uuid) (t again : ℕ → ℕ) (s after : Backend)
    (out : TokenOut Token)
    → refresh config jwt token access_jti refresh_jti t s ≡ (ok out, after)
    → refresh config jwt token again_access again_refresh again after
      ≡ (err 401 "Invalid or expired refresh token", after)
refresh_once config jwt token access_jti refresh_jti again_access again_refresh t again s after out
      e =
    let done = refresh-Refreshed config jwt token access_jti refresh_jti t s out after e in
    elim (Option-cases (jwt.decode (again 0) token)) [
      | inl n ↦ refresh_undecoded config jwt token again_access again_refresh again after n
      | inr (c, d) ↦
          refresh_closed config jwt token again_access again_refresh again after c d
            (closed_after done c d)
    ]
