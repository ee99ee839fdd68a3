-- ===== src/Users/Race.antt =====
-- `refresh` of api/users/refresh/router.py as two requests meet in it: each handler first reads and
-- then writes, with a database session of its own, and nothing locks the row between the two.
use mathlib.Core.Path.{subst}
use onecrawler_backend.Prelude.{
  ℕ, ◌≡◌, refl, sym, inl, inr, false, not, ◌||◌, some, List, [], ◌∷◌, arith, str_eq, ltb, is_some,
  if◌then◌else◌, ==_iff, Bool-cases, Option-cases,
}
use onecrawler_backend.Tables.{find, update}
use onecrawler_backend.Tables.Laws.{find_matches}
use onecrawler_backend.Exec.{
  Exec, Result, ok, err, pure, gets, or_raise, raise_if, modify, ◌>>=◌, ◌>>◌,
}
use onecrawler_backend.Models.{Uuid, Users, RefreshSession}
use onecrawler_backend.Backend.{Backend}
use onecrawler_backend.Auth.{Config, Jwt, decode_access_token, user_by_id}
use onecrawler_backend.Auth.Sessions.{has_jti, revoked, revoke_refresh_session}
use onecrawler_backend.Users.Login.{TokenOut, issue_tokens}
use onecrawler_backend.Users.Refresh.{refresh}

-- what a handler knows once it has read
pub record Checked : Type 0 where
  pub session : RefreshSession
  pub user : Users

-- `revoke_refresh_session` on the row that the handler has read: `db.get` returns that same object
-- again, whatever another request has written since
unfoldable pub retire : RefreshSession → ℕ → Backend → Backend
retire session now s = if is_some session.revoked_at then s else record s {
  refresh_sessions = update (has_jti session.jti) (revoked now) s.refresh_sessions;
}

module _ {Token : Type 0} (config : Config) (jwt : Jwt Token) where
  -- down to the check of the user
  unfoldable pub check : Token → (ℕ → ℕ) → Exec Backend Checked
  unfolding ◌>>=◌
  check token t = do
    claims ←
        or_raise (decode_access_token config jwt (t 0) token) 401 "Invalid or expired refresh token"
    raise_if (not (str_eq claims.kind "refresh")) 401 "Invalid or expired refresh token"
    session ←
        or_raise (← gets (λ s. find (has_jti claims.jti) s.refresh_sessions)) 401
          "Invalid or expired refresh token"
    raise_if (is_some session.revoked_at || ltb session.expires_at (t 1)) 401
        "Invalid or expired refresh token"
    user ← or_raise (← gets (user_by_id claims.sub)) 401 "Invalid or expired refresh token"
    raise_if (not user.is_active) 401 "Invalid or expired refresh token"
    pure (record { session = session; user = user })

  -- from the revocation to the commit
  unfoldable pub rotate : Uuid → Uuid → (ℕ → ℕ) → Checked → Exec Backend (TokenOut Token)
  unfolding ◌>>=◌
  rotate access_jti refresh_jti t c = do
    modify (retire c.session (t 2))
    issue_tokens config jwt c.user access_jti refresh_jti (t 3) (t 4) (t 5)

  -- The two halves, one right after the other, are the handler.
  pub check-rotate :
      (token : Token) (access_jti refresh_jti : Uuid) (t : ℕ → ℕ) (s : Backend)
      → (check token t >>= rotate access_jti refresh_jti t) s
        ≡ refresh config jwt token access_jti refresh_jti t s
  unfolding check rotate retire refresh decode_access_token revoke_refresh_session
  check-rotate token access_jti refresh_jti t s = elim (Option-cases (jwt.decode (t 0) token)) [
    | inl n ↦ rw n refl
    | inr (c, d) ↦ elim (Bool-cases (str_eq c.kind "refresh")) [
      | inr n ↦ rw (d, n) refl
      | inl k ↦ elim (Option-cases (find (has_jti c.jti) s.refresh_sessions)) [
        | inl n ↦ rw (d, k, n) refl
        | inr (row, f) ↦ elim (Bool-cases (is_some row.revoked_at || ltb row.expires_at (t 1))) [
          | inl n ↦ rw (d, k, f, n) refl
          | inr o ↦ elim (Option-cases (user_by_id c.sub s)) [
            | inl n ↦ rw (d, k, f, o, n) refl
            | inr (u, g) ↦ elim (Bool-cases u.is_active) [
              | inr n ↦ rw (d, k, f, o, g, n) refl
              | inl a ↦
                  let open_row : is_some row.revoked_at ≡ false = ground (arith, o) in
                  let row_jti : row.jti ≡ c.jti =
                    (==_iff row.jti c.jti).0 (find_matches (has_jti c.jti) s.refresh_sessions f) in
                  let again : find (has_jti row.jti) s.refresh_sessions ≡ some row =
                    subst (λ j. find (has_jti j) s.refresh_sessions ≡ some row) (sym row_jti) f in
                  rw (d, k, f, o, g, a, again, open_row) refl
            ]
          ]
        ]
      ]
    ]
  ]

-- a request of `/refresh`: the token that it presents, the ids that it draws and its clock
pub record Request (Token : Type 0) : Type 0 where
  pub token : Token
  pub access_jti : Uuid
  pub refresh_jti : Uuid
  pub clock : ℕ → ℕ

pub data Stage (Token : Type 0) : Type 0 where
  received : Stage Token
  checked : Checked → Stage Token
  answered : Result (TokenOut Token) → Stage Token

-- two requests before one database
pub record Server (Token : Type 0) : Type 0 where
  pub db : Backend
  pub one : Stage Token
  pub other : Stage Token

pub data Turn : Type 0 where
  one : Turn
  other : Turn

module _ {Token : Type 0} (config : Config) (jwt : Jwt Token) where
  abbrev pub after_check : Result Checked → Stage Token
  after_check (ok c) = Stage.checked c
  after_check (err code detail) = Stage.answered (err code detail)

  -- A request reads in its first turn, writes in its second and is answered then.
  unfoldable pub advance : Request Token → Stage Token → Backend → Stage Token × Backend
  advance r Stage.received s =
      let (result, s') = check config jwt r.token r.clock s in (after_check result, s')
  advance r (Stage.checked c) s =
      let (result, s') = rotate config jwt r.access_jti r.refresh_jti r.clock c s in
      (Stage.answered result, s')
  advance r (Stage.answered result) s = (Stage.answered result, s)

  unfoldable pub turn : Request Token → Request Token → Turn → Server Token → Server Token
  turn a b Turn.one v = let (stage, s) = advance a v.one v.db in record v { db = s; one = stage }
  turn a b Turn.other v =
      let (stage, s) = advance b v.other v.db in record v { db = s; other = stage }

  unfoldable pub turns : Request Token → Request Token → List Turn → Server Token → Server Token
  turns a b [] v = v
  turns a b (w ∷ ws) v = turns a b ws (turn a b w v)

  abbrev pub arrived : Backend → Server Token
  arrived s = record { db = s; one = Stage.received; other = Stage.received }
