-- ===== src/Users/Interleaved.antt =====
-- Two requests that present one refresh token, by the order of their turns.
use mathlib.Core.Path.{subst}
use onecrawler_backend.Prelude.{
  ◌*◌, ◌≡◌, ◌∙◌, refl, sym, inl, inr, true, false, none, some, List, [], ◌∷◌, ◌++◌, arith, str_eq,
  ltb, ◌==◌, ==_iff, ==_refl, Bool-cases,
}
use onecrawler_backend.Tables.{find, update}
use onecrawler_backend.Tables.Laws.{find-append, find-append_some, find-update_other, find_matches}
use onecrawler_backend.Exec.{Result, ok, err, proceed, ◌>>=◌}
use onecrawler_backend.Models.{Uuid, Users, RefreshSession}
use onecrawler_backend.Backend.{Backend}
use onecrawler_backend.Auth.{
  Config, Jwt, Claims, decode_access_token, user_by_id, create_access_token, create_refresh_token,
}
use onecrawler_backend.Auth.Sessions.{has_jti, revoked, new_session, record_refresh_session}
use onecrawler_backend.Users.Login.{TokenOut}
use onecrawler_backend.Users.Refresh.{refresh}
use onecrawler_backend.Users.Race.{
  Checked, retire, check, rotate, check-rotate, Request, Stage, Turn, after_check, advance, turn,
  turns, arrived,
}

module _ {Token : Type 0} (config : Config) (jwt : Jwt Token) where
  abbrev whole : Request Token → Backend → Result (TokenOut Token) × Backend
  whole r s = refresh config jwt r.token r.access_jti r.refresh_jti r.clock s

  advance_checked :
      (r : Request Token) (p : Result Checked × Backend) (q : Result (TokenOut Token) × Backend)
      → (let (c, s) = p in proceed c (rotate config jwt r.access_jti r.refresh_jti r.clock) s) ≡ q
      → advance config jwt r (after_check config jwt p.0) p.1 ≡ (Stage.answered q.0, q.1)
  unfolding advance
  advance_checked r (ok c, s) q h = rw h refl
  advance_checked r (err code detail, s) q h = rw (sym h) refl

  advance_twice :
      (r : Request Token) (s : Backend)
      → advance config jwt r
          (advance config jwt r Stage.received s).0
          (advance config jwt r Stage.received s).1
        ≡ (Stage.answered (whole r s).0, (whole r s).1)
  unfolding advance ◌>>=◌
  advance_twice r s =
      advance_checked r (check config jwt r.token r.clock s) (whole r s)
        (check-rotate config jwt r.token r.access_jti r.refresh_jti r.clock s)

  -- Two requests whose turns do not mix are served as by two calls of the handler, one after the
  -- other.
  turns-refresh :
      (a b : Request Token) (s : Backend)
      → turns config jwt a b
          (Turn.one ∷ Turn.one ∷ Turn.other ∷ Turn.other ∷ [])
          (arrived config jwt s)
        ≡ record {
          db = (whole b (whole a s).1).1;
          one = Stage.answered (whole a s).0;
          other = Stage.answered (whole b (whole a s).1).0;
        }
  unfolding turns turn
  turns-refresh a b s = rw (advance_twice a s, advance_twice b (whole a s).1) refl

  -- What makes `refresh` accept the token of a request.
  pub record Accepts (r : Request Token) (s : Backend) (claims : Claims) (session : RefreshSession)
      (user : Users) : Type 0 where
    pub decoded : jwt.decode (r.clock 0) r.token ≡ some claims
    pub kind : str_eq claims.kind "refresh" ≡ true
    pub found : find (has_jti claims.jti) s.refresh_sessions ≡ some session
    pub was_open : session.revoked_at ≡ none
    pub unexpired : ltb session.expires_at (r.clock 1) ≡ false
    pub of_user : user_by_id claims.sub s ≡ some user
    pub active : user.is_active ≡ true

  module _ (s : Backend) (claims : Claims) (session : RefreshSession) (user : Users) where
    check-Accepts :
        (r : Request Token)
        → Accepts r s claims session user
        → check config jwt r.token r.clock s ≡ (ok (record { session = session; user = user }), s)
    unfolding check decode_access_token
    check-Accepts r h =
        rw (h.decoded, h.kind, h.found, h.was_open, h.unexpired, h.of_user, h.active) refl

    -- A new id is not the session's.
    separate :
        (jti : Uuid)
        → find (has_jti claims.jti) s.refresh_sessions ≡ some session
        → find (has_jti jti) s.refresh_sessions ≡ none
        → (session.jti == jti) ≡ false
    separate jti found fresh = elim (Bool-cases (session.jti == jti)) [
      | inr n ↦ n
      | inl e ↦
          let session_jti : session.jti ≡ claims.jti =
            (==_iff session.jti claims.jti).0
              (find_matches (has_jti claims.jti) s.refresh_sessions found) in
          let same : claims.jti ≡ jti = sym session_jti ∙ (==_iff session.jti jti).0 e in
          let there = subst (λ j. find (has_jti j) s.refresh_sessions ≡ some session) same found in
          absurd (cc)
    ]

  -- A session that another one's revocation leaves as it is.
  find_retired :
      (jti old now : Uuid) (rows : List RefreshSession)
      → (old == jti) ≡ false
      → find (has_jti jti) (update (has_jti old) (revoked now) rows) ≡ find (has_jti jti) rows
  find_retired jti old now rows h =
      find-update_other (has_jti jti) (has_jti old) (revoked now) rows (other h) (other h)
    where
      other :
          (old == jti) ≡ false
          → (r : RefreshSession) → (r.jti == old) ≡ true
          → (r.jti == jti) ≡ false
      other d r e = ground (arith, d, e)

  -- the session that a request leaves
  abbrev pub session_of : Request Token → Users → RefreshSession
  session_of r user =
      new_session user.id r.refresh_jti
        (create_refresh_token config jwt user.id r.refresh_jti (r.clock 4)).1 (r.clock 5)

  abbrev issued : Request Token → Users → TokenOut Token
  issued r user = record {
    access_token =
        create_access_token config jwt user.id user.email user.user_type user.name r.access_jti
          (r.clock 3);
    refresh_token = (create_refresh_token config jwt user.id r.refresh_jti (r.clock 4)).0;
    expires_in = config.access_token_expire_minutes * 60;
  }

  abbrev both_rotated :
      Request Token
      → Request Token
      → RefreshSession
      → Users
      → List RefreshSession
      → List RefreshSession
  both_rotated a b session user rows =
      update (has_jti session.jti) (revoked (b.clock 2))
        (update (has_jti session.jti) (revoked (a.clock 2)) rows ++ session_of a user ∷ [])
      ++ session_of b user ∷ []

  module _ (a b : Request Token) (session : RefreshSession) (user : Users)
      (rows : List RefreshSession) where
    first_stays :
        (session.jti == a.refresh_jti) ≡ false
        → find (has_jti a.refresh_jti) rows ≡ none
        → find (has_jti a.refresh_jti) (both_rotated a b session user rows)
          ≡ some (session_of a user)
    first_stays apart fresh = find-append_some (has_jti a.refresh_jti) _ (session_of b user ∷ []) (
        find_retired a.refresh_jti session.jti (b.clock 2)
          (update (has_jti session.jti) (revoked (a.clock 2)) rows ++ session_of a user ∷ []) apart
        ∙ find-append (has_jti a.refresh_jti)
            (update (has_jti session.jti) (revoked (a.clock 2)) rows) (session_of a user ∷ [])
            (find_retired a.refresh_jti session.jti (a.clock 2) rows apart ∙ fresh)
        ∙ rw (==_refl a.refresh_jti) refl)

    second_stands :
        (session.jti == b.refresh_jti) ≡ false
        → find (has_jti b.refresh_jti) rows ≡ none
        → (a.refresh_jti == b.refresh_jti) ≡ false
        → find (has_jti b.refresh_jti) (both_rotated a b session user rows)
          ≡ some (session_of b user)
    second_stands apart fresh differ =
        find-append (has_jti b.refresh_jti) _ (session_of b user ∷ []) (
          find_retired b.refresh_jti session.jti (b.clock 2)
            (update (has_jti session.jti) (revoked (a.clock 2)) rows ++ session_of a user ∷ [])
            apart
          ∙ find-append (has_jti b.refresh_jti)
              (update (has_jti session.jti) (revoked (a.clock 2)) rows) (session_of a user ∷ [])
              (find_retired b.refresh_jti session.jti (a.clock 2) rows apart ∙ fresh)
          ∙ rw differ refl)
        ∙ rw (==_refl b.refresh_jti) refl

  -- A refresh token works twice when it is presented twice at once: of two requests that `refresh`
  -- accepts with the same claims, if both have read before either writes, both are answered with new
  -- tokens, and at the end the new sessions of both stand open, provided that the requests draw
  -- different ids that no session has.
  pub turns_race :
      (a b : Request Token) (s : Backend) (claims : Claims) (session : RefreshSession)
      (user : Users)
      → Accepts a s claims session user
      → Accepts b s claims session user
      → find (has_jti a.refresh_jti) s.refresh_sessions ≡ none
      → find (has_jti b.refresh_jti) s.refresh_sessions ≡ none
      → (a.refresh_jti == b.refresh_jti) ≡ false
      → (x y : TokenOut Token) × (last : Backend) × (turns config jwt a b
            (Turn.one ∷ Turn.other ∷ Turn.one ∷ Turn.other ∷ [])
            (arrived config jwt s)
          ≡ record { db = last; one = Stage.answered (ok x); other = Stage.answered (ok y) })
        × (find (has_jti a.refresh_jti) last.refresh_sessions ≡ some (session_of a user))
        × (find (has_jti b.refresh_jti) last.refresh_sessions ≡ some (session_of b user))
  unfolding turns turn advance rotate retire ◌>>=◌ record_refresh_session
  turns_race a b s claims session user ha hb fresh_a fresh_b differ =
      let apart_a = separate s claims session user a.refresh_jti ha.found fresh_a in
      let apart_b = separate s claims session user b.refresh_jti hb.found fresh_b in
      let last : Backend = record s {
        refresh_sessions = both_rotated a b session user s.refresh_sessions;
      } in
      (
        issued a user,
        issued b user,
        last,
        rw
            (
              check-Accepts s claims session user a ha,
              check-Accepts s claims session user b hb,
              ha.was_open,
            )
            refl,
        first_stays a b session user s.refresh_sessions apart_a fresh_a,
        second_stands a b session user s.refresh_sessions apart_b fresh_b differ,
      )
