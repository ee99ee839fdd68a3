-- ===== src/Auth/Sessions.antt =====
-- core/sessions.py: the rows behind the refresh tokens.
use onecrawler_backend.Prelude.{
  ℕ, Bool, false, not, ◌&&◌, Option, none, some, ◌==◌, if◌then◌else◌, is_some,
}
use onecrawler_backend.Tables.{find, update, insert}
use onecrawler_backend.Models.{Uuid, RefreshSession}
use onecrawler_backend.Backend.{Backend}

abbrev pub has_jti : Uuid → RefreshSession → Bool
has_jti jti r = r.jti == jti

abbrev pub revoked : ℕ → RefreshSession → RefreshSession
revoked now r = record r { revoked_at = some now }

abbrev pub new_session : Uuid → Uuid → ℕ → ℕ → RefreshSession
new_session user_id jti expires_at now = record {
  jti = jti;
  user_id = user_id;
  created_at = now;
  expires_at = expires_at;
  revoked_at = none;
}

unfoldable pub record_refresh_session : Uuid → Uuid → ℕ → ℕ → Backend → Backend
record_refresh_session user_id jti expires_at now s = record s {
  refresh_sessions = insert (new_session user_id jti expires_at now) s.refresh_sessions;
}

-- `session is not None and session.revoked_at is None`
abbrev pub is_open : Option RefreshSession → Bool
is_open none = false
is_open (some r) = not (is_some r.revoked_at)

unfoldable pub revoke_refresh_session : Uuid → ℕ → Backend → Backend
revoke_refresh_session jti now s =
    if is_open (find (has_jti jti) s.refresh_sessions)
    then record s { refresh_sessions = update (has_jti jti) (revoked now) s.refresh_sessions }
    else s

-- `RefreshSession.user_id == user_id, RefreshSession.revoked_at.is_(None)`
abbrev pub is_open_of : Uuid → RefreshSession → Bool
is_open_of user_id r = r.user_id == user_id && not (is_some r.revoked_at)

unfoldable pub revoke_all_refresh_sessions : Uuid → ℕ → Backend → Backend
revoke_all_refresh_sessions user_id now s = record s {
  refresh_sessions = update (is_open_of user_id) (revoked now) s.refresh_sessions;
}
