-- ===== src/Users/SessionList.antt =====
-- api/users/sessions/router.py
use onecrawler_backend.Prelude.{ℕ, ◌&&◌, List, map, ◌==◌, ltb, if◌then◌else◌, is_some}
use onecrawler_backend.Tables.{find, select, update}
use onecrawler_backend.Tables.Order.{order_by_desc}
use onecrawler_backend.Exec.{Exec, gets, or_raise, modify, ◌>>=◌}
use onecrawler_backend.Models.{Uuid, RefreshSession}
use onecrawler_backend.Backend.{Backend}
use onecrawler_backend.Auth.Sessions.{has_jti, revoked, is_open_of, revoke_all_refresh_sessions}

pub record SessionOut : Type 0 where
  pub id : Uuid
  pub created_at : ℕ
  pub expires_at : ℕ

abbrev pub session_out : RefreshSession → SessionOut
session_out r = record { id = r.jti; created_at = r.created_at; expires_at = r.expires_at }

unfoldable pub list_sessions : Uuid → ℕ → Exec Backend (List SessionOut)
unfolding ◌>>=◌
list_sessions user_id now = gets (λ s. map session_out (
    order_by_desc (λ (r : RefreshSession). r.created_at)
      (select (λ r. is_open_of user_id r && ltb now r.expires_at) s.refresh_sessions)))

unfoldable pub revoke_session : Uuid → Uuid → ℕ → Exec Backend (Unit {0})
unfolding ◌>>=◌
revoke_session user_id session_id now = do
  row ← gets (λ s.
      find (λ (r : RefreshSession). r.jti == session_id && r.user_id == user_id) s.refresh_sessions)
  session ← or_raise row 404 "Session not found"
  modify (λ s. if is_some session.revoked_at then s else record s {
    refresh_sessions = update (has_jti session.jti) (revoked now) s.refresh_sessions;
  })

unfoldable pub revoke_all_sessions : Uuid → ℕ → Exec Backend (Unit {0})
unfolding revoke_all_refresh_sessions ◌>>=◌
revoke_all_sessions user_id now = modify (revoke_all_refresh_sessions user_id now)
