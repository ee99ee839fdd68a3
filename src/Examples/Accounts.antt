-- ===== src/Examples/Accounts.antt =====
-- The theorems on sessions and accounts at one concrete world.
use onecrawler_backend.Prelude.{ℕ, Bool, ◌≤◌, ◌≡◌, refl, none, some, [], ◌∷◌, ◌++◌, arith}
use onecrawler_backend.Tables.{find, count}
use onecrawler_backend.Exec.{Result, ok, err}
use onecrawler_backend.Models.{Users, RefreshSession}
use onecrawler_backend.Backend.{Backend}
use onecrawler_backend.Auth.{
  Claims, CurrentUser, get_current_user, create_access_token, create_refresh_token,
  decode_access_token, user_by_id,
}
use onecrawler_backend.Auth.Sessions.{has_jti, new_session}
use onecrawler_backend.Users.Register.{RegisterRequest, register, new_user}
use onecrawler_backend.Users.Login.{login, TokenOut}
use onecrawler_backend.Users.Logout.{logout}
use onecrawler_backend.Users.Refresh.{refresh}
use onecrawler_backend.Users.Account.{ChangePasswordRequest, change_password, change_email}
use onecrawler_backend.Users.Rotation.{refresh_once}
use onecrawler_backend.Users.Race.{Request, Stage, Turn, turns, arrived}
use onecrawler_backend.Users.Interleaved.{Accepts, session_of, turns_race}
use onecrawler_backend.Users.Distinct.{
  AreDistinct, has_email, is_user, register-AreDistinct, change_email-AreDistinct,
}
use onecrawler_backend.Users.Chain.{refresh-chain}
use onecrawler_backend.Users.Blocklist.{logout_ends_access}
use onecrawler_backend.Users.Revocation.{change_password_ends_sessions}
use onecrawler_backend.Users.Onboarding.{register-login}
use onecrawler_backend.Examples.{world, config, jwt, hasher, alice}

-- Alice's refresh token, and the world with its session
abbrev refresh_token : Claims
refresh_token = record {
  sub = 1;
  email = none;
  user_type = none;
  name = none;
  kind = "refresh";
  jti = 50;
  iat = 0;
  exp = 604800;
}

abbrev session : RefreshSession
session = new_session 1 50 604800000 0

abbrev signed_in : Backend
signed_in = record world { refresh_sessions = session ∷ [] }

abbrev at : ℕ → ℕ → ℕ
at base n = base

abbrev refreshed : Result (TokenOut Claims) × Backend
refreshed = refresh config jwt refresh_token 51 52 (at 1000) signed_in

abbrev refreshed_out : TokenOut Claims
refreshed_out = record {
  access_token = create_access_token config jwt 1 alice.email alice.user_type alice.name 51 1000;
  refresh_token = (create_refresh_token config jwt 1 52 1000).0;
  expires_in = 1800;
}

refresh_once_example :
    refresh config jwt refresh_token 53 54 (at 2000) refreshed.1
    ≡ (err 401 "Invalid or expired refresh token", refreshed.1)
unfolding refresh decode_access_token
refresh_once_example =
    refresh_once config jwt refresh_token 51 52 53 54 (at 1000) (at 2000) signed_in refreshed.1
      refreshed_out refl

refresh-chain_example :
    (claims : Claims) × (user : Users) × (last : Backend) × (jwt.decode 1000 refresh_token
      ≡ some claims)
    × (user_by_id claims.sub signed_in ≡ some user)
    × (refresh config jwt refreshed_out.refresh_token 53 54 (at 2000) refreshed.1 ≡ (
      ok (record {
        access_token =
            create_access_token config jwt user.id user.email user.user_type user.name 53 2000;
        refresh_token = (create_refresh_token config jwt user.id 54 2000).0;
        expires_in = 1800;
      }),
      last,
    ))
unfolding refresh decode_access_token
refresh-chain_example =
    refresh-chain config jwt refresh_token 51 52 53 54 (at 1000) (at 2000) signed_in refreshed.1
      refreshed_out refl refl (omega arith) (omega arith) (omega arith)

-- two requests with Alice's refresh token at one time
abbrev one_request : Request Claims
one_request = record { token = refresh_token; access_jti = 51; refresh_jti = 52; clock = at 1000 }

abbrev other_request : Request Claims
other_request = record { token = refresh_token; access_jti = 53; refresh_jti = 54; clock = at 1000 }

one_Accepts : Accepts config jwt one_request signed_in refresh_token session alice
one_Accepts = record {
  decoded = refl;
  kind = refl;
  found = refl;
  was_open = refl;
  unexpired = refl;
  of_user = refl;
  active = refl;
}

other_Accepts : Accepts config jwt other_request signed_in refresh_token session alice
other_Accepts = record {
  decoded = refl;
  kind = refl;
  found = refl;
  was_open = refl;
  unexpired = refl;
  of_user = refl;
  active = refl;
}

turns_race_example :
    (x y : TokenOut Claims) × (last : Backend) × (turns config jwt one_request other_request
        (Turn.one ∷ Turn.other ∷ Turn.one ∷ Turn.other ∷ [])
        (arrived config jwt signed_in)
      ≡ record { db = last; one = Stage.answered (ok x); other = Stage.answered (ok y) })
    × (find (has_jti 52) last.refresh_sessions ≡ some (session_of config jwt one_request alice))
    × (find (has_jti 54) last.refresh_sessions ≡ some (session_of config jwt other_request alice))
turns_race_example =
    turns_race config jwt one_request other_request signed_in refresh_token session alice
      one_Accepts other_Accepts refl refl refl

-- Alice's access token and what it stands for
abbrev access_token : Claims
access_token = record {
  sub = 1;
  email = some "alice@example.com";
  user_type = some "user";
  name = some "Alice";
  kind = "access";
  jti = 40;
  iat = 0;
  exp = 1800;
}

abbrev current : CurrentUser
current = record {
  id = 1;
  email = "alice@example.com";
  user_type = "user";
  name = "Alice";
  jti = 40;
  exp = 1800;
}

logout_ends_access_example :
    let after = (logout config jwt (some refresh_token) current (at 1500) signed_in).1 in
    get_current_user config jwt 2000 access_token after
    ≡ (err 401 "Invalid or expired token", after)
unfolding get_current_user
logout_ends_access_example =
    logout_ends_access config jwt (some refresh_token) access_token current (at 1500) 1000 2000
      signed_in refl (omega arith)

abbrev new_password : ChangePasswordRequest
new_password = record { current_password = "secret"; new_password = "better" }

abbrev changed : Backend
changed = (change_password hasher 1 new_password 1000 signed_in).1

change_password_ends_sessions_example :
    refresh config jwt refresh_token 53 54 (at 2000) changed
    ≡ (err 401 "Invalid or expired refresh token", changed)
unfolding change_password
change_password_ends_sessions_example =
    change_password_ends_sessions config jwt hasher 1 new_password 1000 signed_in changed
      refresh_token refresh_token session 53 54 (at 2000) refl refl refl refl

abbrev bob : RegisterRequest
bob = record { name = "Bob"; email = "bob@example.com"; password = "hunter2" }

register-login_example :
    login config jwt hasher
      (record { email = "bob@example.com"; password = "hunter2" })
      60
      61
      (at 3000)
      (register hasher bob 2 world).1
    ≡ (
      ok (record {
        access_token = create_access_token config jwt 2 "bob@example.com" "user" bob.name 60 3000;
        refresh_token = (create_refresh_token config jwt 2 61 3000).0;
        expires_in = 1800;
      }),
      record (register hasher bob 2 world).1 {
        refresh_sessions =
            (register hasher bob 2 world).1.refresh_sessions
            ++ record {
              jti = 61;
              user_id = 2;
              created_at = 3000;
              expires_at = (create_refresh_token config jwt 2 61 3000).1;
              revoked_at = none;
            }
              ∷ [];
      },
    )
unfolding register
register-login_example =
    register-login config jwt hasher bob 2 60 61 (at 3000) world (register hasher bob 2 world).1
      (new_user hasher bob 2) refl

-- at most one, as Alice is the only user
one_at_most : (p : Users → Bool) → count p (alice ∷ []) ≤ 1
one_at_most p = ground arith

register-AreDistinct_example : AreDistinct (register hasher bob 2 world).1.users
register-AreDistinct_example =
    register-AreDistinct hasher bob 2 world refl
      ((λ e. one_at_most (has_email e)), (λ id. one_at_most (is_user id)))

change_email-AreDistinct_example :
    AreDistinct
      (change_email hasher 1
        (record { email = "a@example.com"; password = "secret" })
        world).1.users
change_email-AreDistinct_example =
    change_email-AreDistinct hasher 1 (record { email = "a@example.com"; password = "secret" })
      world ((λ e. one_at_most (has_email e)), (λ id. one_at_most (is_user id)))
