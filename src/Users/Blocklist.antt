-- ===== src/Users/Blocklist.antt =====
-- `logout` of api/users/logout/router.py against `get_current_user` of api/security/dependencies.py.
use mathlib.Core.Path.{subst}
use onecrawler_backend.Prelude.{
  ℕ, ◌+◌, ◌*◌, ◌≤◌, ◌<◌, ◌≡◌, ◌∙◌, sym, ap, inl, inr, true, Option, none, some, arith, ==_refl, ltb,
  str_eq, Option-cases, Bool-cases,
}
use onecrawler_backend.Exec.{Result, ok, err}
use onecrawler_backend.Backend.{Backend}
use onecrawler_backend.Auth.{
  Config, Jwt, Claims, CurrentUser, get_current_user, decode_access_token, is_blocked, user_by_id,
}
use onecrawler_backend.Auth.Sessions.{revoke_refresh_session}
use onecrawler_backend.Users.Logout.{logout, block, block_ttl}

-- the token's fields of a user that a handler returned
abbrev jti_of : Claims → Result CurrentUser → ℕ
jti_of c (ok user) = user.jti
jti_of c (err n d) = c.jti

abbrev exp_of : Claims → Result CurrentUser → ℕ
exp_of c (ok user) = user.exp
exp_of c (err n d) = c.exp

-- The id that a logout blocks is blocked until the token's time of expiry at least.
block-is_blocked :
    (user : CurrentUser) (t0 t1 later : ℕ) (s : Backend)
    → t0 ≤ t1
    → later < user.exp * 1000
    → is_blocked later user.jti (block user.jti (block_ttl user t0) t1 s).blocklist ≡ true
unfolding block
block-is_blocked user t0 t1 later s mono unexpired =
    let listed = ==_refl user.jti in
    let in_time : ltb later (t1 + block_ttl user t0 * 1000) ≡ true = ground arith in
    rw (listed, in_time)

module _ {Token : Type 0} (config : Config) (jwt : Jwt Token) where
  -- The user that a token stands for carries the token's id and its time of expiry.
  current_user_claims :
      (now : ℕ) (token : Token) (user : CurrentUser) (s s' : Backend)
      → get_current_user config jwt now token s ≡ (ok user, s')
      → (c : Claims) × (jwt.decode now token ≡ some c) × (user.jti ≡ c.jti) × (user.exp ≡ c.exp)
  unfolding get_current_user decode_access_token
  current_user_claims now token user s s' e = elim (Option-cases (jwt.decode now token)) [
    | inl n ↦ absurd (ground (arith, n, e))
    | inr (c, d) ↦ elim (Bool-cases (str_eq c.kind "access")) [
      | inr n ↦ absurd (ground (arith, d, n, e))
      | inl k ↦ elim (Bool-cases (is_blocked now c.jti s.blocklist)) [
        | inl n ↦ absurd (ground (arith, d, k, n, e))
        | inr b ↦ elim (Option-cases (user_by_id c.sub s)) [
          | inl n ↦ absurd (ground (arith, d, k, b, n, e))
          | inr (u, g) ↦ elim (Bool-cases u.is_active) [
            | inr n ↦ absurd (ground (arith, d, k, b, g, n, e))
            | inl a ↦
                let same : ok user
                    ≡ ok (record {
                      id = u.id;
                      email = u.email;
                      user_type = u.user_type;
                      name = u.name;
                      jti = c.jti;
                      exp = c.exp;
                    }) =
                  ap (λ (p : Result CurrentUser × Backend). p.0) (sym e) ∙ rw (d, k, b, g, a) in
                (c, d, ap (jti_of c) same, ap (exp_of c) same)
          ]
        ]
      ]
    ]
  ]

  -- A token whose id is blocked is refused.
  blocked_refused :
      (now : ℕ) (token : Token) (c : Claims) (s : Backend)
      → jwt.decode now token ≡ some c
      → is_blocked now c.jti s.blocklist ≡ true
      → get_current_user config jwt now token s ≡ (err 401 "Invalid or expired token", s)
  unfolding get_current_user decode_access_token
  blocked_refused now token c s d b = ground (arith, d, b)

  undecoded_refused :
      (now : ℕ) (token : Token) (s : Backend)
      → jwt.decode now token ≡ none
      → get_current_user config jwt now token s ≡ (err 401 "Invalid or expired token", s)
  unfolding get_current_user decode_access_token
  undecoded_refused now token s d = ground (arith, d)

  -- The blocklist after a logout begins with the token's id.
  logout-blocklist :
      (given : Option Token) (user : CurrentUser) (t : ℕ → ℕ) (s : Backend)
      → (logout config jwt given user t s).1.blocklist
        ≡ (block user.jti (block_ttl user (t 0)) (t 1) s).blocklist
  unfolding logout block revoke_refresh_session
  logout-blocklist given user t s = ground arith

  -- After a logout the access token is refused at every later time: while the token has not
  -- expired its id is on the blocklist, and afterwards it does not decode.
  pub logout_ends_access :
      (given : Option Token) (token : Token) (user : CurrentUser) (t : ℕ → ℕ) (now later : ℕ)
      (s : Backend)
      → get_current_user config jwt now token s ≡ (ok user, s)
      → t 0 ≤ t 1
      → let after = (logout config jwt given user t s).1 in
        get_current_user config jwt later token after ≡ (err 401 "Invalid or expired token", after)
  logout_ends_access given token user t now later s e mono =
      let (c, decoded, same_jti, same_exp) = current_user_claims now token user s s e in
      elim (Option-cases (jwt.decode later token)) [
        | inl n ↦ undecoded_refused later token (logout config jwt given user t s).1 n
        | inr (d, decoded_later) ↦
            let same : c ≡ d = jwt.decode_stable now later token c d decoded decoded_later in
            let expiry : d.exp ≡ user.exp = sym (same_exp ∙ ap (λ (x : Claims). x.exp) same) in
            let id : user.jti ≡ d.jti = same_jti ∙ ap (λ (x : Claims). x.jti) same in
            let unexpired : later < user.exp * 1000 =
              subst (λ x. later < x * 1000) expiry
                (jwt.decode_unexpired later token d decoded_later) in
            blocked_refused later token d (logout config jwt given user t s).1 decoded_later (
              subst (λ j. is_blocked later j (logout config jwt given user t s).1.blocklist ≡ true)
                id
                (rw (logout-blocklist given user t s)
                  (block-is_blocked user (t 0) (t 1) later s mono unexpired)))
      ]
