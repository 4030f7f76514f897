-- ===== src/Admin/Login.antt =====
-- Signing in and out (src/admin/mod.rs).
pub mod Outcome
use lite_agentify.Prelude.{
  ℕ, String, Bool, true, false, ◌&&◌, not, Option, none, some, if◌then◌else◌, Result, ok, err,
}
use lite_agentify.Decimal.{DecimalOps}
use lite_agentify.Account.{UserStatus, UserRecord}
use lite_agentify.Account.Database.{ColumnJson, Server}
use lite_agentify.Account.Store.{find_user_by_username}
use lite_agentify.Session.{
  Instant, SessionIdentity, open_session, get_session, remove_session, is_locked, register_failure,
  clear_failures,
}
use lite_agentify.Admin.{
  AdminState, Answer, Handler, answer, text, done, signed_in, with_store, respond,
}
use lite_agentify.Admin.Password.{Argon2, verify_password}
use lite_agentify.Admin.Cookie.{session_cookie, set_cookie_header}

abbrev pub is_active : UserStatus → Bool
is_active UserStatus.active = true
is_active UserStatus.disabled = false

abbrev pub identity_for : UserRecord → SessionIdentity
identity_for user = record { user_id = user.id; username = user.username; role = user.role }

module _ (d : DecimalOps) (j : ColumnJson) (s : Server) (crypt : Argon2) (show : ℕ → String) where
  abbrev pub invalid_credentials : Answer d j
  invalid_credentials = answer d j 401 (text "invalid credentials")

  -- Whether a user that was looked up may sign in; an unknown name costs a comparison with a dummy
  -- hash, and fails.
  abbrev pub is_verified : Option UserRecord → String → Bool
  is_verified none password = false
  is_verified (some user) password =
      verify_password crypt user.password_hash password && is_active user.status

  -- The rest of `login` for a verified user, whose new session gets a random token.
  abbrev pub sign_in : (now : Instant) → (token : String) → String → UserRecord → Handler d j
  sign_in now token username user state = (
    record {
      status = 200;
      cookie = some (set_cookie_header token (show state.session_ttl));
      reply = signed_in user.username user.role;
    },
    record state {
      limiter = clear_failures username state.limiter;
      sessions = open_session now token (identity_for user) state.session_ttl state.sessions;
    },
  )

  abbrev pub refuse_login : Instant → String → Handler d j
  refuse_login now username state =
      (invalid_credentials, record state { limiter = register_failure now username state.limiter })

  -- The rest of `login` with the user that was found.
  abbrev pub check_login :
      Instant → String → (username password : String) → Option UserRecord → Handler d j
  check_login now token username password none = refuse_login now username
  check_login now token username password (some user) =
      if is_verified (some user) password
      then sign_in now token username user
      else refuse_login now username

  -- The session store reads the clock once more for each of its calls; here they share one reading.
  unfoldable pub login : Instant → (token : String) → (username password : String) → Handler d j
  unfolding is_locked find_user_by_username verify_password open_session register_failure
      clear_failures
  login now token username password state =
      let (locked, limiter) = is_locked now username state.limiter in
      let asked = record state { limiter = limiter } in
      if locked
      then (answer d j 429 (text "too many failed login attempts; try again later"), asked)
      else with_store d j (find_user_by_username d j s username)
          (λ found. elim found [
            | err e ↦ respond d j (answer d j 500 (text "login failed"))
            | ok loaded ↦ check_login now token username password loaded
          ])
          asked

  -- `require_session` in front of a handler.
  unfoldable pub require_session :
      Instant → (cookie : Option String) → (SessionIdentity → Handler d j) → Handler d j
  unfolding session_cookie get_session
  require_session now cookie handler state = elim (session_cookie cookie) [
    | none ↦ (answer d j 401 (text "admin session required"), state)
    | some token ↦
        let (identity, sessions) = get_session now token state.sessions in
        let read = record state { sessions = sessions } in
        elim identity [
          | none ↦ (answer d j 401 (text "admin session required"), read)
          | some who ↦ handler who read
        ]
  ]

  unfoldable pub logout : (cookie : Option String) → Handler d j
  unfolding session_cookie remove_session
  logout cookie state = (
    record { status = 200; cookie = some (set_cookie_header "" "0"); reply = done },
    elim (session_cookie cookie) [
      | none ↦ state
      | some token ↦ record state { sessions = remove_session token state.sessions }
    ],
  )
