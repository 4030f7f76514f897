-- ===== src/Admin/Login/Outcome.antt =====
-- Who gets a session from `login` in src/admin/mod.rs.
use lite_agentify.Prelude.{
  ℕ, ◌+◌, String, true, false, ◌≡◌, refl, sym, subst, ◌⊎◌, inl, inr, Option, none, some, ◌==◌,
  string_eq, ltb, if◌then◌else◌, Result, ok, err, arith, Bool-cases,
}
use lite_agentify.Decimal.{DecimalOps}
use lite_agentify.Account.{UserRecord}
use lite_agentify.Account.Database.{ColumnJson, StoreError, Server, Database}
use lite_agentify.Account.Store.{find_user_by_username}
use lite_agentify.Session.{
  Instant, get_session, open_session, is_locked, register_failure, clear_failures,
}
use lite_agentify.Session.Open.{open_session-get}
use lite_agentify.Admin.{AdminState, Answer, Handler, answer, text, take_outcome, respond}
use lite_agentify.Admin.Password.{Argon2, verify_password}
use lite_agentify.Admin.Login.{
  is_active, identity_for, invalid_credentials, is_verified, check_login, login,
}

module _ (d : DecimalOps) (j : ColumnJson) (s : Server) (crypt : Argon2) (show : ℕ → String) where
  -- What the store has under the name.
  abbrev pub stored : String → AdminState d j → Result StoreError (Option UserRecord)
  stored username state = (find_user_by_username d j s username state.database).0

  -- An active user of this name and password is signed in under the token, until the time to live is
  -- over, and every other token is as before.
  abbrev pub SignedIn :
      Instant → (token username password : String) → (before after : AdminState d j) → Type 0
  SignedIn now token username password before after =
      (user : UserRecord) × (stored username before ≡ ok (some user))
      × (verify_password crypt user.password_hash password ≡ true)
      × (is_active user.status ≡ true)
      × ((later : Instant) (other : String)
          → (get_session later other after.sessions).0 ≡ (
              if token == other
              then if ltb later (now + before.session_ttl) then some (identity_for user) else none
              else (get_session later other before.sessions).0))

  -- The name is unknown, or its user is not active or has another password.
  abbrev pub Unverified : (username password : String) → AdminState d j → Type 0
  Unverified username password before =
      (loaded : Option UserRecord) × (stored username before ≡ ok loaded)
      × (is_verified d j s crypt show loaded password ≡ false)

  -- The outcomes of `login`: the name is locked; the store failed; the credentials are refused and
  -- the failure is counted; or a session is open.
  abbrev pub Outcome :
      Instant
      → (token username password : String) → AdminState d j
      → Answer d j × AdminState d j
      → Type 0
  Outcome now token username password before (a, after) =
      ((a.status ≡ 429)
        × ((is_locked now username before.limiter).0 ≡ true)
        × (after.sessions ≡ before.sessions))
      ⊎ ((a.status ≡ 500)
          × ((e : StoreError) × (stored username before ≡ err e))
          × (after.sessions ≡ before.sessions))
      ⊎ ((a ≡ invalid_credentials d j s crypt show)
          × ((is_locked now username before.limiter).0 ≡ false)
          × Unverified username password before
          × (after.sessions ≡ before.sessions)
          × (after.limiter
              ≡ register_failure now username (is_locked now username before.limiter).1))
      ⊎ ((a.status ≡ 200)
          × ((is_locked now username before.limiter).0 ≡ false)
          × SignedIn now token username password before after)

  abbrev decide :
      Instant
      → (token username password : String) → Result StoreError (Option UserRecord)
      → Handler d j
  decide now token username password found = elim found [
    | err e ↦ respond d j (answer d j 500 (text "login failed"))
    | ok loaded ↦ check_login d j s crypt show now token username password loaded
  ]

  module _ (now : Instant) (token username password : String) (state : AdminState d j) where
    abbrev asked : AdminState d j
    asked = record state { limiter = (is_locked now username state.limiter).1 }

    decided :
        (r : Result StoreError (Option UserRecord) × Database d j)
        → (is_locked now username state.limiter).0 ≡ false
        → stored username state ≡ r.0
        → Outcome now token username password state
            (take_outcome d j (decide now token username password) asked r)
    unfolding open_session register_failure clear_failures
    decided (err e, db) free same = inr (inl (refl, (e, same), refl))
    decided (ok none, db) free same = inr (inr (inl (refl, free, (none, same, refl), refl, refl)))
    decided (ok (some user), db) free same =
        elim (Bool-cases (is_verified d j s crypt show (some user) password)) [
          | inr wrong ↦
              rw (wrong) (inr (inr (inl (refl, free, (some user, same, wrong), refl, refl))))
          | inl right ↦ rw (right) (
              inr (
                inr (
                  inr (
                    refl,
                    free,
                    (
                      user,
                      same,
                      ground (arith, right),
                      ground (arith, right),
                      λ later other.
                          open_session-get state.sessions now later token other (identity_for user)
                            state.session_ttl,
                    ),
                  ))))
        ]

    -- A session is opened only for a name that is not locked, with the password of its active user, and
    -- then for this user alone, under the new token and until its time to live is over; no other
    -- token changes. An unknown name, a disabled user and a wrong password get the same answer and
    -- the same count of the failure. A locked name and a failing store open no session.
    pub login-Outcome :
        Outcome now token username password state
          (login d j s crypt show now token username password state)
    unfolding login
    login-Outcome = elim (Bool-cases (is_locked now username state.limiter).0) [
      | inl locked ↦ rw (login, locked) (inl (refl, refl, refl))
      | inr free ↦
          let call : login d j s crypt show now token username password state
              ≡ take_outcome d j (decide now token username password) asked
                  (find_user_by_username d j s username state.database) =
            rw (login, free) refl in
          subst (Outcome now token username password state) (sym call)
            (decided (find_user_by_username d j s username state.database) free refl)
    ]
