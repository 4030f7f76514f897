-- ===== src/Admin/Users.antt =====
-- The handlers of user accounts (src/admin/account_api.rs).
pub mod Lockout
use lite_agentify.Prelude.{
  ℕ, String, Bool, true, false, not, ◌||◌, Option, none, some, ◌==◌, string_eq, nat_eq, ltb,
  if◌then◌else◌, Result, ok, err,
}
use lite_agentify.Prelude.Text.{trim, byte_len, is_empty_text}
use lite_agentify.Model.{Uuid}
use lite_agentify.Decimal.{DecimalOps}
use lite_agentify.Account.{UserStatus, parse_role}
use lite_agentify.Account.Database.{ColumnJson, StoreError, conflict, failed, Server}
use lite_agentify.Account.Store.{get_user, create_user, set_user_status, set_password_hash}
use lite_agentify.Account.Store as Store
use lite_agentify.Session.{SessionIdentity}
use lite_agentify.Admin.{
  AdminState, Answer, Handler, answer, done, one_user, all_users, error, respond, bad_request,
  unauthorized, not_found, internal, for_admin, with_store, on_found, drop_user_sessions,
  refresh_and_respond,
}
use lite_agentify.Admin.Password.{Argon2, verify_password}

abbrev pub min_password_len : ℕ
min_password_len = 8

abbrev pub is_short : String → Bool
is_short password = ltb (byte_len password) min_password_len

module _ (d : DecimalOps) (j : ColumnJson) (s : Server) (crypt : Argon2) where
  abbrev pub too_short : Answer d j
  too_short = bad_request d j "password must be at least 8 characters"

  -- The rest of a handler behind `validate_password` and `hash_password`, in this order.
  abbrev pub with_valid : String → Handler d j → Handler d j
  with_valid password handler = if is_short password then respond d j too_short else handler

  -- The salt is drawn anew for each call, here by the number of statements.
  abbrev pub with_hash : String → (String → Handler d j) → Handler d j
  with_hash password handler state = elim (crypt.hash_password state.database.statements password) [
    | none ↦ (internal d j "failed to hash password", state)
    | some hash ↦ handler hash state
  ]

  abbrev pub no_session_user : Answer d j
  no_session_user = unauthorized d j "session user no longer exists"

  unfoldable pub change_own_password :
      SessionIdentity → (current_password new_password : String) → Handler d j
  unfolding get_user set_password_hash verify_password
  change_own_password identity current_password new_password = with_valid new_password (
      with_store d j (get_user d j s identity.user_id) λ found. elim found [
        | err e ↦ respond d j (internal d j "failed to load user")
        | ok loaded ↦ elim loaded [
          | none ↦ respond d j no_session_user
          | some user ↦
              if not (verify_password crypt user.password_hash current_password)
              then respond d j (unauthorized d j "current password is incorrect")
              else with_hash new_password λ hash.
                with_store d j (set_password_hash d j s identity.user_id hash) (
                  on_found d j (respond d j (answer d j 200 done)) no_session_user
                    (internal d j "failed to update password"))
        ]
      ])

  unfoldable pub list_users : SessionIdentity → Handler d j
  unfolding Store.list_users
  list_users identity = for_admin d j identity (
      with_store d j (Store.list_users d j s) λ listed. elim listed [
        | ok users ↦ respond d j (answer d j 200 (all_users users))
        | err e ↦ respond d j (internal d j "failed to list users")
      ])

  unfoldable pub create_user_account :
      SessionIdentity → (username password role : String) → Handler d j
  unfolding create_user trim parse_role
  create_user_account identity given password role =
      let username = trim given in
      for_admin d j identity (
        if is_empty_text username || ltb 64 (byte_len username)
        then respond d j (bad_request d j "username must be 1-64 characters")
        else with_valid password (elim (parse_role role) [
          | none ↦ respond d j (bad_request d j "role must be 'admin' or 'user'")
          | some parsed ↦ with_hash password λ hash.
              with_store d j (create_user d j s username hash parsed) λ created. elim created [
                | ok user ↦ respond d j (answer d j 201 (one_user user))
                | err e ↦ elim e [
                  | conflict message ↦ respond d j (answer d j 409 (error message))
                  | failed context ↦ respond d j (internal d j "failed to create user")
                ]
              ]
        ]))

  unfoldable pub disable_user : SessionIdentity → Uuid → Handler d j
  unfolding set_user_status refresh_and_respond
  disable_user identity id = for_admin d j identity (
      if id == identity.user_id
      then respond d j (bad_request d j "cannot disable your own account")
      else with_store d j (set_user_status d j s id UserStatus.disabled) (
          on_found d j (λ state. refresh_and_respond d j s done (drop_user_sessions d j id state))
            (not_found d j "user not found") (internal d j "failed to disable user")))

  unfoldable pub enable_user : SessionIdentity → Uuid → Handler d j
  unfolding set_user_status refresh_and_respond
  enable_user identity id = for_admin d j identity (
      with_store d j (set_user_status d j s id UserStatus.active) (
        on_found d j (refresh_and_respond d j s done) (not_found d j "user not found")
          (internal d j "failed to enable user")))

  unfoldable pub reset_password : SessionIdentity → Uuid → String → Handler d j
  unfolding set_password_hash
  reset_password identity id password = for_admin d j identity (
      with_valid password (
        with_hash password λ hash. with_store d j (set_password_hash d j s id hash) (
          on_found d j (λ state. (answer d j 200 done, drop_user_sessions d j id state))
            (not_found d j "user not found") (internal d j "failed to reset password"))))
