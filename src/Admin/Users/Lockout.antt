-- ===== src/Admin/Users/Lockout.antt =====
-- A disabled user is out at once, `disable_user` in src/admin/account_api.rs.
use lite_agentify.Prelude.{
  String, Bool, true, false, ◌&&◌, ◌≡◌, not, refl, sym, ap, ◌∙◌, subst, ◌⊎◌, inl, inr, Option, none,
  some, List, [], ◌∷◌, any, ◌==◌, nat_eq, string_eq, bytes_eq, Result, ok, err, arith, Bool-cases,
  Option-cases, eq_of_beq, nat_beq,
}
use lite_agentify.Prelude.Map.{get, keep, IsDistinct}
use lite_agentify.Model.{Uuid}
use lite_agentify.Decimal.{DecimalOps}
use lite_agentify.Account.{UserStatus, user_status_text, KeyIdentity, Digest}
use lite_agentify.Account.Database.{ColumnJson, StoreError, Server, UserRow, Database, update_where}
use lite_agentify.Account.Store.{is_active_user, set_user_status}
use lite_agentify.Account.Store.Changes.{Same, UserChanged, change_user-UserChanged}
use lite_agentify.Account.Store.Live.{find_last-some, is_live, live_keys, live_key}
use lite_agentify.State.{HeaderText, authorize}
use lite_agentify.State.Authorize.{authorize-Admits}
use lite_agentify.Session.{SessionIdentity, Instant, get_session}
use lite_agentify.Session.Open.{get_session-remove_user}
use lite_agentify.Admin.Refresh.{refresh_and_respond-Refreshed}
use lite_agentify.Admin.{
  AdminState, Answer, done, warned, is_admin, answer, not_found, internal, on_found, take_outcome,
  refresh_and_respond, drop_user_sessions,
}
use lite_agentify.Admin.Password.{Argon2}
use lite_agentify.Admin.Users.{disable_user}

-- The row of a disabled user.
abbrev disable : UserRow → UserRow
disable row = record row { status = user_status_text UserStatus.disabled }

-- After the update no row with the id is active.
-- After the update no row with the id is active.
none_active :
    (id : Uuid) (users : List UserRow)
    → any (λ u. u.id == id && is_active_user u) (update_where (λ u. u.id == id) disable users)
      ≡ false
none_active id [] = refl
none_active id (u ∷ us) = elim (Bool-cases (u.id == id)) [
  | inl same ↦ rw (same, same) (none_active id us)
  | inr other ↦ rw (other, other) (none_active id us)
]

module _ (d : DecimalOps) (j : ColumnJson) where
  -- What the loaded map resolves is a key of an active owner.
  owner_active :
      (db : Database d j) (digest : Digest) (who : KeyIdentity d)
      → get digest (live_keys d j db) ≡ some who
      → any (λ u. u.id == who.user_id && is_active_user u) db.users ≡ true
  owner_active db digest who h =
      let (row, found, same) = live_key d j db digest who h in
      let live = find_last-some (is_live d j db.users digest) db.keys row found in
      subst (λ w. any (λ u. u.id == w.user_id && is_active_user u) db.users ≡ true) (sym same)
        (ground (arith, live))

  -- Whether a request was let in as the user.
  abbrev pub is_let_in : Uuid → Option (KeyIdentity d) → Bool
  is_let_in id none = false
  is_let_in id (some who) = who.user_id == id

  -- No request is let in as the user, with whatever headers and digests, on the snapshot.
  abbrev pub KeysOut : Uuid → AdminState d j → Type 0
  KeysOut id after =
      (hash : String → Digest) (headers : HeaderText)
      → is_let_in id (authorize d hash after.shared.state headers) ≡ false

  -- No session is one of the user, and every other session is as before.
  abbrev pub SessionsOut : Uuid → AdminState d j → AdminState d j → Type 0
  SessionsOut id before after =
      (now : Instant) (token : String)
      → (get_session now token after.sessions).0
        ≡ keep (λ identity. not (nat_beq identity.user_id id))
            (get_session now token before.sessions).0

  -- In the table the user is not active.
  abbrev pub RowOut : Uuid → AdminState d j → Type 0
  RowOut id after = any (λ u. u.id == id && is_active_user u) after.database.users ≡ false

  -- Nothing that lets anybody in has changed.
  pub record Untouched (before after : AdminState d j) : Type 0 where
    pub sessions : after.sessions ≡ before.sessions
    pub shared : after.shared ≡ before.shared
    pub tables : Same d j before.database after.database

  -- The outcomes of `disable_user`: the user is out; the user is out but for the keys that the
  -- snapshot still has, of which the answer warns; or the request is refused or has failed, for a
  -- reason.
  abbrev pub Disabled : Type 0 → Uuid → AdminState d j → Answer d j × AdminState d j → Type 0
  Disabled Reason id before (a, after) =
      ((a ≡ answer d j 200 done) × KeysOut id after × SessionsOut id before after × RowOut id after)
      ⊎ ((a ≡ answer d j 200 (warned done))
          × (after.shared ≡ before.shared)
          × SessionsOut id before after
          × RowOut id after)
      ⊎ (((a.status == 200) ≡ false) × Reason × Untouched before after)

  keys_out :
      (id : Uuid) (db : Database d j) (after : AdminState d j)
      → any (λ u. u.id == id && is_active_user u) db.users ≡ false
      → after.shared.state.api_keys ≡ live_keys d j db
      → KeysOut id after
  keys_out id db after none_left loaded hash headers =
      elim (Option-cases (authorize d hash after.shared.state headers)) [
        | inl refused ↦ ap (is_let_in id) refused
        | inr (who, admitted) ↦
            let (candidate, offered, known) =
              authorize-Admits d hash after.shared.state headers who admitted in
            let active =
              owner_active db (hash candidate) who
                (ap (get (hash candidate)) (sym loaded) ∙ known) in
            ap (is_let_in id) admitted ∙ (elim (Bool-cases (who.user_id == id)) [
              | inr other ↦ other
              | inl same ↦
                  let here = eq_of_beq who.user_id id same in
                  absurd (
                    cc (
                      sym none_left
                      ∙ ap (λ i. any (λ u. u.id == i && is_active_user u) db.users) (sym here)
                      ∙ active))
            ])
      ]

  -- The store has found and changed the row.
  abbrev pub is_done : Result StoreError Bool → Bool
  is_done (ok found) = found
  is_done (err e) = false

  module _ (s : Server) (crypt : Argon2) where
    -- The caller is no admin or names the own account, or the store has no such user or fails.
    abbrev pub Refusal : SessionIdentity → Uuid → AdminState d j → Type 0
    Refusal identity id before =
        (is_admin identity.role ≡ false)
        ⊎ ((id == identity.user_id) ≡ true)
        ⊎ (is_done (set_user_status d j s id UserStatus.disabled before.database).0 ≡ false)

    disabled :
        (Reason : Type 0) (id : Uuid) (state : AdminState d j) (db : Database d j)
        → IsDistinct state.sessions
        → db.users ≡ update_where (λ u. u.id == id) disable state.database.users
        → Disabled Reason id state (
            refresh_and_respond d j s done
              (drop_user_sessions d j id (record state { database = db })))
    disabled Reason id state db distinct changed =
        let dropped = drop_user_sessions d j id (record state { database = db }) in
        let r = refresh_and_respond-Refreshed d j s done dropped in
        let after = (refresh_and_respond d j s done dropped).1 in
        let row_out : RowOut id after =
          ap (any (λ u. u.id == id && is_active_user u)) (r.tables.0 ∙ changed)
          ∙ none_active id state.database.users in
        let sessions_out : SessionsOut id state after = λ now token.
          ap (λ sessions. (get_session now token sessions).0) r.signed_in
          ∙ get_session-remove_user state.sessions now token id distinct in
        elim r.outcome [
          | inl (answered, loaded) ↦ inl (
            answered,
            keys_out id db after
                (ap (any (λ u. u.id == id && is_active_user u)) changed
                  ∙ none_active id state.database.users)
                loaded,
            sessions_out,
            row_out,
          )
          | inr (answered, kept) ↦ inr (inl (answered, kept, sessions_out, row_out))
        ]

    settled :
        (Reason : Type 0) (id : Uuid) (state : AdminState d j)
        (r : Result StoreError Bool × Database d j)
        → IsDistinct state.sessions
        → UserChanged d j id disable state.database r
        → (is_done r.0 ≡ false → Reason)
        → Disabled Reason id state (
            take_outcome d j
              (on_found d j
                (λ state. refresh_and_respond d j s done (drop_user_sessions d j id state))
                (not_found d j "user not found")
                (internal d j "failed to disable user"))
              state
              r)
    settled Reason id state (ok true, db) distinct changed why =
        disabled Reason id state db distinct changed.0
    settled Reason id state (ok false, db) distinct changed why =
        inr (inr (refl, why refl, record { sessions = refl; shared = refl; tables = changed.1 }))
    settled Reason id state (err e, db) distinct changed why =
        inr (inr (refl, why refl, record { sessions = refl; shared = refl; tables = changed }))

    -- A disabled user is out at once: after a success no request is let in with one of the user's
    -- keys, no token is a session of the user while all others stay, and the row is not active. If
    -- the snapshot could not be refreshed, which the answer tells, the same holds but for the keys.
    -- Any other answer, to a caller who is no admin or who names the own account, for an unknown
    -- user or a failing store, changes nothing. The sessions have each token once.
    pub disable_user-Disabled :
        (identity : SessionIdentity) (id : Uuid) (state : AdminState d j)
        → IsDistinct state.sessions
        → Disabled (Refusal identity id state) id state (disable_user d j s crypt identity id state)
    unfolding disable_user set_user_status
    disable_user-Disabled identity id state distinct =
        let same : Untouched state state = record {
          sessions = refl;
          shared = refl;
          tables = (refl, refl);
        } in
        elim (Bool-cases (is_admin identity.role)) [
          | inr guest ↦ rw (disable_user, guest) (inr (inr (refl, inl refl, same)))
          | inl admitted ↦ elim (Bool-cases (id == identity.user_id)) [
            | inl own ↦ rw (disable_user, admitted, own) (inr (inr (refl, inr (inl refl), same)))
            | inr other ↦
                let call : disable_user d j s crypt identity id state
                    ≡ take_outcome d j
                        (on_found d j
                          (λ state.
                            refresh_and_respond d j s done (drop_user_sessions d j id state))
                          (not_found d j "user not found") (internal d j "failed to disable user"))
                        state (set_user_status d j s id UserStatus.disabled state.database) =
                  rw (disable_user, admitted, other) refl in
                subst (Disabled (Refusal identity id state) id state) (sym call) (
                  settled (Refusal identity id state) id state
                    (set_user_status d j s id UserStatus.disabled state.database) distinct
                    (change_user-UserChanged d j s "failed to update user status" id disable
                      state.database)
                    (λ undone. inr (inr undone)))
          ]
        ]
