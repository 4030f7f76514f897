-- ===== src/Admin/ApiKeys/Hidden.antt =====
-- What a stranger learns of a key (src/admin/account_api.rs).
use lite_agentify.Prelude.{
  String, Bool, true, false, not, ◌≡◌, refl, sym, ap, ◌∙◌, inl, inr, Option, none, some, List, find,
  ◌==◌, nat_eq, if◌then◌else◌, Result, ok, Bool-cases, Option-cases,
}
use lite_agentify.Model.{Uuid}
use lite_agentify.Decimal.{DecimalOps}
use lite_agentify.Account.{ApiKeyRecord}
use lite_agentify.Account.Database.{
  ColumnJson, StoreError, Server, KeyRow, Database, statement_down, statement_up,
}
use lite_agentify.Account.Store.{get_key}
use lite_agentify.Session.{SessionIdentity}
use lite_agentify.Admin.{AdminState, Answer, Handler, is_admin, internal}
use lite_agentify.Admin.ApiKeys.{with_own_key, key_missing, revoke_key, update_key}

module _ (d : DecimalOps) (j : ColumnJson) (s : Server)
    (parse_decimal : String → Option d.Decimal) where
  -- There is no such key, or it is somebody else's.
  abbrev pub is_hidden : SessionIdentity → Option (KeyRow d j) → Bool
  is_hidden identity none = true
  is_hidden identity (some row) = not (row.user_id == identity.user_id)

  abbrev pub key_row : Uuid → AdminState d j → Option (KeyRow d j)
  key_row id state = find (λ k. k.id == id) state.database.keys

  -- The answer to a caller for whom the key is hidden.
  abbrev hidden_answer : Bool → Answer d j
  hidden_answer down =
      if down then internal d j "failed to load key" else key_missing d j s parse_decimal

  with_own_key-hidden :
      (identity : SessionIdentity) (id : Uuid) (handler : ApiKeyRecord d → Handler d j)
      (state : AdminState d j)
      → is_admin identity.role ≡ false
      → is_hidden identity (key_row id state) ≡ true
      → (with_own_key d j s parse_decimal identity id handler state).0
        ≡ hidden_answer (s.is_down state.database.statements)
  unfolding get_key
  with_own_key-hidden identity id handler state guest hidden =
      let look : Database d j → Result StoreError (Option (KeyRow d j)) × Database d j =
        λ db. (ok (find (λ (k : KeyRow d j). k.id == id) db.keys), db) in
      elim (Bool-cases (s.is_down state.database.statements)) [
        | inl down ↦
            let fails = statement_down d j s "failed to query api key" look state.database down in
            rw (get_key, fails, down) refl
        | inr up ↦
            let runs = statement_up d j s "failed to query api key" look state.database up in
            elim (Option-cases (key_row id state)) [
              | inl missing ↦ rw (get_key, runs, missing, up) refl
              | inr (row, there) ↦
                  let foreign = sym (ap (is_hidden identity) there) ∙ hidden in
                  rw (get_key, runs, there, guest, foreign, up) refl
            ]
      ]

  -- A caller who is no admin cannot tell the key of somebody else from a key that does not exist:
  -- revoking and updating it, with whatever limits, are answered alike, in states that have sent as
  -- many statements.
  pub foreign_key_hidden :
      (identity : SessionIdentity) (id other : Uuid) (state elsewhere : AdminState d j)
      (allowed_models : Option (List String)) (spend_cap_usd : Option String)
      → is_admin identity.role ≡ false
      → is_hidden identity (key_row id state) ≡ true
      → is_hidden identity (key_row other elsewhere) ≡ true
      → state.database.statements ≡ elsewhere.database.statements
      → ((revoke_key d j s parse_decimal identity id state).0
          ≡ (revoke_key d j s parse_decimal identity other elsewhere).0)
        × ((update_key d j s parse_decimal identity id allowed_models spend_cap_usd state).0
            ≡ (update_key d j s parse_decimal identity other allowed_models spend_cap_usd
                elsewhere).0)
  unfolding revoke_key update_key
  foreign_key_hidden identity id other state elsewhere names cap guest here there together =
      let at = ap (λ n. hidden_answer (s.is_down n)) together in
      (
        with_own_key-hidden identity id _ state guest here
            ∙ at
            ∙ sym (with_own_key-hidden identity other _ elsewhere guest there),
        with_own_key-hidden identity id _ state guest here
            ∙ at
            ∙ sym (with_own_key-hidden identity other _ elsewhere guest there),
      )
