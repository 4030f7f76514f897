-- ===== src/Admin/Credits.antt =====
-- The handlers of credits and balances (src/admin/credits_api.rs).
pub mod Granted
use lite_agentify.Prelude.{
  Result, ℕ, String, Bool, ◌&&◌, Option, none, some, List, [], ◌∷◌, map, min, and_then, unwrap_or,
  ◌==◌, nat_eq, if◌then◌else◌, ok, err,
}
use lite_agentify.Prelude.Map.{get}
use lite_agentify.Prelude.Text.{trim, is_empty_text}
use lite_agentify.Model.{Uuid}
use lite_agentify.Decimal.{DecimalOps}
use lite_agentify.Account.{UserRecord}
use lite_agentify.Account.Database.{ColumnJson, StoreError, Server}
use lite_agentify.Account.Store.{get_user, list_users}
use lite_agentify.Quota.{MemoryCounter, get_spend, user}
use lite_agentify.Quota.Ledger.{GrantRecord, append_grant, list_grants}
use lite_agentify.Session.{SessionIdentity}
use lite_agentify.Admin.{
  AdminState, Balance, GrantView, Handler, answer, own_balance, balances, granted, ledger, respond,
  bad_request, not_found, internal, for_admin, with_store, respond_with, refresh_granted,
}

-- The name of a user among the users, later ones first, as in the map that is collected of them.
abbrev pub username_of : List UserRecord → Uuid → Option String
username_of [] id = none
username_of (u ∷ us) id =
    let rest = username_of us id in
    elim rest [ some name ↦ some name | none ↦ if u.id == id then some u.username else none ]

-- `note.map(trim).filter(|note| !note.is_empty())`.
abbrev pub note_of : Option String → Option String
note_of note = and_then note λ given. if is_empty_text (trim given) then none else some (trim given)

module _ (d : DecimalOps) (j : ColumnJson) where
  -- The counter is the one that the snapshot has.
  abbrev pub balance_parts : MemoryCounter d → AdminState d j → Uuid → Balance d j
  balance_parts counter state id =
      let granted = unwrap_or (get id state.shared.state.granted) d.zero_decimal in
      let spent = get_spend d (user id) counter in
      record { granted = granted; spent = spent; left = d.sub granted spent }

  unfoldable pub my_balance : MemoryCounter d → SessionIdentity → Handler d j
  unfolding get get_spend
  my_balance counter identity state =
      (answer d j 200 (own_balance (balance_parts counter state identity.user_id)), state)

  abbrev pub is_zero : d.Decimal → Bool
  is_zero amount = d.ge amount d.zero_decimal && d.ge d.zero_decimal amount

  abbrev pub grant_view : List UserRecord → GrantRecord d j → GrantView d j
  grant_view users grant = record {
    grant = grant;
    username = username_of users grant.user_id;
    grantor = username_of users grant.granted_by;
  }

  module _ (s : Server) where
    unfoldable pub list_balances : MemoryCounter d → SessionIdentity → Handler d j
    unfolding list_users get get_spend
    list_balances counter identity = for_admin d j identity (
        with_store d j (list_users d j s) λ listed. elim listed [
          | err e ↦ respond d j (internal d j "failed to list users")
          | ok users ↦ λ state. (
            answer d j 200
                (balances (map (λ (u : UserRecord). (u, balance_parts counter state u.id)) users)),
            state,
          )
        ])

    -- The grant is appended, and the snapshot takes the new sums.
    abbrev pub grant_to : SessionIdentity → Uuid → d.Decimal → Option String → Handler d j
    grant_to identity id amount note =
        with_store d j (append_grant d j s id amount (note_of note) identity.user_id) λ outcome.
          elim outcome [
            | err e ↦ respond d j (internal d j "failed to append grant")
            | ok grant ↦ λ state. respond_with d j 201 (granted grant) (refresh_granted d j s state)
          ]

    -- With the target of the grant loaded.
    abbrev pub grant_found :
        SessionIdentity
        → Uuid
        → d.Decimal
        → Option String
        → Result StoreError (Option UserRecord)
        → Handler d j
    grant_found identity id amount given (err e) = respond d j (internal d j "failed to load user")
    grant_found identity id amount given (ok none) = respond d j (not_found d j "user not found")
    grant_found identity id amount given (ok (some target)) = grant_to identity id amount given

    unfoldable pub create_grant :
        (parse_decimal : String → Option d.Decimal)
        → SessionIdentity
        → (user_id : Uuid) → (amount_usd : String) → Option String
        → Handler d j
    unfolding trim get_user append_grant refresh_granted
    create_grant parse_decimal identity user_id amount_usd note =
        for_admin d j identity (elim (parse_decimal (trim amount_usd)) [
          | none ↦ respond d j (bad_request d j "amount_usd must be a decimal number")
          | some amount ↦
              if is_zero amount
              then respond d j (bad_request d j "amount_usd cannot be zero")
              else with_store d j (get_user d j s user_id)
                  (grant_found identity user_id amount note)
        ])

    unfoldable pub list_ledger :
        SessionIdentity → (user_id : Option Uuid) → (limit : Option ℕ) → Handler d j
    unfolding list_grants list_users
    list_ledger identity user_id limit = for_admin d j identity (
        with_store d j (list_grants d j s user_id (min (unwrap_or limit 100) 1000)) λ found.
          elim found [
            | err e ↦ respond d j (internal d j "failed to list grants")
            | ok grants ↦ with_store d j (list_users d j s) λ listed. elim listed [
              | err e ↦ respond d j (internal d j "failed to list users")
              | ok users ↦ respond d j (answer d j 200 (ledger (map (grant_view users) grants)))
            ]
          ])
