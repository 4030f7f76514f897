-- ===== src/Admin/Credits/Granted.antt =====
-- A grant counts at once, `create_grant` in src/admin/credits_api.rs.
use lite_agentify.Prelude.{
  Bool, true, false, String, true, false, ◌≡◌, ◌⊎◌, Option, none, some, [], unwrap_or, nat_eq,
  Result, ok, err,
}
use lite_agentify.Prelude.Map.{Map, get, insert}
use lite_agentify.Prelude.Text.{trim}
use lite_agentify.Model.{Uuid}
use lite_agentify.Decimal.{DecimalOps}
use lite_agentify.Account.Database.{ColumnJson, StoreError, Server, Database}
use lite_agentify.Quota.Ledger.{sum_grants, GrantRecord}
use lite_agentify.Session.{SessionIdentity}
use lite_agentify.Account.{UserRecord}
use lite_agentify.Account.Store.{get_user}
use lite_agentify.Admin.{is_admin, AdminState, Answer, granted, answer, warned, internal}
use lite_agentify.Admin.Credits.{is_zero}

module _ (d : DecimalOps) (j : ColumnJson) (s : Server) (identity : SessionIdentity) where
  -- The sums of the ledger.
  abbrev pub sums_of : Database d j → Map Uuid d.Decimal
  sums_of db = sum_grants d j db.credit_grants []

  -- The outcomes of a grant: it is appended and the snapshot has the sums of the ledger with it; it
  -- is appended and the answer warns that the snapshot is as before; or nothing has changed.
  abbrev pub Granted : Uuid → d.Decimal → AdminState d j → Answer d j × AdminState d j → Type 0
  Granted id amount before (a, after) =
      ((grant : GrantRecord d j) × (grant.user_id ≡ id)
        × (grant.amount_usd ≡ d.numeric_20_10 amount)
        × (grant.granted_by ≡ identity.user_id)
        × (sums_of after.database
            ≡ insert id
                (d.add (unwrap_or (get id (sums_of before.database)) d.zero_decimal)
                  (d.numeric_20_10 amount))
                (sums_of before.database))
        × (((a ≡ answer d j 201 (granted grant))
              × (after.shared.state.granted ≡ sums_of after.database))
            ⊎ ((a ≡ answer d j 201 (warned (granted grant))) × (after.shared ≡ before.shared))))
      ⊎ ((a ≡ internal d j "failed to append grant")
          × (after.shared ≡ before.shared)
          × (after.database.credit_grants ≡ before.database.credit_grants))

  -- The store has found the user.
  abbrev pub is_there : Result StoreError (Option UserRecord) → Bool
  is_there (ok none) = false
  is_there (ok (some user)) = true
  is_there (err e) = false

  -- The caller is no admin, the amount cannot be read or is zero, or there is no such user.
  abbrev pub Refusal : (String → Option d.Decimal) → Uuid → String → AdminState d j → Type 0
  Refusal parse_decimal id text before =
      (is_admin identity.role ≡ false)
      ⊎ (parse_decimal (trim text) ≡ none)
      ⊎ ((amount : d.Decimal) × (parse_decimal (trim text) ≡ some amount)
          × (is_zero d j amount ≡ true))
      ⊎ (is_there (get_user d j s id before.database).0 ≡ false)

  -- The outcomes of the handler: a refusal changes nothing; or an admin grants an amount other than
  -- zero.
  unfoldable pub Outcome :
      (String → Option d.Decimal)
      → Uuid
      → String
      → AdminState d j
      → Answer d j × AdminState d j
      → Type 0
  Outcome parse_decimal id text before (a, after) =
      (Refusal parse_decimal id text before
        × (after.shared ≡ before.shared)
        × (after.database.credit_grants ≡ before.database.credit_grants))
      ⊎ ((amount : d.Decimal) × (is_admin identity.role ≡ true)
          × (parse_decimal (trim text) ≡ some amount)
          × (is_zero d j amount ≡ false)
          × Granted id amount before (a, after))
