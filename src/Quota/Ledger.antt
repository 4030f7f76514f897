-- ===== src/Quota/Ledger.antt =====
-- The ledger of credit grants, `SeaOrmQuotaStore` in src/quota/store.rs.
use lite_agentify.Prelude.{
  ℕ, String, Bool, true, not, ◌||◌, Option, none, some, List, [], ◌∷◌, ◌++◌, map, any, filter, take,
  unwrap_or, ◌==◌, nat_eq, leb,
}
use lite_agentify.Prelude.Map.{Map, get, insert}
use lite_agentify.Prelude.Effects.{pure, ◌>>=◌}
use lite_agentify.Model.{Uuid, DateTime}
use lite_agentify.Decimal.{DecimalOps}
use lite_agentify.Quota.Entity.{GrantRow}
use lite_agentify.Account.Database.{
  ColumnJson, Server, Database, Db, order_by, select, new_uuid, utc_now, insert_into,
}

module _ (d : DecimalOps) (j : ColumnJson) where
  pub record GrantRecord : Type 0 where
    pub id : Uuid
    pub user_id : Uuid
    pub amount_usd : d.Decimal
    pub note : Option String
    pub granted_by : Uuid
    pub created_at : DateTime

  abbrev pub grant_record : GrantRow d.Decimal → GrantRecord
  grant_record row = record {
    id = row.id;
    user_id = row.user_id;
    amount_usd = row.amount_usd;
    note = row.note;
    granted_by = row.granted_by;
    created_at = row.created_at;
  }

  abbrev pub is_granted : Option Uuid → GrantRow d.Decimal → Bool
  is_granted none row = true
  is_granted (some id) row = row.user_id == id

  abbrev pub add_grant : GrantRow d.Decimal → Map Uuid d.Decimal → Map Uuid d.Decimal
  add_grant row sums =
      insert row.user_id (d.add (unwrap_or (get row.user_id sums) d.zero_decimal) row.amount_usd)
        sums

  -- `SUM(amount_usd) ... GROUP BY user_id`.
  unfoldable pub sum_grants : List (GrantRow d.Decimal) → Map Uuid d.Decimal → Map Uuid d.Decimal
  unfolding get insert
  sum_grants [] sums = sums
  sum_grants (row ∷ rows) sums = sum_grants rows (add_grant row sums)

  module _ (s : Server) where
    -- An id is unique, and both users must be there.
    abbrev pub breaks_ledger : GrantRow d.Decimal → Database d j → Bool
    breaks_ledger row db =
        any (λ g. g.id == row.id) db.credit_grants
        || not (any (λ u. u.id == row.user_id) db.users)
        || not (any (λ u. u.id == row.granted_by) db.users)

    abbrev pub insert_grant : GrantRow d.Decimal → Db d j (GrantRow d.Decimal)
    insert_grant row =
        insert_into d j s (breaks_ledger row)
          (λ db. record db { credit_grants = db.credit_grants ++ (row ∷ []) })
          "failed to append credit grant" row

    -- The amount is kept as its numeric(20, 10) column rounds it.
    unfoldable pub append_grant :
        (user_id : Uuid)
        → d.Decimal
        → (note : Option String) → (granted_by : Uuid) → Db d j GrantRecord
    append_grant user_id amount_usd note granted_by = do
      id ← new_uuid d j s
      created_at ← utc_now d j s
      inserted ← insert_grant (record {
        id = id;
        user_id = user_id;
        amount_usd = d.numeric_20_10 amount_usd;
        note = note;
        granted_by = granted_by;
        created_at = created_at;
      })
      pure (grant_record inserted)

    unfoldable pub list_grants : Option Uuid → (limit : ℕ) → Db d j (List GrantRecord)
    list_grants user_id limit = do
      rows ← select d j s "failed to list credit grants" (λ db. take limit (
          order_by (λ g h. leb h.created_at g.created_at)
            (filter (is_granted user_id) db.credit_grants)))
      pure (map grant_record rows)

    unfoldable pub grant_sums : Db d j (Map Uuid d.Decimal)
    unfolding sum_grants
    grant_sums = select d j s "failed to sum credit grants" (λ db. sum_grants db.credit_grants [])
