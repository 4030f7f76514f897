-- ===== src/Quota/Entity.antt =====
-- The rows of the credit ledger (src/quota/entity.rs).
use lite_agentify.Prelude.{String, Option}
use lite_agentify.Model.{Uuid, DateTime}

pub record GrantRow (Decimal : Type 0) : Type 0 where
  pub id : Uuid
  pub user_id : Uuid
  pub amount_usd : Decimal
  pub note : Option String
  pub granted_by : Uuid
  pub created_at : DateTime
