-- ===== src/Account.antt =====
-- Accounts and their API keys: roles, records and the identity behind a key (src/account/mod.rs).
pub mod Keys
pub mod Database
pub mod Store
pub mod Bootstrap
mod Tests
use lite_agentify.Prelude.{
  ℕ, String, Bool, true, Option, none, some, List, any, ◌==◌, string_eq, if◌then◌else◌, nat_eq,
}
use lite_agentify.Model.{Uuid, DateTime}
use lite_agentify.Prelude.Map.{Map}
use lite_agentify.Decimal.{DecimalOps}

pub data Role : Type 0 where
  admin user : Role

abbrev pub role_text : Role → String
role_text admin = "admin"
role_text user = "user"

unfoldable pub parse_role : String → Option Role
parse_role value =
    if value == "admin" then some admin else if value == "user" then some user else none

pub data UserStatus : Type 0 where
  active disabled : UserStatus

pub data KeyStatus : Type 0 where
  active revoked : KeyStatus

abbrev pub user_status_text : UserStatus → String
user_status_text UserStatus.active = "active"
user_status_text UserStatus.disabled = "disabled"

abbrev pub key_status_text : KeyStatus → String
key_status_text KeyStatus.active = "active"
key_status_text KeyStatus.revoked = "revoked"

pub record UserRecord : Type 0 where
  pub id : Uuid
  pub username : String
  pub password_hash : String
  pub role : Role
  pub status : UserStatus
  pub created_at : DateTime

-- The SHA-256 digest of a key, an array of 32 bytes. The digest function itself is an argument.
abbrev pub Digest : Type 0
Digest = List ℕ

module _ (d : DecimalOps) where
  pub record ApiKeyRecord : Type 0 where
    pub id : Uuid
    pub user_id : Uuid
    pub prefix : String
    pub name : String
    pub status : KeyStatus
    pub created_at : DateTime
    pub last_used_at : Option DateTime
    pub allowed_models : Option (List String)
    pub spend_cap_usd : Option d.Decimal

  pub record KeyIdentity : Type 0 where
    pub user_id : Uuid
    pub api_key_id : Uuid
    -- A `HashSet`, of which only membership is asked; `none` is unrestricted.
    pub allowed_models : Option (List String)
    pub spend_cap_usd : Option d.Decimal

  abbrev pub ApiKeyMap : Type 0
  ApiKeyMap = Map Digest KeyIdentity

  unfoldable pub may_call : KeyIdentity → String → Bool
  may_call identity model = elim identity.allowed_models [
    | none ↦ true
    | some allowed ↦ any (λ m. m == model) allowed
  ]
