-- ===== src/Catalog/Entity.antt =====
-- The rows of the catalog (src/catalog/entity.rs).
use lite_agentify.Prelude.{ℕ, String, Option}
use lite_agentify.Model.{Uuid, DateTime}

pub record ProviderRow (Value : Type 0) : Type 0 where
  pub id : String
  pub protocol : String
  pub base_url : String
  pub api_key : String
  pub anthropic_version : Option String
  pub model_aliases : Value
  pub created_at : DateTime
  pub updated_at : DateTime

pub record ModelRow : Type 0 where
  pub name : String
  pub status : String
  pub created_at : DateTime
  pub updated_at : DateTime

pub record DeploymentRow : Type 0 where
  pub id : Uuid
  pub model_name : String
  pub provider_id : String
  pub upstream_model : String
  pub priority : ℕ

pub record PricingRow (Decimal : Type 0) : Type 0 where
  pub id : Uuid
  pub provider : String
  pub model : String
  pub input_per_1m : Decimal
  pub output_per_1m : Decimal
  pub cached_input_per_1m : Option Decimal
  pub cache_read_per_1m : Option Decimal
  pub cache_write_per_1m : Option Decimal
  pub currency : String
  pub pricing_source : Option String
  pub created_at : DateTime
  pub updated_at : DateTime
