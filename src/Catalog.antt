-- ===== src/Catalog.antt =====
-- The model catalog as the database holds it, and the pricing coverage behind the listing gate
-- (src/catalog/mod.rs).
pub mod Entity
pub mod Providers
pub mod Rules
pub mod Models
pub mod Store
mod Coverage
mod Tests
use lite_agentify.Prelude.{
  String, Bool, ◌&&◌, Option, List, ◌==◌, string_eq, find_map, find, filter, is_none,
}
use lite_agentify.Config.{ProviderConfig}
use lite_agentify.Model.{Uuid, DateTime}
use lite_agentify.Decimal.{DecimalOps}
use lite_agentify.Pricing.{PricingConfig, fallback_keys}

pub record DeploymentConfig : Type 0 where
  pub id : Uuid
  pub provider_id : String
  pub upstream_model : String

pub record ModelConfig : Type 0 where
  pub name : String
  pub enabled : Bool
  pub created_at : DateTime
  pub deployments : List DeploymentConfig

module _ (d : DecimalOps) where
  pub record CatalogSnapshot : Type 0 where
    pub providers : List ProviderConfig
    pub pricing : List (PricingConfig d)
    pub models : List ModelConfig

  -- The rule for exactly this pair.
  abbrev pub rule_at : List (PricingConfig d) → String × String → Option (PricingConfig d)
  rule_at pricing (p, m) = find (λ rule. rule.provider == p && rule.model == m) pricing

  unfoldable pub pricing_rule_for :
      List (PricingConfig d) → String → String → Option (PricingConfig d)
  pricing_rule_for pricing provider model =
      find_map (rule_at pricing) (fallback_keys d provider model)

  abbrev pub is_uncovered : List (PricingConfig d) → DeploymentConfig → Bool
  is_uncovered pricing deployment =
      is_none (pricing_rule_for pricing deployment.provider_id deployment.upstream_model)

  unfoldable pub uncovered_deployments :
      ModelConfig → List (PricingConfig d) → List DeploymentConfig
  uncovered_deployments model pricing = filter (is_uncovered pricing) model.deployments
