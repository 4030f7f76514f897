-- ===== src/Catalog/Store.antt =====
-- The catalog that seeds the gateway, `snapshot` in src/catalog/store.rs.
use lite_agentify.Prelude.{map, string_eq, nat_eq}
use lite_agentify.Prelude.Effects.{pure, ◌>>=◌}
use lite_agentify.Decimal.{DecimalOps}
use lite_agentify.Catalog.{CatalogSnapshot}
use lite_agentify.Account.Database.{ColumnJson, Server, Db}
use lite_agentify.Catalog.Providers.{list_providers}
use lite_agentify.Catalog.Rules.{list_pricing}
use lite_agentify.Catalog.Models.{list_models}

module _ (d : DecimalOps) (j : ColumnJson) where
  module _ (s : Server) where
    unfoldable pub snapshot : Db d j (CatalogSnapshot d)
    unfolding list_providers list_pricing list_models
    snapshot = do
      providers ← list_providers d j s
      pricing ← list_pricing d j s
      models ← list_models d j s
      pure
          (record { providers = providers; pricing = map (λ r. r.config) pricing; models = models })
