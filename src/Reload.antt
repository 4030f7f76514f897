-- ===== src/Reload.antt =====
-- The state that requests share and its replacement (src/reload.rs).
pub mod Serving
mod Tests
use lite_agentify.Prelude.{String, Option, none, some, Result, ok, err, ◌>>=◌}
use lite_agentify.Prelude.Map.{Map}
use lite_agentify.Model.{Uuid}
use lite_agentify.Config.{RetryConfig}
use lite_agentify.Decimal.{DecimalOps}
use lite_agentify.Account.{ApiKeyMap}
use lite_agentify.Catalog.{CatalogSnapshot}
use lite_agentify.Build.{BuildError, UriParser}
use lite_agentify.State.{
  Arc, GatewayState, from_parts, with_api_keys, with_granted, with_spend_counter,
}

pub data ReloadError (E : Type 0) : Type 0 where
  not_configured : ReloadError E
  unreadable : E → ReloadError E
  invalid : BuildError → ReloadError E

module _ (d : DecimalOps) where
  -- `Inner`; of the `ReloadContext` the path of the file. Its other fields are compared for
  -- warnings.
  pub record SharedGatewayState : Type 0 where
    pub state : GatewayState d
    pub reload_path : Option String
    pub catalog : CatalogSnapshot d

  unfoldable pub store : GatewayState d → SharedGatewayState → SharedGatewayState
  store state shared = record shared { state = state }

  unfoldable pub store_api_keys : ApiKeyMap d → SharedGatewayState → SharedGatewayState
  unfolding store with_api_keys
  store_api_keys api_keys shared = store (with_api_keys d api_keys shared.state) shared

  unfoldable pub store_granted : Map Uuid d.Decimal → SharedGatewayState → SharedGatewayState
  unfolding store with_granted
  store_granted granted shared = store (with_granted d granted shared.state) shared

  module _ {E : Type 0} (load_from_path : String → Result E RetryConfig) (parse_uri : UriParser)
      (fresh_counter : Arc) where
    abbrev pub Outcome : Type 0 → Type 0
    Outcome = Result (ReloadError E)

    abbrev pub or_not_configured : {A : Type 0} → Option A → Outcome A
    or_not_configured none = err not_configured
    or_not_configured (some a) = ok a

    abbrev pub or_unreadable : {A : Type 0} → Result E A → Outcome A
    or_unreadable (ok a) = ok a
    or_unreadable (err e) = err (unreadable e)

    abbrev pub or_invalid : {A : Type 0} → Result BuildError A → Outcome A
    or_invalid (ok a) = ok a
    or_invalid (err e) = err (invalid e)

    -- `from_parts` of a catalog, with what the current state carries over.
    abbrev pub carry_over : GatewayState d → GatewayState d → GatewayState d
    carry_over current next =
        with_spend_counter d current.spend_counter
          (with_granted d current.granted (with_api_keys d current.api_keys next))

    unfoldable pub rebuild :
        Option String → CatalogSnapshot d → GatewayState d → Outcome (GatewayState d)
    unfolding from_parts with_api_keys with_granted with_spend_counter
    rebuild reload_path catalog current = do
      path ← or_not_configured reload_path
      retry ← or_unreadable (load_from_path path)
      next ← or_invalid (
          from_parts d parse_uri retry catalog current.upstream current.usage_recorder
            fresh_counter)
      ok (carry_over current next)

    -- The outcome of an operation together with the shared state after it.
    abbrev pub settle :
        Outcome (GatewayState d)
        → (GatewayState d → SharedGatewayState)
        → SharedGatewayState
        → Outcome (Unit {0}) × SharedGatewayState
    settle (ok next) swap shared = (ok tt, swap next)
    settle (err e) swap shared = (err e, shared)

    unfoldable pub store_catalog :
        CatalogSnapshot d → SharedGatewayState → Outcome (Unit {0}) × SharedGatewayState
    unfolding rebuild store
    store_catalog catalog shared =
        settle (rebuild shared.reload_path catalog shared.state)
          (λ next. store next (record shared { catalog = catalog })) shared

    unfoldable pub reload : SharedGatewayState → Outcome (Unit {0}) × SharedGatewayState
    unfolding rebuild store
    reload shared =
        settle (rebuild shared.reload_path shared.catalog shared.state) (λ next. store next shared)
          shared
