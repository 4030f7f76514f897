-- ===== src/Build.antt =====
-- The parts of a snapshot, built and validated from the catalog and the retry section: the loops
-- of `GatewayState::from_parts` and `build_model_map` (src/state.rs).
pub mod Closed
use lite_agentify.Prelude.{
  ℕ, String, Bool, true, false, not, ◌&&◌, ◌||◌, Option, none, some, List, [], ◌∷◌, ◌++◌, any, find,
  find_map, filter, is_none, is_empty, is_some, unwrap_or, ◌==◌, string_eq, nat_eq, leb, ltb, map,
  if◌then◌else◌, Result, ok, err, ◌>>=◌, ◌>>◌, bail_if,
}
use lite_agentify.Prelude.Map.{Map, get, insert, contains_key}
use lite_agentify.Prelude.Text.{is_blank, strip_prefix, trim_trailing_slash}
use lite_agentify.Model.{Protocol, protocol_eq, Uuid, Provider, Deployment, ModelEntry, RetryPolicy}
use lite_agentify.Config.{RetryConfig, ProviderConfig}
use lite_agentify.Decimal.{DecimalOps}
use lite_agentify.Pricing.{PricingConfig, PricingMap, PricingError, pricing_map}
use lite_agentify.Catalog.{DeploymentConfig, ModelConfig, CatalogSnapshot}
use lite_agentify.Account.{KeyIdentity, ApiKeyMap, may_call, Digest}
use lite_agentify.Quota.{MemoryCounter, get_spend, user, key}

pub data BuildError : Type 0 where
  pricing : PricingError → BuildError
  empty_provider_id : BuildError
  duplicate_provider invalid_base_url base_url_without_host empty_api_key : String → BuildError
  empty_model_name : BuildError
  unknown_provider : String → String → BuildError
  empty_upstream_model : String → String → BuildError
  duplicate_model : String → BuildError
  bad_max_attempts : BuildError
  bad_delays : ℕ → ℕ → BuildError
  bad_status : ℕ → BuildError

-- `Uri::from_str` of the crate http: none if the text is no URI, or whether it has a scheme and an
-- authority.
abbrev pub UriParser : Type 0
UriParser = String → Option (Bool × Bool)

abbrev pub ProviderMap : Type 0
ProviderMap = Map String Provider

abbrev pub ModelMap : Type 0
ModelMap = Map String ModelEntry

abbrev pub Outcome : Type 0 → Type 0
Outcome = Result BuildError

-- The checks of `from_parts` on one provider, given those before it.
unfoldable pub check_provider : UriParser → ProviderMap → ProviderConfig → Outcome (Unit {0})
check_provider parse_uri providers p = do
  bail_if (is_blank p.id) empty_provider_id
  bail_if (contains_key p.id providers) (duplicate_provider p.id)
  elim (parse_uri p.base_url) [
    | none ↦ err (invalid_base_url p.id)
    | some (scheme, authority) ↦ bail_if (not scheme || not authority) (base_url_without_host p.id)
  ]
  bail_if (is_blank p.api_key) (empty_api_key p.id)

unfoldable pub provider_of : ProviderConfig → Provider
provider_of p = record {
  id = p.id;
  protocol = p.protocol;
  base_url = trim_trailing_slash p.base_url;
  api_key = p.api_key;
  anthropic_version = p.anthropic_version;
}

-- The loop of `from_parts` over the providers.
unfoldable pub build_providers : UriParser → List ProviderConfig → ProviderMap → Outcome ProviderMap
build_providers parse_uri [] providers = ok providers
build_providers parse_uri (p ∷ ps) providers = do
  check_provider parse_uri providers p
  build_providers parse_uri ps (insert p.id (provider_of p) providers)

-- The inner loop of `build_model_map`.
unfoldable pub build_deployments :
    String → ProviderMap → List DeploymentConfig → Outcome (List Deployment)
build_deployments name providers [] = ok []
build_deployments name providers (c ∷ cs) = do
  bail_if (not (contains_key c.provider_id providers)) (unknown_provider name c.provider_id)
  bail_if (is_blank c.upstream_model) (empty_upstream_model name c.provider_id)
  rest ← build_deployments name providers cs
  ok (record { provider_id = c.provider_id; upstream_model = c.upstream_model } ∷ rest)

-- The outer loop of `build_model_map`, on the map built so far.
unfoldable pub build_model_map_from : ProviderMap → List ModelConfig → ModelMap → Outcome ModelMap
unfolding build_deployments
build_model_map_from providers [] models = ok models
build_model_map_from providers (m ∷ ms) models = do
  bail_if (is_blank m.name) empty_model_name
  deployments ← build_deployments m.name providers m.deployments
  bail_if (contains_key m.name models) (duplicate_model m.name)
  build_model_map_from providers ms (
      insert m.name
        (record { enabled = m.enabled; created_at = m.created_at; deployments = deployments })
        models)

unfoldable pub build_model_map : List ModelConfig → ProviderMap → Outcome ModelMap
unfolding build_model_map_from
build_model_map models providers = build_model_map_from providers models []

abbrev pub status_out_of_range : ℕ → Bool
status_out_of_range status = not (leb 100 status && leb status 599)

-- The last checks of `from_parts`, on the retry section.
unfoldable pub build_retry : RetryConfig → Outcome RetryPolicy
build_retry retry = do
  bail_if (ltb retry.max_attempts 1) bad_max_attempts
  bail_if (ltb retry.max_delay_ms retry.base_delay_ms)
      (bad_delays retry.base_delay_ms retry.max_delay_ms)
  elim (find status_out_of_range retry.retryable_statuses) [
    | some status ↦ err (bad_status status)
    | none ↦ ok (record {
      retryable_statuses = retry.retryable_statuses;
      max_attempts = retry.max_attempts;
      base_delay_ms = retry.base_delay_ms;
      max_delay_ms = retry.max_delay_ms;
    })
  ]
