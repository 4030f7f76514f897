-- ===== src/Reload/Tests.antt =====
-- Runs and instances for src/reload.rs: a catalog that is taken over, and a file that is gone.
use lite_agentify.Prelude.{
  ◌≡◌, refl, some, none, Result, ok, err, String, if◌then◌else◌, ◌==◌, string_eq, [], ◌∷◌,
}
use lite_agentify.Config.{RetryConfig, default_retry}
use lite_agentify.Decimal.{fixed}
use lite_agentify.Reload.{SharedGatewayState, store_catalog, reload, unreadable}
use lite_agentify.Reload.Serving.{Settled, store_catalog-Settled, reload-Settled}
use lite_agentify.Samples.Gateway.{catalog, open_gateway, any_uri}

abbrev read_file : String → Result String RetryConfig
read_file path = if path == "gateway.toml" then ok default_retry else err "no such file"

abbrev shared : SharedGatewayState fixed
shared = record { state = open_gateway; reload_path = some "gateway.toml"; catalog = catalog }

abbrev lost : SharedGatewayState fixed
lost = record shared { reload_path = some "gone.toml" }

taken_over : (store_catalog fixed read_file any_uri 9 catalog shared).0 ≡ ok tt
unfolding store_catalog lite_agentify.Pricing.pricing_map lite_agentify.Pricing.check_entry
    lite_agentify.Prelude.Text.is_blank lite_agentify.Prelude.Text.all_ascii_uppercase
    lite_agentify.Prelude.Map.get lite_agentify.Prelude.Map.insert
    lite_agentify.Build.build_providers lite_agentify.Build.check_provider
    lite_agentify.Build.build_model_map lite_agentify.Build.build_retry
taken_over = refl

store_catalog-Settled_example :
    Settled fixed read_file any_uri 9 catalog shared
      (store_catalog fixed read_file any_uri 9 catalog shared)
store_catalog-Settled_example = store_catalog-Settled fixed read_file any_uri 9 catalog shared

not_read : reload fixed read_file any_uri 9 lost ≡ (err (unreadable "no such file"), lost)
unfolding reload
not_read = refl

read_again : (reload fixed read_file any_uri 9 shared).0 ≡ ok tt
unfolding reload lite_agentify.Pricing.pricing_map lite_agentify.Pricing.check_entry
    lite_agentify.Prelude.Text.is_blank lite_agentify.Prelude.Text.all_ascii_uppercase
    lite_agentify.Prelude.Map.get lite_agentify.Prelude.Map.insert
    lite_agentify.Build.build_providers lite_agentify.Build.check_provider
    lite_agentify.Build.build_model_map lite_agentify.Build.build_retry
read_again = refl

-- A reload that succeeds, of the shared state with the sample catalog.
reload-Settled_example :
    Settled fixed read_file any_uri 9 catalog shared (reload fixed read_file any_uri 9 shared)
reload-Settled_example = reload-Settled fixed read_file any_uri 9 shared
