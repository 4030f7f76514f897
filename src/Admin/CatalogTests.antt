-- ===== src/Admin/CatalogTests.antt =====
-- Runs and instances for src/admin/catalog_api.rs, src/admin/models_api.rs and
-- src/admin/credits_api.rs.
use Prim.Native.String.{◌++◌ as append}
use lite_agentify.Prelude.{
  arith, ◌<◌, ◌≤◌, ◌⊎◌, ℕ, ◌≡◌, refl, String, Bool, true, false, Option, none, some, List, [], ◌∷◌,
  is_some, Result, ok, err, map, if◌then◌else◌, leb,
}
use lite_agentify.Config.{RetryConfig, default_retry}
use lite_agentify.Decimal.{fixed}
use lite_agentify.Account.Database.{Database, Server}
use lite_agentify.Catalog.Entity.{ProviderRow, PricingRow}
use lite_agentify.Catalog.Models.{set_deployments}
use lite_agentify.Catalog.Models.Succeeds.{IsSmooth}
use lite_agentify.Catalog.Models.Replaced.{Replaced, set_deployments-Replaced}
use lite_agentify.Admin.{AdminState}
use lite_agentify.Admin.Providers.{
  mask_prefix, mask_keeping_suffix, count_chars, build_provider, provider_view,
}
use lite_agentify.Admin.Providers.Masked.{
  mask_keeping_suffix_shows, resubmit, build_provider-resubmit,
}
use lite_agentify.Admin.Rules.{
  PricingBody, first_uncovered, configs, create_pricing, update_pricing, delete_pricing,
}
use lite_agentify.Admin.Rules.Passes.{PassesGate, rules_of, models_of}
use lite_agentify.Admin.Rules.Gate.{pricing_handlers-PassesGate}
use lite_agentify.Admin.Models.{update_model}
use lite_agentify.Admin.Credits.{create_grant}
use lite_agentify.Samples.Accounts.{sample_column, steady, down_at, tables, root, console}
use lite_agentify.Samples.Gateway.{any_uri, fast_config, usd}

abbrev fast_row : ProviderRow sample_column.Value
fast_row = record {
  id = "fast";
  protocol = "openai";
  base_url = "https://fast/";
  api_key = "k1";
  anthropic_version = none;
  model_aliases = sample_column.to_value [];
  created_at = 1;
  updated_at = 1;
}

abbrev gpt_rule : PricingRow fixed.Decimal
gpt_rule = record {
  id = 30;
  provider = "fast";
  model = "gpt";
  input_per_1m = usd 2;
  output_per_1m = usd 4;
  cached_input_per_1m = none;
  cache_read_per_1m = none;
  cache_write_per_1m = none;
  currency = "USD";
  pricing_source = none;
  created_at = 1;
  updated_at = 1;
}

-- An enabled model on a deployment with a price.
abbrev stocked : AdminState fixed sample_column
stocked = record console {
  database = record tables {
    providers = fast_row ∷ [];
    pricing = gpt_rule ∷ [];
    models = record { name = "small"; status = "enabled"; created_at = 1; updated_at = 1 } ∷ [];
    deployments =
        record {
          id = 40;
          model_name = "small";
          provider_id = "fast";
          upstream_model = "gpt";
          priority = 0;
        }
        ∷ [];
  };
}

abbrev read_file : String → Result String RetryConfig
read_file path = ok default_retry

abbrev no_parse : String → Option fixed.Decimal
no_parse text = none

stocked_passes : PassesGate fixed sample_column no_parse steady stocked.database
unfolding first_uncovered lite_agentify.Catalog.Models.with_deployments
    lite_agentify.Catalog.Models.group_rows lite_agentify.Catalog.pricing_rule_for
stocked_passes = refl

abbrev any_body : PricingBody
any_body = record {
  provider = "fast";
  model = "opus";
  input_per_1m = "1";
  output_per_1m = "1";
  cached_input_per_1m = none;
  cache_read_per_1m = none;
  cache_write_per_1m = none;
  currency = "USD";
  pricing_source = none;
}

abbrev one : String → Option fixed.Decimal
one text = some (usd 1)

pricing_handlers-PassesGate_example :
    PassesGate fixed sample_column one steady
      (create_pricing fixed sample_column one read_file any_uri 9 steady root any_body
        stocked).1.database
    × PassesGate fixed sample_column one steady
        (update_pricing fixed sample_column one read_file any_uri 9 steady root 30 any_body
          stocked).1.database
    × PassesGate fixed sample_column one steady
        (delete_pricing fixed sample_column one read_file any_uri 9 steady root 30
          stocked).1.database
unfolding first_uncovered
pricing_handlers-PassesGate_example =
    pricing_handlers-PassesGate fixed sample_column one steady read_file any_uri 9 root 30 any_body
      stocked stocked_passes

-- The last rule of an enabled model is not deleted.
kept_rule :
    (delete_pricing fixed sample_column one read_file any_uri 9 steady root 30 stocked).0.status
    ≡ 409
unfolding delete_pricing lite_agentify.Account.Database.statement
    lite_agentify.Catalog.pricing_rule_for
kept_rule = refl

-- If the status of a model cannot be written after its chain, the model stays enabled without a
-- price.
abbrev half_updated : AdminState fixed sample_column
half_updated =
    (update_model fixed sample_column read_file any_uri 9 (down_at 11) root "small"
      (("fast", "opus") ∷ []) false stocked).1

half_updated_uncovered :
    is_some (
      first_uncovered fixed sample_column no_parse
        (configs fixed sample_column no_parse
          (rules_of fixed sample_column no_parse steady half_updated.database))
        (models_of fixed sample_column no_parse steady half_updated.database))
    ≡ true
unfolding first_uncovered lite_agentify.Catalog.Models.with_deployments update_model
    lite_agentify.Account.Database.statement lite_agentify.Catalog.pricing_rule_for
half_updated_uncovered = refl

mask_of_secret : mask_keeping_suffix "sk-secret-1234" ≡ append mask_prefix "1234"
unfolding mask_keeping_suffix
mask_of_secret = refl

mask_keeping_suffix_shows_example :
    ((count_chars "sk-secret-1234" < 8) × (mask_keeping_suffix "sk-secret-1234" ≡ mask_prefix))
    ⊎ ((front : String) × (last : String) × ("sk-secret-1234" ≡ append front last)
        × (count_chars last ≡ 4)
        × (4 ≤ count_chars front)
        × (mask_keeping_suffix "sk-secret-1234" ≡ append mask_prefix last))
mask_keeping_suffix_shows_example = mask_keeping_suffix_shows "sk-secret-1234"

build_provider-resubmit_example :
    build_provider "fast"
      (resubmit fixed sample_column (provider_view fixed sample_column fast_config))
      (some "k1")
    ≡ ok fast_config
unfolding lite_agentify.Prelude.Text.is_blank
build_provider-resubmit_example = build_provider-resubmit fixed sample_column fast_config refl refl

granted_now : (create_grant fixed sample_column steady one root 2 "1" none console).0.status ≡ 201
unfolding create_grant lite_agentify.Account.Database.statement lite_agentify.Account.parse_role
granted_now = refl

set_deployments-Replaced_example :
    Replaced fixed sample_column steady "small"
      (("fast", "opus") ∷ [])
      stocked.database
      (set_deployments fixed sample_column steady "small" (("fast", "opus") ∷ []) stocked.database)
set_deployments-Replaced_example =
    set_deployments-Replaced fixed sample_column steady "small" (("fast", "opus") ∷ [])
      stocked.database

-- Nothing stands against this chain.
stocked-IsSmooth :
    IsSmooth fixed sample_column steady "small" (("fast", "opus") ∷ []) stocked.database
stocked-IsSmooth = record {
  up = λ n. refl;
  fresh = λ n. ground arith;
  apart = λ n m h. ground arith;
  there = refl;
  once = (refl, tt);
  known = (refl, tt);
}

replaced_now :
    (set_deployments fixed sample_column steady "small" (("fast", "opus") ∷ []) stocked.database).0
    ≡ ok true
unfolding set_deployments lite_agentify.Account.Database.statement
replaced_now = refl
