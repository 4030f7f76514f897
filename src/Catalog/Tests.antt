-- ===== src/Catalog/Tests.antt =====
-- Runs and instances for src/catalog/mod.rs.
use mathlib.Core.Option
use lite_agentify.Prelude.{◌≡◌, refl, none, some, ok, true, All, [], is_some}
use lite_agentify.Prelude.Int.{pos}
use lite_agentify.Domain.{TokenUsage, default_usage, has_tokens}
use lite_agentify.Decimal.{fixed}
use lite_agentify.Pricing.{pricing_map, pricing_of, lookup_pricing, calculate_cost}
use lite_agentify.Catalog.{pricing_rule_for, uncovered_deployments}
use lite_agentify.Catalog.Coverage.{lookup-eq-rule_for, covered_is_billed}
use lite_agentify.Samples.Gateway.{rules, prices, small_model}

abbrev reported : TokenUsage
reported = record default_usage { input_tokens = some (pos 7); output_tokens = some (pos 2) }

rules_accepted : pricing_map fixed rules ≡ ok prices
unfolding pricing_map lite_agentify.Pricing.check_entry lite_agentify.Prelude.Text.is_blank
    lite_agentify.Prelude.Text.all_ascii_uppercase lite_agentify.Prelude.Map.get
    lite_agentify.Prelude.Map.insert pricing_of
rules_accepted = refl

all_covered : uncovered_deployments fixed small_model rules ≡ []
unfolding uncovered_deployments pricing_rule_for
all_covered = refl

reported_tokens : has_tokens reported ≡ true
unfolding has_tokens
reported_tokens = refl

lookup-eq-rule_for_example :
    lookup_pricing fixed prices "fast" "gpt"
    ≡ Option.map (pricing_of fixed) (pricing_rule_for fixed rules "fast" "gpt")
lookup-eq-rule_for_example = lookup-eq-rule_for fixed rules prices "fast" "gpt" rules_accepted

covered_is_billed_example :
    All
      (λ c.
        is_some (calculate_cost fixed prices c.provider_id (some c.upstream_model) reported) ≡ true)
      small_model.deployments
covered_is_billed_example =
    covered_is_billed fixed rules prices small_model reported rules_accepted all_covered
      reported_tokens (refl, refl, refl)
