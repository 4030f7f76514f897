-- ===== src/Pricing/Tests.antt =====
-- Runs and instances for src/pricing.
use lite_agentify.Prelude.{◌≡◌, refl, none, some, ok, true, ◌&&◌, all}
use lite_agentify.Prelude.Int.{pos}
use lite_agentify.Domain.{TokenUsage, default_usage}
use lite_agentify.Decimal.{fixed, fixed_laws}
use lite_agentify.Pricing.{pricing_map, calculate_cost}
use lite_agentify.Pricing.Validate.{is_ok, well_formed, distinct_keys, pricing_map_accepts}
use lite_agentify.Pricing.Cost.{calculate_cost-nonneg}
use lite_agentify.Samples.Gateway.{rules, prices}

abbrev reported : TokenUsage
reported = record default_usage { input_tokens = some (pos 7); output_tokens = some (pos 2) }

rules_accepted : pricing_map fixed rules ≡ ok prices
unfolding pricing_map lite_agentify.Pricing.check_entry lite_agentify.Prelude.Text.is_blank
    lite_agentify.Prelude.Text.all_ascii_uppercase lite_agentify.Prelude.Map.get
    lite_agentify.Prelude.Map.insert lite_agentify.Pricing.pricing_of
rules_accepted = refl

pricing_map_accepts_example :
    is_ok fixed (pricing_map fixed rules)
    ≡ (all (well_formed fixed) rules && distinct_keys fixed rules)
pricing_map_accepts_example = pricing_map_accepts fixed rules

cost_found :
    calculate_cost fixed prices "fast" (some "gpt") reported ≡ some (pos 22, "USD", some "list")
unfolding calculate_cost lite_agentify.Domain.has_tokens lite_agentify.Pricing.lookup_pricing
    lite_agentify.Prelude.Map.get lite_agentify.Pricing.cost_with lite_agentify.Pricing.cost_at
    lite_agentify.Prelude.Int.◌+ℤ◌ lite_agentify.Prelude.Int.saturating_sub
    lite_agentify.Prelude.Int.◌-ℤ◌
cost_found = refl

calculate_cost-nonneg_example : fixed.ge (pos 22) (pos 0) ≡ true
calculate_cost-nonneg_example =
    calculate_cost-nonneg fixed fixed_laws rules prices "fast" (some "gpt") reported (pos 22) "USD"
      (some "list") rules_accepted (refl, refl, refl, refl) cost_found
