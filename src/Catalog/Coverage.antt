-- ===== src/Catalog/Coverage.antt =====
-- The listing gate (src/catalog/mod.rs) and the billing lookup (src/pricing/calc.rs) agree.
use mathlib.Core.Option
use mathlib.Core.Path.{fun_ext}
use lite_agentify.Prelude.{
  some, is_some, true, String, ◌≡◌, refl, ◌∙◌, Option, none, List, [], ◌∷◌, find_map, pair_eq, ok,
  arith, or_else, eq_iff, string_eq, All, filter, sym, ap, ◌≢◌,
}
use lite_agentify.Prelude.Map.{get, insert, get-insert}
use lite_agentify.Prelude.Int.{pos}
use lite_agentify.Domain.{TokenUsage, has_tokens}
use lite_agentify.Decimal.{DecimalOps}
use lite_agentify.Pricing.{
  PricingConfig, PricingMap, pricing_map_from, pricing_map, key_of, pricing_of, lookup_pricing,
  fallback_keys, calculate_cost, count_or_zero, cost_with,
}
use lite_agentify.Catalog.{
  DeploymentConfig, ModelConfig, rule_at, pricing_rule_for, is_uncovered, uncovered_deployments,
}

map-find_map {ℓ κ μ} :
    {A : Type ℓ} {B : Type κ} {C : Type μ} (g : B → C) (h : A → Option B) (xs : List A)
    → Option.map g (find_map h xs) ≡ find_map (λ x. Option.map g (h x)) xs
map-find_map g h [] = refl
map-find_map g h (x ∷ xs) = ground (arith, map-find_map g h xs)

module _ (d : DecimalOps) where
  -- What the finished map holds at a key: the old entry, or the first rule for that key.
  pricing_map_from-get :
      (es : List (PricingConfig d)) (m m' : PricingMap d) (k : String × String)
      → pricing_map_from d es m ≡ ok m'
      → get k m' ≡ or_else (get k m) (Option.map (pricing_of d) (rule_at d es k))
  unfolding pricing_map_from
  pricing_map_from-get [] m m' k h = ground arith
  pricing_map_from-get (e ∷ es) m m' k h = ground (
    arith,
    pricing_map_from-get es (insert (key_of d e) (pricing_of d e) m) m' k,
    eq_iff e.provider k.0,
    eq_iff e.model k.1,
    get-insert (key_of d e) k (pricing_of d e) m,
  )

  pricing_map-get :
      (es : List (PricingConfig d)) (m : PricingMap d)
      → pricing_map d es ≡ ok m
      → (k : String × String) → get k m ≡ Option.map (pricing_of d) (rule_at d es k)
  unfolding pricing_map get
  pricing_map-get es m h k = pricing_map_from-get es [] m k h

  -- Once a rule set is accepted, the price that billing finds for a provider and a model is that
  -- of the rule which the listing gate finds, and billing finds none exactly if the gate does.
  pub lookup-eq-rule_for :
      (es : List (PricingConfig d)) (m : PricingMap d) (provider model : String)
      → pricing_map d es ≡ ok m
      → lookup_pricing d m provider model
        ≡ Option.map (pricing_of d) (pricing_rule_for d es provider model)
  unfolding lookup_pricing pricing_rule_for
  lookup-eq-rule_for es m provider model h =
      ap (λ f. find_map f (fallback_keys d provider model)) (fun_ext (pricing_map-get es m h))
      ∙ sym (map-find_map (pricing_of d) (rule_at d es) (fallback_keys d provider model))

  -- A deployment of a model that the gate reports no uncovered deployment for.
  covered-rule :
      (pricing : List (PricingConfig d)) (ds : List DeploymentConfig)
      → filter (is_uncovered d pricing) ds ≡ []
      → All (λ c. pricing_rule_for d pricing c.provider_id c.upstream_model ≢ none) ds
  covered-rule pricing [] h = tt
  covered-rule pricing (c ∷ ds) h = (ground arith, covered-rule pricing ds (ground arith))

  -- No cached class of tokens was used.
  abbrev pub IsPlain : TokenUsage → Type 0
  IsPlain u =
      (count_or_zero d u.cached_input_tokens ≡ pos 0)
      × (count_or_zero d u.cache_read_tokens ≡ pos 0)
      × (count_or_zero d u.cache_write_tokens ≡ pos 0)

  billable :
      (es : List (PricingConfig d)) (m : PricingMap d) (usage : TokenUsage)
      → pricing_map d es ≡ ok m
      → has_tokens usage ≡ true
      → IsPlain usage
      → (ds : List DeploymentConfig)
      → All (λ c. pricing_rule_for d es c.provider_id c.upstream_model ≢ none) ds
      → All
          (λ c. is_some (calculate_cost d m c.provider_id (some c.upstream_model) usage) ≡ true)
          ds
  unfolding calculate_cost cost_with
  billable es m usage h t p [] c = tt
  billable es m usage h t p (c ∷ ds) cs = (
    ground (arith, lookup-eq-rule_for es m c.provider_id c.upstream_model h),
    billable es m usage h t p ds cs.1,
  )

  -- Passing the listing gate means being billed: if no deployment of a model is uncovered by an
  -- accepted rule set, then a request that any of its deployments serves, and that reports tokens
  -- without a cached class, gets a cost.
  pub covered_is_billed :
      (es : List (PricingConfig d)) (m : PricingMap d) (model : ModelConfig) (usage : TokenUsage)
      → pricing_map d es ≡ ok m
      → uncovered_deployments d model es ≡ []
      → has_tokens usage ≡ true
      → IsPlain usage
      → All
          (λ c. is_some (calculate_cost d m c.provider_id (some c.upstream_model) usage) ≡ true)
          model.deployments
  unfolding uncovered_deployments
  covered_is_billed es m model usage h u t p =
      billable es m usage h t p model.deployments (covered-rule es model.deployments u)
