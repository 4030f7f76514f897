-- ===== src/Pricing.antt =====
-- Pricing rules: their validation into a map and the cost of a request (src/pricing, with
-- `PricingConfig` of src/config.rs). Money is the `Decimal` of the module Decimal.
mod Validate
mod Cost
mod Tests
use lite_agentify.Prelude.{
  String, Bool, not, ◌&&◌, ◌||◌, Option, none, some, List, [], ◌∷◌, ◌==◌, if◌then◌else◌, pair_eq,
  nat_eq, Result, ok, ◌>>=◌, ◌>>◌, bail_if, find_map, is_none, unwrap_or,
}
use lite_agentify.Prelude.Int.{ℤ, pos, ltb_ℤ, max_ℤ, saturating_sub}
use lite_agentify.Prelude.Map.{Map, get, insert, contains_key}
use lite_agentify.Prelude.Text.{is_blank, all_ascii_uppercase, byte_len}
use lite_agentify.Decimal.{DecimalOps}
use lite_agentify.Domain.{TokenUsage, has_tokens}

-- The messages of `bail!`, with the names that they quote.
pub data PricingError : Type 0 where
  empty_provider empty_model : PricingError
  bad_currency : String → String → PricingError
  negative : String → PricingError
  duplicate : String → String → PricingError

module _ (d : DecimalOps) where
  open d use {Decimal, zero_decimal, of_i64, add, mul, div, is_sign_negative}

  -- `config::PricingConfig`.
  pub record PricingConfig : Type 0 where
    pub provider : String
    pub model : String
    pub input_per_1m : Decimal
    pub output_per_1m : Decimal
    pub cached_input_per_1m : Option Decimal
    pub cache_read_per_1m : Option Decimal
    pub cache_write_per_1m : Option Decimal
    pub currency : String
    pub pricing_source : Option String

  pub record Pricing : Type 0 where
    pub input_per_1m : Decimal
    pub output_per_1m : Decimal
    pub cached_input_per_1m : Option Decimal
    pub cache_read_per_1m : Option Decimal
    pub cache_write_per_1m : Option Decimal
    pub currency : String
    pub pricing_source : Option String

  abbrev pub PricingMap : Type 0
  PricingMap = Map (String × String) Pricing

  unfoldable pub validate_non_negative : String → Decimal → Result PricingError (Unit {0})
  validate_non_negative name value = bail_if (is_sign_negative value) (negative name)

  unfoldable pub validate_optional_non_negative :
      String → Option Decimal → Result PricingError (Unit {0})
  validate_optional_non_negative name none = ok tt
  validate_optional_non_negative name (some value) =
      bail_if (is_sign_negative value) (negative name)

  abbrev pub currency_bad : String → Bool
  currency_bad c = is_blank c || not (byte_len c == 3) || not (all_ascii_uppercase c)

  -- The checks of one entry, in the order of the loop body of `pricing_map`.
  unfoldable pub check_entry : PricingConfig → Result PricingError (Unit {0})
  unfolding validate_non_negative validate_optional_non_negative
  check_entry e = do
    bail_if (is_blank e.provider) empty_provider
    bail_if (is_blank e.model) empty_model
    bail_if (currency_bad e.currency) (bad_currency e.provider e.model)
    validate_non_negative "input_per_1m" e.input_per_1m
    validate_non_negative "output_per_1m" e.output_per_1m
    validate_optional_non_negative "cached_input_per_1m" e.cached_input_per_1m
    validate_optional_non_negative "cache_read_per_1m" e.cache_read_per_1m
    validate_optional_non_negative "cache_write_per_1m" e.cache_write_per_1m

  abbrev pub key_of : PricingConfig → String × String
  key_of e = (e.provider, e.model)

  unfoldable pub pricing_of : PricingConfig → Pricing
  pricing_of e = record {
    input_per_1m = e.input_per_1m;
    output_per_1m = e.output_per_1m;
    cached_input_per_1m = e.cached_input_per_1m;
    cache_read_per_1m = e.cache_read_per_1m;
    cache_write_per_1m = e.cache_write_per_1m;
    currency = e.currency;
    pricing_source = e.pricing_source;
  }

  -- The loop of `pricing_map`, on the map built so far.
  unfoldable pub pricing_map_from : List PricingConfig → PricingMap → Result PricingError PricingMap
  pricing_map_from [] m = ok m
  pricing_map_from (e ∷ es) m = do
    check_entry e
    bail_if (contains_key (key_of e) m) (duplicate e.provider e.model)
    pricing_map_from es (insert (key_of e) (pricing_of e) m)

  unfoldable pub pricing_map : List PricingConfig → Result PricingError PricingMap
  unfolding pricing_map_from
  pricing_map entries = pricing_map_from entries []

  abbrev pub pricing_wildcard : String
  pricing_wildcard = "*"

  -- The keys in the order of the fallback.
  abbrev pub fallback_keys : String → String → List (String × String)
  fallback_keys provider_id upstream_model =
      (provider_id, upstream_model)
      ∷ (provider_id, pricing_wildcard)
      ∷ (pricing_wildcard, upstream_model)
      ∷ (pricing_wildcard, pricing_wildcard)
      ∷ []

  unfoldable pub lookup_pricing : PricingMap → String → String → Option Pricing
  lookup_pricing pricing provider_id upstream_model =
      find_map (λ k. get k pricing) (fallback_keys provider_id upstream_model)

  unfoldable pub token_cost : ℤ → Decimal → Decimal
  token_cost tokens price_per_1m = div (mul (of_i64 tokens) price_per_1m) (of_i64 (pos 1000000))

  -- `if let Some(price) = price { cost += token_cost(tokens, price) }`.
  unfoldable pub add_class : Decimal → ℤ → Option Decimal → Decimal
  add_class cost tokens none = cost
  add_class cost tokens (some price) = add cost (token_cost tokens price)

  -- A class of cached tokens that was used and has no price.
  abbrev pub unpriced : ℤ → Option Decimal → Bool
  unpriced tokens price = ltb_ℤ (pos 0) tokens && is_none price

  abbrev pub count_or_zero : Option ℤ → ℤ
  count_or_zero o = unwrap_or o (pos 0)

  -- The sum that `calculate_cost` builds once the price is known.
  unfoldable pub cost_at : Pricing → TokenUsage → Decimal
  unfolding token_cost add_class
  cost_at price usage =
      let cached_input = count_or_zero usage.cached_input_tokens in
      let input_tokens = count_or_zero usage.input_tokens in
      let regular_input = max_ℤ (saturating_sub input_tokens cached_input) (pos 0) in
      let regular =
        add (token_cost regular_input price.input_per_1m)
          (token_cost (count_or_zero usage.output_tokens) price.output_per_1m) in
      add_class
        (add_class (add_class regular cached_input price.cached_input_per_1m)
          (count_or_zero usage.cache_read_tokens) price.cache_read_per_1m)
        (count_or_zero usage.cache_write_tokens) price.cache_write_per_1m

  unfoldable pub cost_with : Pricing → TokenUsage → Option (Decimal × String × Option String)
  cost_with price usage =
      if unpriced (count_or_zero usage.cached_input_tokens) price.cached_input_per_1m
      then none
      else if unpriced (count_or_zero usage.cache_read_tokens) price.cache_read_per_1m
      then none
      else if unpriced (count_or_zero usage.cache_write_tokens) price.cache_write_per_1m
      then none
      else some (cost_at price usage, price.currency, price.pricing_source)

  unfoldable pub calculate_cost :
      PricingMap → String → Option String → TokenUsage → Option (Decimal × String × Option String)
  calculate_cost pricing provider_id none usage = none
  calculate_cost pricing provider_id (some upstream_model) usage =
      if not (has_tokens usage)
      then none
      else elim (lookup_pricing pricing provider_id upstream_model) [
        | none ↦ none
        | some price ↦ cost_with price usage
      ]
