-- ===== src/Pricing/Cost.antt =====
-- The sign of a cost, `calculate_cost` in src/pricing/calc.rs.
use lite_agentify.Prelude.{
  String, true, false, ◌≡◌, Option, none, some, List, [], ◌∷◌, pair_eq, find_map, ok, arith, inl,
  inr, Option-cases,
}
use lite_agentify.Prelude.Map.{get, insert, get-insert}
use lite_agentify.Prelude.Int.{ℤ, pos, negsuc, neg_part, max_ℤ, saturating_sub}
use lite_agentify.Decimal.{DecimalOps, DecimalLaws}
use lite_agentify.Domain.{TokenUsage}
use lite_agentify.Pricing.{
  PricingConfig, Pricing, PricingMap, check_entry, pricing_map_from, pricing_map, key_of,
  pricing_of, lookup_pricing, fallback_keys, calculate_cost, cost_with, cost_at, add_class,
  token_cost, count_or_zero,
}

find_map-elim {ℓ κ μ} :
    {A : Type ℓ} {B : Type κ} (P : B → Type μ) (f : A → Option B) (xs : List A)
    → ((a : A) (b : B) → f a ≡ some b → P b)
    → (b : B) → find_map f xs ≡ some b
    → P b
find_map-elim P f [] h b e = cc
find_map-elim P f (x ∷ xs) h b e = elim (Option-cases (f x)) [
  | inl skip ↦ find_map-elim P f xs h b (ground arith)
  | inr (c, found) ↦ h x b (ground arith)
]

max-zero_nonneg : (z : ℤ) → neg_part (max_ℤ z (pos 0)) ≡ 0
max-zero_nonneg z = ground arith

module _ (d : DecimalOps) where
  open d use {Decimal, zero_decimal, is_sign_negative, ge, of_i64, add}

  abbrev IsPrice : Option Decimal → Type 0
  IsPrice none = Unit
  IsPrice (some p) = is_sign_negative p ≡ false

  -- No price of the rule is negative.
  abbrev HasPrices : Pricing d → Type 0
  HasPrices p =
      (is_sign_negative p.input_per_1m ≡ false)
      × (is_sign_negative p.output_per_1m ≡ false)
      × IsPrice p.cached_input_per_1m
      × IsPrice p.cache_read_per_1m
      × IsPrice p.cache_write_per_1m

  check_entry-HasPrices :
      (e : PricingConfig d) → check_entry d e ≡ ok tt → HasPrices (pricing_of d e)
  unfolding check_entry pricing_of
  check_entry-HasPrices e h = ground arith

  pricing_map_from-HasPrices :
      (es : List (PricingConfig d)) (m m' : PricingMap d) (k : String × String) (p : Pricing d)
      → pricing_map_from d es m ≡ ok m'
      → (get k m ≡ some p → HasPrices p)
      → get k m' ≡ some p
      → HasPrices p
  unfolding pricing_map_from
  pricing_map_from-HasPrices [] m m' k p h old g = ground arith
  pricing_map_from-HasPrices (e ∷ es) m m' k p h old g = ground (
    arith,
    check_entry-HasPrices e,
    get-insert (key_of d e) k (pricing_of d e) m,
    pricing_map_from-HasPrices es (insert (key_of d e) (pricing_of d e) m) m' k p,
  )

  -- The map of an accepted rule set holds no negative price.
  pricing_map-HasPrices :
      (es : List (PricingConfig d)) (m : PricingMap d) (k : String × String) (p : Pricing d)
      → pricing_map d es ≡ ok m
      → get k m ≡ some p
      → HasPrices p
  unfolding pricing_map get
  pricing_map-HasPrices es m k p h g = pricing_map_from-HasPrices es [] m k p h (λ e. cc) g

  lookup-HasPrices :
      (es : List (PricingConfig d)) (m : PricingMap d) (provider model : String) (p : Pricing d)
      → pricing_map d es ≡ ok m
      → lookup_pricing d m provider model ≡ some p
      → HasPrices p
  unfolding lookup_pricing
  lookup-HasPrices es m provider model p h g =
      find_map-elim HasPrices (λ k. get k m) (fallback_keys d provider model)
        (λ k q e. pricing_map-HasPrices es m k q h e) p g

  module _ (laws : DecimalLaws d) where
    -- Not below zero.
    abbrev NonNeg : Decimal → Type 0
    NonNeg a = ge a zero_decimal ≡ true

    add-NonNeg : (a b : Decimal) → NonNeg a → NonNeg b → NonNeg (add a b)
    add-NonNeg a b h k = laws.ge_trans (add a b) a zero_decimal (laws.add-ge a b k) h

    token_cost-NonNeg :
        (tokens : ℤ) (price : Decimal)
        → neg_part tokens ≡ 0
        → is_sign_negative price ≡ false
        → NonNeg (token_cost d tokens price)
    unfolding token_cost
    token_cost-NonNeg (pos n) price t p =
        laws.div-nonneg _ 999999
          (laws.mul-nonneg _ _ (laws.nonneg-of_i64 n) (laws.nonneg-sign price p))
    token_cost-NonNeg (negsuc n) price t p = absurd (omega arith)

    add_class-NonNeg :
        (cost : Decimal) (tokens : ℤ) (price : Option Decimal)
        → NonNeg cost
        → neg_part tokens ≡ 0
        → IsPrice price
        → NonNeg (add_class d cost tokens price)
    unfolding add_class
    add_class-NonNeg cost tokens none h t p = h
    add_class-NonNeg cost tokens (some price) h t p =
        add-NonNeg cost (token_cost d tokens price) h (token_cost-NonNeg tokens price t p)

    -- The counts that a cost reads are not negative.
    abbrev pub HasCounts : TokenUsage → Type 0
    HasCounts u =
        (neg_part (count_or_zero d u.output_tokens) ≡ 0)
        × (neg_part (count_or_zero d u.cached_input_tokens) ≡ 0)
        × (neg_part (count_or_zero d u.cache_read_tokens) ≡ 0)
        × (neg_part (count_or_zero d u.cache_write_tokens) ≡ 0)

    abbrev regular_tokens : TokenUsage → ℤ
    regular_tokens u =
        saturating_sub (count_or_zero d u.input_tokens) (count_or_zero d u.cached_input_tokens)

    cost_at-NonNeg :
        (p : Pricing d) (u : TokenUsage) → HasPrices p → HasCounts u → NonNeg (cost_at d p u)
    unfolding cost_at
    cost_at-NonNeg p u h c =
        add_class-NonNeg _ (count_or_zero d u.cache_write_tokens) p.cache_write_per_1m
          (add_class-NonNeg _ (count_or_zero d u.cache_read_tokens) p.cache_read_per_1m
            (add_class-NonNeg _ (count_or_zero d u.cached_input_tokens) p.cached_input_per_1m
              (add-NonNeg _ _
                (token_cost-NonNeg _ p.input_per_1m (max-zero_nonneg (regular_tokens u)) h.0)
                (token_cost-NonNeg (count_or_zero d u.output_tokens) p.output_per_1m c.0 h.1))
              c.1 h.2)
            c.2 h.3)
          c.3 h.4

    -- Under an accepted rule set no request costs less than nothing: where a cost is produced, and
    -- the output and cache counts are not negative, it is at least zero, whatever the input count
    -- and however many cached tokens are taken off it.
    pub calculate_cost-nonneg :
        (es : List (PricingConfig d)) (m : PricingMap d) (provider : String) (model : Option String)
        (usage : TokenUsage) (cost : Decimal) (currency : String) (source : Option String)
        → pricing_map d es ≡ ok m
        → HasCounts usage
        → calculate_cost d m provider model usage ≡ some (cost, currency, source)
        → NonNeg cost
    unfolding calculate_cost cost_with
    calculate_cost-nonneg es m provider none usage cost currency source h c e = cc
    calculate_cost-nonneg es m provider (some model) usage cost currency source h c e =
        elim (Option-cases (lookup_pricing d m provider model)) [
          | inl missing ↦ ground arith
          | inr (p, found) ↦
              let priced = lookup-HasPrices es m provider model p h found in
              ground (arith, cost_at-NonNeg p usage priced c)
        ]
