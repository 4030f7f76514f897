-- ===== src/Pricing/Validate.antt =====
-- What `pricing_map` of src/pricing/config.rs accepts.
use lite_agentify.Prelude.{
  String, Bool, true, false, not, ◌&&◌, ◌||◌, ◌≡◌, refl, and_assoc, ap, ◌∙◌, Option, none, some,
  List, [], ◌∷◌, ◌==◌, any, all, pair_eq, Result, ok, err, arith, bail_if, ◌>>◌,
}
use lite_agentify.Prelude.Map.{get, insert, contains_key, get-insert}
use lite_agentify.Prelude.Text.{is_blank}
use lite_agentify.Decimal.{DecimalOps}
use lite_agentify.Pricing.{
  PricingConfig, Pricing, PricingMap, PricingError, negative, validate_optional_non_negative,
  check_entry, pricing_map_from, pricing_map, key_of, pricing_of, currency_bad,
}

regroup :
    (w c a n f k : Bool)
    → (w && (not c && (a && ((not n && f) && k)))) ≡ ((w && a) && ((not c && f) && (not n && k)))
regroup w c a n f k = ground arith

module _ (d : DecimalOps) where
  abbrev pub is_ok {ℓ} : {A : Type ℓ} → Result PricingError A → Bool
  is_ok (ok a) = true
  is_ok (err e) = false

  abbrev nonneg : Option d.Decimal → Bool
  nonneg none = true
  nonneg (some v) = not (d.is_sign_negative v)

  -- What an entry must satisfy, whatever the order of the checks.
  abbrev pub well_formed : PricingConfig d → Bool
  well_formed e =
      not (is_blank e.provider)
      && not (is_blank e.model)
      && not (currency_bad d e.currency)
      && nonneg (some e.input_per_1m)
      && nonneg (some e.output_per_1m)
      && nonneg e.cached_input_per_1m
      && nonneg e.cache_read_per_1m
      && nonneg e.cache_write_per_1m

  -- No two entries have one key.
  abbrev pub distinct_keys : List (PricingConfig d) → Bool
  distinct_keys [] = true
  distinct_keys (e ∷ es) = not (any (λ o. key_of d e == key_of d o) es) && distinct_keys es

  is_ok-seq {ℓ} :
      {A : Type ℓ} (m : Result PricingError (Unit {0})) (k : Result PricingError A)
      → is_ok (m >> k) ≡ (is_ok m && is_ok k)
  is_ok-seq (ok u) k = refl
  is_ok-seq (err e) k = refl

  is_ok-bail_if : (b : Bool) (e : PricingError) → is_ok (bail_if b e) ≡ not b
  is_ok-bail_if true e = refl
  is_ok-bail_if false e = refl

  is_ok-optional :
      (name : String) (v : Option d.Decimal)
      → is_ok (validate_optional_non_negative d name v) ≡ nonneg v
  unfolding validate_optional_non_negative
  is_ok-optional name none = refl
  is_ok-optional name (some v) = is_ok-bail_if (d.is_sign_negative v) (negative name)

  check_entry-ok : (e : PricingConfig d) → is_ok (check_entry d e) ≡ well_formed e
  unfolding check_entry
  check_entry-ok e = simp (is_ok-seq, is_ok-bail_if, is_ok-optional, and_assoc)

  -- No entry has a key of the map.
  abbrev fresh : PricingMap d → List (PricingConfig d) → Bool
  fresh m es = all (λ o. not (contains_key (key_of d o) m)) es

  contains-insert :
      (k j : String × String) (v : Pricing d) (m : PricingMap d)
      → contains_key j (insert k v m) ≡ (k == j || contains_key j m)
  contains-insert k j v m = rw get-insert (ground arith)

  fresh-insert :
      (e : PricingConfig d) (m : PricingMap d) (es : List (PricingConfig d))
      → fresh (insert (key_of d e) (pricing_of d e) m) es
        ≡ (not (any (λ o. key_of d e == key_of d o) es) && fresh m es)
  fresh-insert e m [] = refl
  fresh-insert e m (o ∷ es) =
      rw (contains-insert (key_of d e) (key_of d o) (pricing_of d e) m, fresh-insert e m es)
        (ground arith)

  fresh-nil : (es : List (PricingConfig d)) → fresh [] es ≡ true
  unfolding get
  fresh-nil [] = refl
  fresh-nil (e ∷ es) = fresh-nil es

  pricing_map_from-ok :
      (es : List (PricingConfig d)) (m : PricingMap d)
      → is_ok (pricing_map_from d es m) ≡ (all well_formed es && (fresh m es && distinct_keys es))
  unfolding pricing_map_from
  pricing_map_from-ok [] m = refl
  pricing_map_from-ok (e ∷ es) m =
      simp (is_ok-seq, is_ok-bail_if, check_entry-ok, pricing_map_from-ok es, fresh-insert)
        (regroup (well_formed e) (contains_key (key_of d e) m) (all well_formed es)
          (any (λ o. key_of d e == key_of d o) es) (fresh m es) (distinct_keys es))

  -- `pricing_map` accepts a rule set exactly if every rule has a provider and a model that are not
  -- blank, a currency of three ASCII capitals and no negative price, and no two rules are for the
  -- same provider and model.
  pub pricing_map_accepts :
      (es : List (PricingConfig d))
      → is_ok (pricing_map d es) ≡ (all well_formed es && distinct_keys es)
  unfolding pricing_map
  pricing_map_accepts es =
      pricing_map_from-ok es []
      ∙ ap (λ b. all well_formed es && (b && distinct_keys es)) (fresh-nil es)
