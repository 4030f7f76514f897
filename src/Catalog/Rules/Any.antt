-- ===== src/Catalog/Rules/Any.antt =====
-- Which deployments the rules of src/catalog/store.rs cover depends on the rows that there are, and
-- not on their order.
use lite_agentify.Prelude.{
  false, Bool, true, not, ◌&&◌, ◌||◌, ◌≡◌, refl, ap, ◌∙◌, List, [], ◌∷◌, ◌++◌, map, any, filter,
  find, find_map, is_none, if◌then◌else◌, ◌==◌, string_eq, String, arith,
}
use lite_agentify.Decimal.{DecimalOps}
use lite_agentify.Pricing.{PricingConfig, fallback_keys}
use lite_agentify.Catalog.{
  DeploymentConfig, ModelConfig, rule_at, pricing_rule_for, is_uncovered, uncovered_deployments,
}
use lite_agentify.Account.Database.{insert_by, order_by, update_where}

pub any-map {ℓ κ} :
    {A : Type ℓ} {B : Type κ} (p : B → Bool) (f : A → B) (xs : List A)
    → any p (map f xs) ≡ any (λ x. p (f x)) xs
any-map p f [] = refl
any-map p f (x ∷ xs) = ground (arith, any-map p f xs)

pub any-append {ℓ} :
    {A : Type ℓ} (p : A → Bool) (xs ys : List A) → any p (xs ++ ys) ≡ (any p xs || any p ys)
any-append p [] ys = refl
any-append p (x ∷ xs) ys = ground (arith, any-append p xs ys)

pub any-filter {ℓ} :
    {A : Type ℓ} (p q : A → Bool) (xs : List A) → any p (filter q xs) ≡ any (λ x. q x && p x) xs
any-filter p q [] = refl
any-filter p q (x ∷ xs) = ground (arith, any-filter p q xs)

pub any-update_where :
    {A : Type 0} (p q : A → Bool) (f : A → A) (xs : List A)
    → any p (update_where q f xs) ≡ any (λ x. if q x then p (f x) else p x) xs
any-update_where p q f [] = refl
any-update_where p q f (x ∷ xs) = ground (arith, any-update_where p q f xs)

any-insert_by {ℓ} :
    {A : Type ℓ} (p : A → Bool) (before : A → A → Bool) (x : A) (xs : List A)
    → any p (insert_by before x xs) ≡ (p x || any p xs)
any-insert_by p before x [] = refl
any-insert_by p before x (y ∷ ys) = ground (arith, any-insert_by p before x ys)

pub any-order_by {ℓ} :
    {A : Type ℓ} (p : A → Bool) (before : A → A → Bool) (xs : List A)
    → any p (order_by before xs) ≡ any p xs
any-order_by p before [] = refl
any-order_by p before (x ∷ xs) =
    any-insert_by p before x (order_by before xs) ∙ ap (λ b. p x || b) (any-order_by p before xs)

is_none-find {ℓ} : {A : Type ℓ} (p : A → Bool) (xs : List A) → is_none (find p xs) ≡ not (any p xs)
is_none-find p [] = refl
is_none-find p (x ∷ xs) = ground (arith, is_none-find p xs)

any_others {ℓ} :
    {A : Type ℓ} (q p : A → Bool) (xs : List A)
    → any (λ x. not (q x) && p x) xs ≡ true
    → any (λ x. if q x then false else p x) xs ≡ true
any_others q p [] h = h
any_others q p (x ∷ xs) h = ground (arith, any_others q p xs)

-- What the items without some have, or the one that takes their place, the replaced items have.
pub any_at {ℓ} :
    {A : Type ℓ} (q p : A → Bool) (b : Bool) (xs : List A)
    → any q xs ≡ true
    → (any (λ x. not (q x) && p x) xs || b) ≡ true
    → any (λ x. if q x then b else p x) xs ≡ true
any_at q p b [] found h = ground arith
any_at q p true (x ∷ xs) found h = ground (arith, any_at q p true xs)
any_at q p false (x ∷ xs) found h = ground (arith, any_others q p (x ∷ xs))

module _ (d : DecimalOps) where
  -- Every pair that some rules have a rule for, others have one for.
  abbrev pub Covers : (more fewer : List (PricingConfig d)) → Type 0
  Covers more fewer =
      (provider model : String)
      → any (λ r. r.provider == provider && r.model == model) fewer ≡ true
      → any (λ r. r.provider == provider && r.model == model) more ≡ true

  find_map-Covers :
      (more fewer : List (PricingConfig d)) (keys : List (String × String))
      → Covers more fewer
      → is_none (find_map (rule_at d more) keys) ≡ true
      → is_none (find_map (rule_at d fewer) keys) ≡ true
  find_map-Covers more fewer [] covers h = refl
  find_map-Covers more fewer (k ∷ ks) covers h = ground (
    arith,
    is_none-find (λ r. r.provider == k.0 && r.model == k.1) more,
    is_none-find (λ r. r.provider == k.0 && r.model == k.1) fewer,
    covers k.0 k.1,
    find_map-Covers more fewer ks covers,
    h,
  )

  filter-Covers :
      (more fewer : List (PricingConfig d)) (cs : List DeploymentConfig)
      → Covers more fewer
      → filter (is_uncovered d fewer) cs ≡ []
      → filter (is_uncovered d more) cs ≡ []
  unfolding pricing_rule_for
  filter-Covers more fewer [] covers h = refl
  filter-Covers more fewer (c ∷ cs) covers h =
      let here =
        find_map-Covers more fewer (fallback_keys d c.provider_id c.upstream_model) covers in
      ground (arith, here, filter-Covers more fewer cs covers, h)

  -- Rules that cover as much leave no further deployment without a price.
  pub uncovered-Covers :
      (more fewer : List (PricingConfig d)) (m : ModelConfig)
      → Covers more fewer
      → uncovered_deployments d m fewer ≡ []
      → uncovered_deployments d m more ≡ []
  unfolding uncovered_deployments
  uncovered-Covers more fewer m covers h = filter-Covers more fewer m.deployments covers h
