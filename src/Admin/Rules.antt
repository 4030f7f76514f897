-- ===== src/Admin/Rules.antt =====
-- The handlers of pricing rules, behind the listing gate (src/admin/catalog_api.rs).
pub mod Passes
pub mod Gate
use Prim.Native.String.{◌++◌ as append}
use lite_agentify.Prelude.{
  String, Bool, true, false, not, ◌||◌, Option, none, some, List, [], ◌∷◌, ◌++◌, map, filter, ◌==◌,
  nat_eq, if◌then◌else◌, Result, ok, err, ◌>>=◌, ◌>>◌, bail_if,
}
use lite_agentify.Prelude.Text.{trim, is_blank, byte_len, all_ascii_uppercase}
use lite_agentify.Model.{Uuid}
use lite_agentify.Config.{RetryConfig}
use lite_agentify.Decimal.{DecimalOps}
use lite_agentify.Pricing.{PricingConfig}
use lite_agentify.Build.{UriParser}
use lite_agentify.State.{Arc}
use lite_agentify.Account.Database.{ColumnJson, StoreError, Server}
use lite_agentify.Catalog.{DeploymentConfig, ModelConfig, uncovered_deployments}
use lite_agentify.Catalog.Providers.{quote}
use lite_agentify.Catalog.Rules.{PricingRecord}
use lite_agentify.Catalog.Rules as Store
use lite_agentify.Catalog.Models.{list_models}
use lite_agentify.Session.{SessionIdentity}
use lite_agentify.Admin.{
  Answer, Handler, answer, all_rules, respond, not_found, conflicting, internal, for_admin,
  with_store, on_found, refresh_catalog_and_respond,
}
use lite_agentify.Admin.Providers.{with_checked, refusal, refreshed}

pub record PricingBody : Type 0 where
  pub provider : String
  pub model : String
  pub input_per_1m : String
  pub output_per_1m : String
  pub cached_input_per_1m : Option String
  pub cache_read_per_1m : Option String
  pub cache_write_per_1m : Option String
  pub currency : String
  pub pricing_source : Option String

module _ (d : DecimalOps) (j : ColumnJson) (parse_decimal : String → Option d.Decimal) where
  abbrev pub parse_rate : String → String → Result String d.Decimal
  parse_rate name value = elim (parse_decimal value) [
    | none ↦ err (append name " must be a decimal number")
    | some decimal ↦
        if d.is_sign_negative decimal then err (append name " cannot be negative") else ok decimal
  ]

  abbrev pub parse_optional_rate : String → Option String → Result String (Option d.Decimal)
  parse_optional_rate name none = ok none
  parse_optional_rate name (some value) =
      if is_blank value then ok none else (do rate ← parse_rate name value; ok (some rate))

  unfoldable pub build_pricing : PricingBody → Result String (PricingConfig d)
  unfolding trim is_blank all_ascii_uppercase
  build_pricing body = do
    bail_if (is_blank body.provider) "provider cannot be empty"
    bail_if (is_blank body.model) "model cannot be empty"
    bail_if
        (not (byte_len (trim body.currency) == 3) || not (all_ascii_uppercase (trim body.currency)))
        "currency must be a three-letter uppercase ISO code"
    input ← parse_rate "input_per_1m" body.input_per_1m
    output ← parse_rate "output_per_1m" body.output_per_1m
    cached_input ← parse_optional_rate "cached_input_per_1m" body.cached_input_per_1m
    cache_read ← parse_optional_rate "cache_read_per_1m" body.cache_read_per_1m
    cache_write ← parse_optional_rate "cache_write_per_1m" body.cache_write_per_1m
    ok (record {
      provider = body.provider;
      model = body.model;
      input_per_1m = input;
      output_per_1m = output;
      cached_input_per_1m = cached_input;
      cache_read_per_1m = cache_read;
      cache_write_per_1m = cache_write;
      currency = trim body.currency;
      pricing_source = body.pricing_source;
    })

  -- The first enabled model that some rules leave without a price, and its deployment.
  unfoldable pub first_uncovered :
      List (PricingConfig d) → List ModelConfig → Option (ModelConfig × DeploymentConfig)
  unfolding uncovered_deployments
  first_uncovered pricing [] = none
  first_uncovered pricing (m ∷ ms) =
      let rest = first_uncovered pricing ms in
      if m.enabled
      then elim (uncovered_deployments d m pricing) [ [] ↦ rest | c ∷ cs ↦ some (m, c) ]
      else rest

  abbrev pub uncovers : ModelConfig × DeploymentConfig → String
  uncovers (m, c) =
      append
        (quote "this pricing change would leave enabled model '" m.name
          "' without coverage for deployment '")
        (append (quote c.provider_id ":" c.upstream_model)
          "'; disable the model or add a replacement rule first")

  abbrev pub configs : List (PricingRecord d j) → List (PricingConfig d)
  configs rules = map (λ r. r.config) rules

  -- The rules without one, and with one replaced.
  abbrev pub without : Uuid → List (PricingRecord d j) → List (PricingRecord d j)
  without id rules = filter (λ r. not (r.id == id)) rules

  abbrev pub replaced : Uuid → PricingConfig d → List (PricingRecord d j) → List (PricingRecord d j)
  replaced id config rules = without id rules ++ (record { id = id; config = config } ∷ [])

  -- The rest of a handler behind a gate that has found no model, or one.
  abbrev pub pass_gate : Handler d j → Option (ModelConfig × DeploymentConfig) → Handler d j
  pass_gate handler none = handler
  pass_gate handler (some found) = respond d j (conflicting d j (uncovers found))

  module _ {E : Type 0} (load_from_path : String → Result E RetryConfig) (parse_uri : UriParser)
      (fresh_counter : Arc) (s : Server) where
    unfoldable pub list_pricing : SessionIdentity → Handler d j
    unfolding Store.list_pricing
    list_pricing identity = for_admin d j identity (
        with_store d j (Store.list_pricing d j s) λ listed. elim listed [
          | ok records ↦ respond d j (answer d j 200 (all_rules records))
          | err e ↦ respond d j (internal d j "failed to list pricing")
        ])

    -- `ensure_pricing_gate`, with the change of the rules.
    unfoldable pub with_pricing_gate :
        (List (PricingRecord d j) → List (PricingRecord d j)) → Handler d j → Handler d j
    unfolding Store.list_pricing list_models first_uncovered
    with_pricing_gate mutate handler = with_store d j (Store.list_pricing d j s) λ listed.
        elim listed [
          | err e ↦ respond d j (internal d j "failed to load pricing")
          | ok rules ↦ with_store d j (list_models d j s) λ found. elim found [
            | err e ↦ respond d j (internal d j "failed to load models")
            | ok models ↦ pass_gate handler (first_uncovered (configs (mutate rules)) models)
          ]
        ]

    abbrev pub on_created : Result StoreError Uuid → Handler d j
    on_created (ok id) = refreshed d j load_from_path parse_uri fresh_counter s 201
    on_created (err e) = respond d j (refusal d j "failed to create pricing" e)

    abbrev pub save_new : PricingConfig d → Handler d j
    save_new config = with_store d j (Store.create_pricing d j s config) on_created

    unfoldable pub create_pricing : SessionIdentity → PricingBody → Handler d j
    unfolding build_pricing Store.create_pricing refresh_catalog_and_respond
    create_pricing identity body =
        for_admin d j identity (with_checked d j (build_pricing body) save_new)

    abbrev pub rule_missing : Answer d j
    rule_missing = not_found d j "pricing rule not found"

    abbrev pub on_updated : Result StoreError Bool → Handler d j
    on_updated (ok true) = refreshed d j load_from_path parse_uri fresh_counter s 200
    on_updated (ok false) = respond d j rule_missing
    on_updated (err e) = respond d j (refusal d j "failed to update pricing" e)

    abbrev pub save_changed : Uuid → PricingConfig d → Handler d j
    save_changed id config =
        with_pricing_gate (replaced id config)
          (with_store d j (Store.update_pricing d j s id config) on_updated)

    unfoldable pub update_pricing : SessionIdentity → Uuid → PricingBody → Handler d j
    unfolding build_pricing with_pricing_gate Store.update_pricing refresh_catalog_and_respond
    update_pricing identity id body =
        for_admin d j identity (with_checked d j (build_pricing body) (save_changed id))

    abbrev pub on_deleted : Result StoreError Bool → Handler d j
    on_deleted =
        on_found d j (refreshed d j load_from_path parse_uri fresh_counter s 200) rule_missing
          (internal d j "failed to delete pricing")

    unfoldable pub delete_pricing : SessionIdentity → Uuid → Handler d j
    unfolding with_pricing_gate Store.delete_pricing refresh_catalog_and_respond
    delete_pricing identity id =
        for_admin d j identity (
          with_pricing_gate (without id)
            (with_store d j (Store.delete_pricing d j s id) on_deleted))
