-- ===== src/Admin/Models.antt =====
-- The handlers of models and their deployments (src/admin/models_api.rs).
use Prim.Native.String.{◌++◌ as append}
use lite_agentify.Prelude.{
  ℕ, String, Bool, true, not, ◌||◌, none, some, List, [], ◌∷◌, ◌++◌, map, any, filter, ltb,
  is_empty, ◌==◌, string_eq, if◌then◌else◌, Result, ok, err, ◌>>◌, bail_if,
}
use lite_agentify.Prelude.Text.{trim, byte_len, is_empty_text}
use lite_agentify.Config.{RetryConfig, ProviderConfig}
use lite_agentify.Decimal.{DecimalOps}
use lite_agentify.Pricing.{PricingConfig}
use lite_agentify.Build.{UriParser}
use lite_agentify.State.{Arc}
use lite_agentify.Account.Database.{ColumnJson, Server}
use lite_agentify.Catalog.{DeploymentConfig, ModelConfig, uncovered_deployments}
use lite_agentify.Catalog.Providers.{quote, list_providers}
use lite_agentify.Catalog.Rules.{list_pricing}
use lite_agentify.Catalog.Models.{get_model, set_deployments, set_model_status}
use lite_agentify.Catalog.Models as Store
use lite_agentify.Session.{SessionIdentity}
use lite_agentify.Admin.{
  ModelView, Answer, Handler, answer, all_models, model_names, respond, bad_request, not_found,
  conflicting, internal, for_admin, with_store, on_found, refresh_catalog_and_respond,
}
use lite_agentify.Admin.Providers.{with_checked, refusal, refreshed}

abbrev pub Chain : Type 0
Chain = List (String × String)

-- The loop of `validate_deployments`, with the pairs so far; the errors are the texts of
-- `bad_request`.
unfoldable pub resolve_chain : List ProviderConfig → Chain → Chain → Result String Chain
unfolding trim
resolve_chain providers [] resolved = ok resolved
resolve_chain providers ((provider, upstream) ∷ deployments) resolved =
    let provider_id = trim provider in
    let upstream_model = trim upstream in
    do
      bail_if (is_empty_text provider_id) "deployment provider cannot be empty"
      bail_if (is_empty_text upstream_model) "deployment upstream model cannot be empty"
      bail_if (not (any (λ p. p.id == provider_id) providers))
          (quote "deployment references unknown provider '" provider_id "'")
      bail_if (any (λ c. c.0 == provider_id) resolved)
          (quote "provider '" provider_id "' appears more than once in the chain")
      resolve_chain providers deployments (resolved ++ ((provider_id, upstream_model) ∷ []))

abbrev pub at_colon : DeploymentConfig → String
at_colon c = quote c.provider_id ":" c.upstream_model

module _ (d : DecimalOps) (j : ColumnJson) where
  abbrev pub model_view : List (PricingConfig d) → ModelConfig → ModelView d j
  model_view pricing model = record {
    model = model;
    uncovered = map at_colon (uncovered_deployments d model pricing);
  }

  abbrev pub enabled_names : List ModelConfig → List String
  enabled_names models = map (λ m. m.name) (filter (λ m. m.enabled) models)

  -- The model that a chain would make.
  abbrev pub candidate : Server → ℕ → String → Chain → ModelConfig
  candidate s n name deployments = record {
    name = name;
    enabled = true;
    created_at = s.now n;
    deployments =
        map (λ c. record { id = s.new_id n; provider_id = c.0; upstream_model = c.1 }) deployments;
  }

  abbrev pub no_deployment : String → Answer d j
  no_deployment name =
      conflicting d j (quote "model '" name "' cannot be enabled without at least one deployment")

  abbrev pub unpriced_deployment : String → DeploymentConfig → Answer d j
  unpriced_deployment name c = conflicting d j (
      append (quote "model '" name "' cannot be listed: deployment '")
        (append (at_colon c) "' has no pricing rule; add pricing first (wildcards count)"))

  abbrev pub pass_listed : String → Handler d j → List DeploymentConfig → Handler d j
  pass_listed name handler [] = handler
  pass_listed name handler (c ∷ cs) = respond d j (unpriced_deployment name c)

  module _ {E : Type 0} (load_from_path : String → Result E RetryConfig) (parse_uri : UriParser)
      (fresh_counter : Arc) (s : Server) where
    unfoldable pub list_models : SessionIdentity → Handler d j
    unfolding Store.list_models list_pricing uncovered_deployments
    list_models identity = for_admin d j identity (
        with_store d j (Store.list_models d j s) λ found. elim found [
          | err e ↦ respond d j (internal d j "failed to list models")
          | ok models ↦ with_store d j (list_pricing d j s) λ listed. elim listed [
            | err e ↦ respond d j (internal d j "failed to list models")
            | ok rules ↦
                respond d j (
                  answer d j 200 (all_models (map (model_view (map (λ r. r.config) rules)) models)))
          ]
        ])

    unfoldable pub list_model_names : Handler d j
    unfolding Store.list_models
    list_model_names = with_store d j (Store.list_models d j s) λ found. elim found [
      | ok models ↦ respond d j (answer d j 200 (model_names (enabled_names models)))
      | err e ↦ respond d j (internal d j "failed to list models")
    ]

    -- The rest of a handler behind `validate_deployments`.
    unfoldable pub with_chain : Chain → (Chain → Handler d j) → Handler d j
    unfolding list_providers resolve_chain
    with_chain deployments handler = with_store d j (list_providers d j s) λ loaded. elim loaded [
      | err e ↦ respond d j (internal d j "failed to load providers")
      | ok providers ↦ with_checked d j (resolve_chain providers deployments []) handler
    ]

    -- The rest of a handler behind `ensure_listable`, the ids and the time of whose candidate
    -- nothing depends on.
    unfoldable pub with_listable : String → Chain → Handler d j → Handler d j
    unfolding list_pricing uncovered_deployments
    with_listable name deployments handler =
        if is_empty deployments
        then respond d j (no_deployment name)
        else with_store d j (list_pricing d j s) (λ listed. elim listed [
          | err e ↦ respond d j (internal d j "failed to load pricing")
          | ok rules ↦
              pass_listed name handler (
                uncovered_deployments d (candidate s 0 name deployments)
                  (map (λ r. r.config) rules))
        ])

    -- The gate runs only where the model will be enabled.
    abbrev pub with_gate : Bool → String → Chain → Handler d j → Handler d j
    with_gate enabled name deployments handler =
        if enabled then with_listable name deployments handler else handler

    abbrev pub enable_new : Bool → String → Handler d j
    enable_new enabled name =
        if enabled
        then with_store d j (set_model_status d j s name true) (λ outcome. elim outcome [
          | ok found ↦ refreshed d j load_from_path parse_uri fresh_counter s 201
          | err e ↦ respond d j (internal d j "failed to enable model")
        ])
        else refreshed d j load_from_path parse_uri fresh_counter s 201

    unfoldable pub create_model : SessionIdentity → String → Chain → Bool → Handler d j
    unfolding trim with_chain with_listable Store.create_model set_deployments set_model_status
        refresh_catalog_and_respond
    create_model identity given deployments enabled =
        let name = trim given in
        for_admin d j identity (
          if is_empty_text name || ltb 200 (byte_len name)
          then respond d j (bad_request d j "model name must be 1-200 characters")
          else with_chain deployments (λ chain. with_gate enabled name chain (
              with_store d j (Store.create_model d j s name) λ created. elim created [
                | err e ↦ respond d j (refusal d j "failed to create model" e)
                | ok model ↦ with_store d j (set_deployments d j s name chain) (λ saved.
                    elim saved [
                      | err e ↦ respond d j (internal d j "failed to save deployments")
                      | ok found ↦ enable_new enabled name
                    ])
              ])))

    abbrev pub save_model : String → Chain → Bool → Handler d j
    save_model name chain enabled = with_store d j (set_deployments d j s name chain) λ saved.
        elim saved [
          | err e ↦ respond d j (refusal d j "failed to save deployments" e)
          | ok found ↦ with_store d j (set_model_status d j s name enabled) (λ outcome.
              elim outcome [
                | err e ↦ respond d j (internal d j "failed to update model status")
                | ok there ↦ refreshed d j load_from_path parse_uri fresh_counter s 200
              ])
        ]

    -- A model that cannot be loaded counts as missing.
    unfoldable pub update_model : SessionIdentity → String → Chain → Bool → Handler d j
    unfolding get_model with_chain with_listable set_deployments set_model_status
        refresh_catalog_and_respond
    update_model identity name deployments enabled = for_admin d j identity (
        with_store d j (get_model d j s name) λ loaded. elim loaded [
          | err e ↦ respond d j (not_found d j "model not found")
          | ok found ↦ elim found [
            | none ↦ respond d j (not_found d j "model not found")
            | some model ↦
                with_chain deployments
                  λ chain. with_gate enabled name chain (save_model name chain enabled)
          ]
        ])

    unfoldable pub delete_model : SessionIdentity → String → Handler d j
    unfolding Store.delete_model refresh_catalog_and_respond
    delete_model identity name = for_admin d j identity (
        with_store d j (Store.delete_model d j s name) (
          on_found d j (refreshed d j load_from_path parse_uri fresh_counter s 200)
            (not_found d j "model not found") (internal d j "failed to delete model")))
