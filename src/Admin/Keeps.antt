-- ===== src/Admin/Keeps.antt =====
-- What the handlers of src/admin leave as it is, put together from their parts: a predicate of the
-- database that sending a statement does not change.
use lite_agentify.Prelude.{
  ℕ, String, Bool, true, false, inl, inr, List, [], ◌∷◌, Result, ok, err, Bool-cases, Option-cases,
  string_eq, map,
}
use lite_agentify.Prelude.Effects.{pure, feed, ◌>>=◌}
use lite_agentify.Decimal.{DecimalOps}
use lite_agentify.Config.{RetryConfig, ProviderConfig}
use lite_agentify.Build.{UriParser}
use lite_agentify.State.{Arc}
use lite_agentify.Reload.{SharedGatewayState, ReloadError, store_catalog}
use lite_agentify.Account.Database.{
  ColumnJson, StoreError, Server, Database, Db, sent, select, statement-cases,
}
use lite_agentify.Catalog.{ModelConfig, CatalogSnapshot}
use lite_agentify.Catalog.Entity.{ProviderRow}
use lite_agentify.Catalog.Providers.{
  parse_protocol, provider_config, collect_providers, list_providers, ordered_providers,
}
use lite_agentify.Catalog.Rules.{PricingRecord, pricing_record, list_pricing, ordered_rules}
use lite_agentify.Catalog.Models.{list_models, ordered_models, ordered_deployments, chains}
use lite_agentify.Catalog.Store.{snapshot}
use lite_agentify.Session.{SessionIdentity}
use lite_agentify.Admin.{
  AdminState, Reply, Answer, Handler, RefreshError, is_admin, for_admin, take_outcome, with_store,
  on_found, respond_with, swap_catalog, take_catalog, refresh_catalog, refresh_catalog_and_respond,
}

module _ (d : DecimalOps) (j : ColumnJson) (P : Database d j → Type 0) where
  abbrev pub Keeps : Handler d j → Type 0
  Keeps handler = (state : AdminState d j) → P state.database → P (handler state).1.database

  abbrev pub StoreKeeps : {A : Type 0} → Db d j A → Type 0
  StoreKeeps call = (db : Database d j) → P db → P (call db).1

  pub for_admin-Keeps :
      (identity : SessionIdentity) (handler : Handler d j)
      → Keeps handler
      → Keeps (for_admin d j identity handler)
  for_admin-Keeps identity handler keeps state p = elim (Bool-cases (is_admin identity.role)) [
    | inl yes_admin ↦ rw yes_admin (keeps state p)
    | inr guest ↦ rw guest p
  ]

  take_outcome-kept :
      {A : Type 0} (next : Result StoreError A → Handler d j) (state : AdminState d j)
      (r : Result StoreError A × Database d j)
      → P r.1
      → ((outcome : Result StoreError A) → Keeps (next outcome))
      → P (take_outcome d j next state r).1.database
  take_outcome-kept next state (outcome, db) p keeps =
      keeps outcome (record state { database = db }) p

  pub with_store-Keeps :
      {A : Type 0} (call : Db d j A) (next : Result StoreError A → Handler d j)
      → StoreKeeps call
      → ((outcome : Result StoreError A) → Keeps (next outcome))
      → Keeps (with_store d j call next)
  with_store-Keeps call next call_keeps keeps state p =
      take_outcome-kept next state (call state.database) (call_keeps state.database p) keeps

  pub on_found-Keeps :
      (found : Handler d j) (missing failure : Answer d j) (outcome : Result StoreError Bool)
      → Keeps found
      → Keeps (on_found d j found missing failure outcome)
  on_found-Keeps found missing failure (ok true) keeps = keeps
  on_found-Keeps found missing failure (ok false) keeps = λ state p. p
  on_found-Keeps found missing failure (err e) keeps = λ state p. p

  feed-kept :
      {A B : Type 0} (f : A → Db d j B) (r : Result StoreError A × Database d j)
      → P r.1
      → ((a : A) → StoreKeeps (f a))
      → P (feed f r).1
  feed-kept f (ok a, db) p keeps = keeps a db p
  feed-kept f (err e, db) p keeps = p

  pub bind-StoreKeeps :
      {A B : Type 0} (m : Db d j A) (f : A → Db d j B)
      → StoreKeeps m
      → ((a : A) → StoreKeeps (f a))
      → StoreKeeps (m >>= f)
  bind-StoreKeeps m f m_keeps keeps db p = feed-kept f (m db) (m_keeps db p) keeps

  module _ (s : Server) (sends : (db : Database d j) → P db → P (sent d j s db)) where
    pub select-StoreKeeps :
        {A : Type 0} (context : String) (look : Database d j → A)
        → StoreKeeps (select d j s context look)
    select-StoreKeeps context look db p =
        elim (statement-cases d j s context (λ db. (ok (look db), db)) db) [
          | inl runs ↦ rw runs (sends db p)
          | inr fails ↦ rw fails (sends db p)
        ]

    provider_config-StoreKeeps : (row : ProviderRow j.Value) → StoreKeeps (provider_config d j row)
    provider_config-StoreKeeps row db p = elim (Option-cases (parse_protocol row.protocol)) [
      | inl unknown ↦ rw (provider_config, unknown) p
      | inr (protocol, known) ↦ rw (provider_config, known) p
    ]

    collect_providers-StoreKeeps :
        (rows : List (ProviderRow j.Value)) → StoreKeeps (collect_providers d j rows)
    unfolding collect_providers
    collect_providers-StoreKeeps [] = λ db p. p
    collect_providers-StoreKeeps (row ∷ rows) =
        bind-StoreKeeps (provider_config d j row)
          (λ provider. collect_providers d j rows >>= λ providers. pure (provider ∷ providers))
          (provider_config-StoreKeeps row)
          λ provider.
            bind-StoreKeeps (collect_providers d j rows) (λ providers. pure (provider ∷ providers))
              (collect_providers-StoreKeeps rows) λ providers db p. p

    pub list_pricing-StoreKeeps : StoreKeeps (list_pricing d j s)
    unfolding list_pricing
    list_pricing-StoreKeeps =
        bind-StoreKeeps (ordered_rules d j s) (λ rows. pure (map (pricing_record d j) rows))
          (select-StoreKeeps "failed to list pricing" _) λ rows db p. p

    pub list_models-StoreKeeps : StoreKeeps (list_models d j s)
    unfolding list_models
    list_models-StoreKeeps =
        bind-StoreKeeps (ordered_models d j s)
          (λ models. ordered_deployments d j s >>= λ rows. pure (chains d j s models rows))
          (select-StoreKeeps "failed to list models" _)
          λ models.
            bind-StoreKeeps (ordered_deployments d j s) (λ rows. pure (chains d j s models rows))
              (select-StoreKeeps "failed to list deployments" _) λ rows db p. p

    list_providers-StoreKeeps : StoreKeeps (list_providers d j s)
    unfolding list_providers
    list_providers-StoreKeeps =
        bind-StoreKeeps (ordered_providers d j s) (collect_providers d j)
          (select-StoreKeeps "failed to list providers" _) collect_providers-StoreKeeps

    abbrev seeded :
        List ProviderConfig
        → List (PricingRecord d j)
        → List ModelConfig
        → Db d j (CatalogSnapshot d)
    seeded providers pricing models =
        pure
          (record { providers = providers; pricing = map (λ r. r.config) pricing; models = models })

    snapshot-StoreKeeps : StoreKeeps (snapshot d j s)
    unfolding snapshot
    snapshot-StoreKeeps =
        bind-StoreKeeps (list_providers d j s)
          (λ providers.
            list_pricing d j s >>= λ pricing. list_models d j s >>= seeded providers pricing)
          list_providers-StoreKeeps
          λ providers.
            bind-StoreKeeps (list_pricing d j s)
              (λ pricing. list_models d j s >>= seeded providers pricing) list_pricing-StoreKeeps
              λ pricing.
                bind-StoreKeeps (list_models d j s) (seeded providers pricing)
                  list_models-StoreKeeps λ models db p. p

    module _ {E : Type 0} (load_from_path : String → Result E RetryConfig) (parse_uri : UriParser)
        (fresh_counter : Arc) where
      swap_catalog-kept :
          (r : Result (ReloadError E) (Unit {0}) × SharedGatewayState d) (state : AdminState d j)
          → P state.database
          → P (swap_catalog d j load_from_path parse_uri fresh_counter s r state).1.database
      swap_catalog-kept (ok t, shared) state p = p
      swap_catalog-kept (err e, shared) state p = p

      take_catalog-kept :
          (state : AdminState d j) (r : Result StoreError (CatalogSnapshot d) × Database d j)
          → P r.1
          → P (take_catalog d j load_from_path parse_uri fresh_counter s state r).1.database
      take_catalog-kept state (ok catalog, db) p =
          swap_catalog-kept
            (store_catalog d load_from_path parse_uri fresh_counter catalog state.shared)
            (record state { database = db }) p
      take_catalog-kept state (err e, db) p = p

      respond_with-kept :
          (status : ℕ) (body : Reply d j) (r : Result (RefreshError E) (Unit {0}) × AdminState d j)
          → P r.1.database
          → P (respond_with d j status body r).1.database
      respond_with-kept status body (ok t, state) p = p
      respond_with-kept status body (err e, state) p = p

      -- Refreshing the gateway only reads the tables.
      pub refresh_catalog_and_respond-Keeps :
          (status : ℕ) (body : Reply d j)
          → Keeps
              (refresh_catalog_and_respond d j load_from_path parse_uri fresh_counter s status body)
      unfolding refresh_catalog_and_respond refresh_catalog
      refresh_catalog_and_respond-Keeps status body state p =
          respond_with-kept status body
            (refresh_catalog d j load_from_path parse_uri fresh_counter s state)
            (take_catalog-kept state (snapshot d j s state.database)
              (snapshot-StoreKeeps state.database p))
