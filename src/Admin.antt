-- ===== src/Admin.antt =====
-- The admin console (src/admin/mod.rs): its state, its guards, and what its handlers answer.
pub mod Password
pub mod Refresh
pub mod Keeps
pub mod Cookie
pub mod Login
pub mod Users
pub mod ApiKeys
pub mod Providers
pub mod Rules
pub mod Models
pub mod Credits
mod Tests
mod CatalogTests
use lite_agentify.Prelude.{
  ℕ, String, Bool, true, false, Option, none, some, List, [], ◌∷◌, ◌++◌, if◌then◌else◌, Result, ok,
  err,
}
use lite_agentify.Model.{Uuid, DateTime}
use lite_agentify.Decimal.{DecimalOps}
use lite_agentify.Account.{Role, admin, user, UserRecord, ApiKeyRecord, ApiKeyMap}
use lite_agentify.Account.Database.{ColumnJson, StoreError, Server, Database, Db}
use lite_agentify.Account.Store.{active_key_map}
use lite_agentify.Reload.{
  SharedGatewayState, ReloadError, store_api_keys, store_granted, store_catalog,
}
use lite_agentify.Prelude.Map.{Map}
use lite_agentify.Config.{RetryConfig}
use lite_agentify.Build.{UriParser}
use lite_agentify.State.{Arc}
use lite_agentify.Catalog.{ModelConfig, CatalogSnapshot}
use lite_agentify.Catalog.Rules.{PricingRecord}
use lite_agentify.Catalog.Store.{snapshot}
use lite_agentify.Quota.Ledger.{GrantRecord, grant_sums}
use lite_agentify.Session.{SessionIdentity, Sessions, LoginLimiter, remove_user}

abbrev pub is_admin : Role → Bool
is_admin admin = true
is_admin user = false

-- Why the gateway did not take a new catalog.
pub data RefreshError (E : Type 0) : Type 0 where
  unread : StoreError → RefreshError E
  refused : ReloadError E → RefreshError E

module _ (d : DecimalOps) (j : ColumnJson) where
  -- The sessions and the limiter are those of the store in process memory; `published` is what was
  -- sent on the channel of configuration changes, if there is a notifier.
  pub record AdminState : Type 0 where
    pub shared : SharedGatewayState d
    pub database : Database d j
    pub sessions : Sessions
    pub limiter : LoginLimiter
    pub published : Option (List String)
    pub session_ttl : ℕ

  -- What `key_json` shows of a key.
  pub record KeyView : Type 0 where
    pub key : ApiKeyRecord d
    pub username : Option String
    pub spent_usd : Option d.Decimal

  -- What `provider_json` shows of a provider: the secret is masked.
  pub record ProviderView : Type 0 where
    pub id : String
    pub protocol : String
    pub base_url : String
    pub api_key : String
    pub anthropic_version : Option String
    pub model_aliases : Map String String

  -- What `model_json` shows of a model, with the names of its deployments without a price.
  pub record ModelView : Type 0 where
    pub model : ModelConfig
    pub uncovered : List String

  -- Granted, spent, and what is left.
  pub record Balance : Type 0 where
    pub granted : d.Decimal
    pub spent : d.Decimal
    pub left : d.Decimal

  -- A grant with the names of the user and of the grantor.
  pub record GrantView : Type 0 where
    pub grant : GrantRecord d j
    pub username : Option String
    pub grantor : Option String

  -- A body: a text, or the JSON object with these entries.
  pub data Reply : Type 0 where
    text : String → Reply
    error : String → Reply
    done : Reply
    signed_in : String → Role → Reply
    one_user : UserRecord → Reply
    all_users : List UserRecord → Reply
    new_key : String → KeyView → Reply
    all_keys : List KeyView → Reply
    all_providers : List ProviderView → Reply
    secret : String → Reply
    all_rules : List (PricingRecord d j) → Reply
    all_models : List ModelView → Reply
    model_names : List String → Reply
    own_balance : Balance → Reply
    balances : List (UserRecord × Balance) → Reply
    granted : GrantRecord d j → Reply
    ledger : List GrantView → Reply
    -- The object with a `warning` entry.
    warned : Reply → Reply

  -- `cookie` is the `Set-Cookie` header.
  pub record Answer : Type 0 where
    pub status : ℕ
    pub cookie : Option String
    pub reply : Reply

  abbrev pub answer : ℕ → Reply → Answer
  answer status reply = record { status = status; cookie = none; reply = reply }

  abbrev pub bad_request : String → Answer
  bad_request message = answer 400 (error message)

  abbrev pub unauthorized : String → Answer
  unauthorized message = answer 401 (error message)

  abbrev pub not_found : String → Answer
  not_found message = answer 404 (error message)

  abbrev pub conflicting : String → Answer
  conflicting message = answer 409 (error message)

  abbrev pub internal : String → Answer
  internal message = answer 500 (error message)

  -- The answer of `require_admin` to other roles.
  abbrev pub admin_required : Answer
  admin_required = answer 403 (text "admin role required")

  abbrev pub Handler : Type 0
  Handler = AdminState → Answer × AdminState

  abbrev pub respond : Answer → Handler
  respond a state = (a, state)

  -- The body of a handler behind `require_admin`.
  abbrev pub for_admin : SessionIdentity → Handler → Handler
  for_admin identity handler = if is_admin identity.role then handler else respond admin_required

  abbrev pub take_outcome :
      {A : Type 0}
      → (Result StoreError A → Handler)
      → AdminState
      → Result StoreError A × Database d j
      → Answer × AdminState
  take_outcome next state (outcome, database) = next outcome (record state { database = database })

  -- A call of the store, and what the handler does with its outcome.
  abbrev pub with_store : {A : Type 0} → Db d j A → (Result StoreError A → Handler) → Handler
  with_store call next state = take_outcome next state (call state.database)

  -- The cases of a store call that finds its row, does not find it, or fails.
  abbrev pub on_found : Handler → (missing failure : Answer) → Result StoreError Bool → Handler
  on_found found missing failure (ok true) = found
  on_found found missing failure (ok false) = respond missing
  on_found found missing failure (err e) = respond failure

  abbrev pub notify_config_changed : String → AdminState → AdminState
  notify_config_changed what state = record state {
    published = elim state.published [ none ↦ none | some sent ↦ some (sent ++ (what ∷ [])) ];
  }

  abbrev pub drop_user_sessions : Uuid → AdminState → AdminState
  drop_user_sessions id state = record state { sessions = remove_user id state.sessions }

  -- The loaded keys go into the snapshot.
  abbrev pub take_keys :
      AdminState
      → Result StoreError (ApiKeyMap d) × Database d j
      → Result StoreError (Unit {0}) × AdminState
  take_keys state (ok keys, database) = (
    ok tt,
    notify_config_changed "api_keys"
        (record state { database = database; shared = store_api_keys d keys state.shared }),
  )
  take_keys state (err e, database) = (err e, record state { database = database })

  -- The body, with a warning where the refresh failed.
  abbrev pub respond_refreshed :
      Reply → Result StoreError (Unit {0}) × AdminState → Answer × AdminState
  respond_refreshed body (ok t, state) = (answer 200 body, state)
  respond_refreshed body (err e, state) = (answer 200 (warned body), state)

  -- The same with a status, for the catalog and the credits.
  abbrev pub respond_with :
      {E : Type 0} → (status : ℕ) → Reply → Result E (Unit {0}) × AdminState → Answer × AdminState
  respond_with status body (ok t, state) = (answer status body, state)
  respond_with status body (err e, state) = (answer status (warned body), state)

  -- The sums go into the snapshot.
  abbrev pub take_granted :
      AdminState
      → Result StoreError (Map Uuid d.Decimal) × Database d j
      → Result StoreError (Unit {0}) × AdminState
  take_granted state (ok sums, database) = (
    ok tt,
    notify_config_changed "granted"
        (record state { database = database; shared = store_granted d sums state.shared }),
  )
  take_granted state (err e, database) = (err e, record state { database = database })

  module _ {E : Type 0} (load_from_path : String → Result E RetryConfig) (parse_uri : UriParser)
      (fresh_counter : Arc) (s : Server) where
    -- The outcome of `store_catalog`.
    abbrev pub swap_catalog :
        Result (ReloadError E) (Unit {0}) × SharedGatewayState d
        → AdminState
        → Result (RefreshError E) (Unit {0}) × AdminState
    swap_catalog (ok t, shared) state =
        (ok tt, notify_config_changed "catalog" (record state { shared = shared }))
    swap_catalog (err e, shared) state = (err (refused e), record state { shared = shared })

    abbrev pub take_catalog :
        AdminState
        → Result StoreError (CatalogSnapshot d) × Database d j
        → Result (RefreshError E) (Unit {0}) × AdminState
    take_catalog state (err e, database) = (err (unread e), record state { database = database })
    take_catalog state (ok catalog, database) =
        swap_catalog (store_catalog d load_from_path parse_uri fresh_counter catalog state.shared)
          (record state { database = database })

    unfoldable pub refresh_catalog : AdminState → Result (RefreshError E) (Unit {0}) × AdminState
    unfolding snapshot store_catalog
    refresh_catalog state = take_catalog state (snapshot d j s state.database)

    -- `refresh_and_respond` of the handlers of the catalog.
    unfoldable pub refresh_catalog_and_respond : (status : ℕ) → Reply → Handler
    unfolding refresh_catalog
    refresh_catalog_and_respond status body state = respond_with status body (refresh_catalog state)

  module _ (s : Server) where
    unfoldable pub refresh_granted : AdminState → Result StoreError (Unit {0}) × AdminState
    unfolding grant_sums store_granted
    refresh_granted state = take_granted state (grant_sums d j s state.database)

    unfoldable pub refresh_api_keys : AdminState → Result StoreError (Unit {0}) × AdminState
    unfolding active_key_map store_api_keys
    refresh_api_keys state = take_keys state (active_key_map d j s state.database)

    unfoldable pub refresh_and_respond : Reply → Handler
    unfolding refresh_api_keys
    refresh_and_respond body state = respond_refreshed body (refresh_api_keys state)
