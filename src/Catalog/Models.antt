-- ===== src/Catalog/Models.antt =====
-- The models and their deployments in the catalog store, `SeaOrmCatalogStore` in
-- src/catalog/store.rs.
pub mod Chain
pub mod Succeeds
pub mod Replaced
use Prim.Native.String.{◌++◌ as append}
use lite_agentify.Prelude.{
  ℕ, suc, String, Bool, true, false, not, ◌&&◌, ◌||◌, Option, none, some, List, [], ◌∷◌, ◌++◌, map,
  any, filter, find, is_some, length, unwrap_or, ◌==◌, string_eq, nat_eq, if◌then◌else◌, ok, err,
  leb,
}
use lite_agentify.Prelude.Map.{Map, get, insert, remove}
use lite_agentify.Prelude.Effects.{pure, raise, ◌>>=◌, ◌>>◌}
use lite_agentify.Model.{Uuid, DateTime}
use lite_agentify.Decimal.{DecimalOps}
use lite_agentify.Catalog.{DeploymentConfig, ModelConfig}
use lite_agentify.Catalog.Entity.{ModelRow, DeploymentRow}
use lite_agentify.Account.Database.{
  ColumnJson, conflict, failed, Server, Database, Db, order_by, update_where, statement, select,
  new_uuid, utc_now, end_transaction, insert_into, update_in,
}
use lite_agentify.Catalog.Providers.{quote}

abbrev pub deployment_of : DeploymentRow → DeploymentConfig
deployment_of row = record {
  id = row.id;
  provider_id = row.provider_id;
  upstream_model = row.upstream_model;
}

abbrev pub model_of : ModelRow → List DeploymentConfig → ModelConfig
model_of row deployments = record {
  name = row.name;
  enabled = row.status == "enabled";
  created_at = row.created_at;
  deployments = deployments;
}

abbrev pub new_deployment :
    Uuid → (name : String) → (priority : ℕ) → (provider_id upstream_model : String) → DeploymentRow
new_deployment id name priority provider_id upstream_model = record {
  id = id;
  model_name = name;
  provider_id = provider_id;
  upstream_model = upstream_model;
  priority = priority;
}

-- The map from models to their deployments, in the order of the rows.
unfoldable pub group_rows :
    List DeploymentRow → Map String (List DeploymentConfig) → Map String (List DeploymentConfig)
unfolding get insert
group_rows [] by_model = by_model
group_rows (row ∷ rows) by_model = group_rows rows (
    insert row.model_name (unwrap_or (get row.model_name by_model) [] ++ (deployment_of row ∷ []))
      by_model)

-- Every model takes its deployments out of the map.
unfoldable pub with_deployments :
    List ModelRow → Map String (List DeploymentConfig) → List ModelConfig
unfolding get remove
with_deployments [] by_model = []
with_deployments (row ∷ rows) by_model =
    model_of row (unwrap_or (get row.name by_model) [])
    ∷ with_deployments rows (remove row.name by_model)

-- The first provider that a chain names again.
unfoldable pub repeated : List (String × String) → List String → Option String
repeated [] seen = none
repeated ((provider_id, upstream) ∷ deployments) seen = elim (any (λ p. p == provider_id) seen) [
  | true ↦ some provider_id
  | false ↦ repeated deployments (provider_id ∷ seen)
]

module _ (d : DecimalOps) (j : ColumnJson) where
  module _ (s : Server) where
    abbrev pub before_row : DeploymentRow → DeploymentRow → Bool
    before_row r t =
        s.collates r.model_name t.model_name
        && (not (s.collates t.model_name r.model_name) || leb r.priority t.priority)

    abbrev pub ordered_models : Db d j (List ModelRow)
    ordered_models =
        select d j s "failed to list models"
          (λ db. order_by (λ m n. s.collates m.name n.name) db.models)

    abbrev pub ordered_deployments : Db d j (List DeploymentRow)
    ordered_deployments =
        select d j s "failed to list deployments" (λ db. order_by before_row db.deployments)

    abbrev pub chains : List ModelRow → List DeploymentRow → List ModelConfig
    chains models deployments = with_deployments models (group_rows deployments [])

    unfoldable pub list_models : Db d j (List ModelConfig)
    unfolding group_rows with_deployments
    list_models = do
      models ← ordered_models
      deployments ← ordered_deployments
      pure (chains models deployments)

    abbrev pub find_model : String → Db d j (Option ModelRow)
    find_model name =
        select d j s "failed to query model" (λ db. find (λ m. m.name == name) db.models)

    abbrev pub load_model : Option ModelRow → Db d j (Option ModelConfig)
    load_model none = pure none
    load_model (some row) = do
      deployments ← select d j s "failed to query deployments" (λ db.
          order_by (λ r t. leb r.priority t.priority)
            (filter (λ r. r.model_name == row.name) db.deployments))
      pure (some (model_of row (map deployment_of deployments)))

    unfoldable pub get_model : String → Db d j (Option ModelConfig)
    get_model name = do row ← find_model name; load_model row

    abbrev pub new_model : String → DateTime → ModelRow
    new_model name now = record {
      name = name;
      status = "disabled";
      created_at = now;
      updated_at = now;
    }

    unfoldable pub create_model : String → Db d j ModelConfig
    create_model name = do
      found ← find_model name
      if is_some found then raise (conflict (quote "model '" name "' already exists")) else (do
        now ← utc_now d j s
        inserted ←
            insert_into d j s (λ db. any (λ m. m.name == name) db.models)
              (λ db. record db { models = db.models ++ (new_model name now ∷ []) })
              "failed to insert model" (new_model name now)
        pure (model_of (new_model name now) []))

    abbrev pub update_model : String → (ModelRow → ModelRow) → String → Db d j (Unit {0})
    update_model name f context =
        update_in d j s (λ db. any (λ m. m.name == name) db.models)
          (λ db. record db { models = update_where (λ m. m.name == name) f db.models }) context

    abbrev pub status_text : Bool → String
    status_text enabled = if enabled then "enabled" else "disabled"

    unfoldable pub set_model_status : String → Bool → Db d j Bool
    set_model_status name enabled = do
      existing ← find_model name
      if is_some existing
          then (do
            now ← utc_now d j s
            update_model name (λ m. record m { status = status_text enabled; updated_at = now })
                "failed to update model status"
            pure true)
          else pure false

    -- The deployments of a deleted model go with it.
    unfoldable pub delete_model : String → Db d j Bool
    delete_model name = statement d j s "failed to delete model" λ db. (
      ok (any (λ m. m.name == name) db.models),
      record db {
        models = filter (λ m. not (m.name == name)) db.models;
        deployments = filter (λ r. not (r.model_name == name)) db.deployments;
      },
    )

    abbrev pub clear_deployments : String → Db d j (Unit {0})
    clear_deployments name = statement d j s "failed to clear deployments" λ db.
        (ok tt, record db { deployments = filter (λ r. not (r.model_name == name)) db.deployments })

    -- A deployment's id is unique, and so is its pair of a model and a provider, which must be there.
    abbrev pub is_broken : DeploymentRow → Database d j → Bool
    is_broken row db =
        any
          (λ r.
            r.id == row.id || r.model_name == row.model_name && r.provider_id == row.provider_id)
          db.deployments
        || not (any (λ m. m.name == row.model_name) db.models)
        || not (any (λ p. p.id == row.provider_id) db.providers)

    abbrev pub insert_deployment : DeploymentRow → Db d j DeploymentRow
    insert_deployment row =
        insert_into d j s (is_broken row)
          (λ db. record db { deployments = db.deployments ++ (row ∷ []) })
          "failed to insert deployment" row

    unfoldable pub insert_deployments :
        String → (priority : ℕ) → List (String × String) → Db d j (Unit {0})
    insert_deployments name priority [] = pure tt
    insert_deployments name priority ((provider_id, upstream_model) ∷ rest) = do
      id ← new_uuid d j s
      inserted ← insert_deployment (new_deployment id name priority provider_id upstream_model)
      insert_deployments name (suc priority) rest

    -- The row is there, since the transaction found it before; the panic of `expect` is an error.
    abbrev pub touch_model : String → Option ModelRow → Db d j (Unit {0})
    touch_model name none = raise (failed "model existence checked above")
    touch_model name (some row) = do
      now ← utc_now d j s
      update_model name (λ m. record m { updated_at = now }) "failed to touch model"

    abbrev pub replace_deployments : String → List (String × String) → Option ModelRow → Db d j Bool
    replace_deployments name deployments none = pure false
    replace_deployments name deployments (some row) = do
      clear_deployments name
      insert_deployments name 0 deployments
      again ← find_model name
      touch_model name again
      select d j s "failed to commit deployments" (λ db. tt)
      pure true

    unfoldable pub set_deployments : String → List (String × String) → Db d j Bool
    unfolding repeated insert_deployments
    set_deployments name deployments before = elim (repeated deployments []) [
      | some provider_id ↦ (
        err (
            conflict (
              append (quote "model '" name "' lists provider '")
                (append provider_id "' more than once"))),
        before,
      )
      | none ↦ end_transaction d j s before (
          (do
            select d j s "failed to begin transaction" (λ db. tt)
            row ← find_model name
            replace_deployments name deployments row)
            before)
    ]

    unfoldable pub provider_in_use : String → Db d j (Option String)
    provider_in_use provider_id = do
      rows ← select d j s "failed to query deployments" (λ db.
          order_by (λ r t. s.collates r.model_name t.model_name)
            (filter (λ r. r.provider_id == provider_id) db.deployments))
      pure (elim rows [ [] ↦ none | row ∷ rest ↦ some row.model_name ])

    unfoldable pub model_count : Db d j ℕ
    model_count = select d j s "failed to count models" (λ db. length db.models)
