-- ===== src/Catalog/Providers.antt =====
-- The providers in the catalog store, `SeaOrmCatalogStore` in src/catalog/store.rs.
use Prim.Native.String.{◌++◌ as append}
use lite_agentify.Prelude.{
  ℕ, String, Bool, not, ◌&&◌, ◌||◌, Option, none, some, List, [], ◌∷◌, ◌++◌, any, filter, find,
  is_some, length, unwrap_or, ◌==◌, string_eq, nat_eq, if◌then◌else◌, ok, err,
}
use lite_agentify.Prelude.Effects.{pure, raise, ◌>>=◌}
use lite_agentify.Model.{DateTime, Protocol, open_ai, anthropic, protocol_text}
use lite_agentify.Config.{ProviderConfig}
use lite_agentify.Decimal.{DecimalOps}
use lite_agentify.Catalog.Entity.{ProviderRow}
use lite_agentify.Account.Database.{
  ColumnJson, conflict, failed, Server, Db, order_by, update_where, statement, select, utc_now,
  insert_into, update_in,
}

-- The texts that the database has for a protocol.
abbrev pub parse_protocol : String → Option Protocol
parse_protocol value =
    if value == "openai" || value == "open-ai"
    then some open_ai
    else if value == "anthropic"
    then some anthropic
    else none

abbrev pub quote : (before name after : String) → String
quote before name after = append before (append name after)

module _ (d : DecimalOps) (j : ColumnJson) where
  abbrev pub provider_config : ProviderRow j.Value → Db d j ProviderConfig
  provider_config row = elim (parse_protocol row.protocol) [
    | none ↦ raise (
        failed
          (append (quote "provider '" row.id "' has unknown protocol '") (append row.protocol "'")))
    | some protocol ↦ pure (record {
      id = row.id;
      protocol = protocol;
      base_url = row.base_url;
      api_key = row.api_key;
      anthropic_version = row.anthropic_version;
      model_aliases = unwrap_or (j.from_value row.model_aliases) [];
    })
  ]

  -- `.map(provider_config).collect()` and `.map(provider_config).transpose()`.
  unfoldable pub collect_providers : List (ProviderRow j.Value) → Db d j (List ProviderConfig)
  collect_providers [] = pure []
  collect_providers (row ∷ rows) = do
    provider ← provider_config row
    providers ← collect_providers rows
    pure (provider ∷ providers)

  abbrev pub transpose_provider : Option (ProviderRow j.Value) → Db d j (Option ProviderConfig)
  transpose_provider none = pure none
  transpose_provider (some row) = do provider ← provider_config row; pure (some provider)

  module _ (s : Server) where
    abbrev pub ordered_providers : Db d j (List (ProviderRow j.Value))
    ordered_providers =
        select d j s "failed to list providers"
          (λ db. order_by (λ p q. s.collates p.id q.id) db.providers)

    unfoldable pub list_providers : Db d j (List ProviderConfig)
    unfolding collect_providers
    list_providers = do rows ← ordered_providers; collect_providers rows

    abbrev pub find_provider : String → Db d j (Option (ProviderRow j.Value))
    find_provider id =
        select d j s "failed to query provider" (λ db. find (λ p. p.id == id) db.providers)

    unfoldable pub get_provider : String → Db d j (Option ProviderConfig)
    get_provider id = do row ← find_provider id; transpose_provider row

    -- The row with the values of a provider.
    abbrev pub provided : ProviderConfig → DateTime → ProviderRow j.Value → ProviderRow j.Value
    provided provider now row = record row {
      protocol = protocol_text provider.protocol;
      base_url = provider.base_url;
      api_key = provider.api_key;
      anthropic_version = provider.anthropic_version;
      model_aliases = j.to_value provider.model_aliases;
      updated_at = now;
    }

    abbrev pub new_provider : ProviderConfig → DateTime → ProviderRow j.Value
    new_provider provider now = record {
      id = provider.id;
      protocol = protocol_text provider.protocol;
      base_url = provider.base_url;
      api_key = provider.api_key;
      anthropic_version = provider.anthropic_version;
      model_aliases = j.to_value provider.model_aliases;
      created_at = now;
      updated_at = now;
    }

    -- The serialisation of a map of texts does not fail.
    unfoldable pub upsert_provider : ProviderConfig → (is_new : Bool) → Db d j (Unit {0})
    upsert_provider provider is_new = do
      now ← utc_now d j s
      existing ← find_provider provider.id
      if is_new && is_some existing
          then raise (conflict (quote "provider '" provider.id "' already exists"))
          else if is_some existing
          then update_in d j s (λ db. any (λ p. p.id == provider.id) db.providers)
              (λ db. record db {
                providers =
                    update_where (λ p. p.id == provider.id) (provided provider now) db.providers;
              })
              "failed to update provider"
          else (do
            inserted ←
                insert_into d j s (λ db. any (λ p. p.id == provider.id) db.providers)
                  (λ db. record db { providers = db.providers ++ (new_provider provider now ∷ []) })
                  "failed to insert provider" (new_provider provider now)
            pure tt)

    -- `DELETE` by a primary key, which a reference from a deployment makes fail.
    unfoldable pub delete_provider : String → Db d j Bool
    delete_provider id = statement d j s "failed to delete provider" λ db.
        if any (λ r. r.provider_id == id) db.deployments
        then (err (failed "failed to delete provider"), db)
        else (
          ok (any (λ p. p.id == id) db.providers),
          record db { providers = filter (λ p. not (p.id == id)) db.providers },
        )

    unfoldable pub provider_count : Db d j ℕ
    provider_count = select d j s "failed to count providers" (λ db. length db.providers)
