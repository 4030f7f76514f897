-- ===== src/Catalog/Rules.antt =====
-- The pricing rules in the catalog store, `SeaOrmCatalogStore` in src/catalog/store.rs.
pub mod Any
use Prim.Native.String.{◌++◌ as append}
use mathlib.Core.Option.{map as map_option}
use lite_agentify.Prelude.{
  ℕ, String, Bool, true, false, not, ◌&&◌, ◌||◌, Option, none, some, List, [], ◌∷◌, ◌++◌, map, any,
  filter, find, length, ◌==◌, string_eq, nat_eq, if◌then◌else◌, ok,
}
use lite_agentify.Prelude.Effects.{pure, raise, ◌>>=◌, ◌>>◌}
use lite_agentify.Catalog.Providers.{quote}
use lite_agentify.Model.{Uuid, DateTime}
use lite_agentify.Decimal.{DecimalOps}
use lite_agentify.Pricing.{PricingConfig}
use lite_agentify.Catalog.Entity.{PricingRow}
use lite_agentify.Account.Database.{
  ColumnJson, StoreError, conflict, Server, Db, order_by, update_where, statement, select, new_uuid,
  utc_now, insert_into, update_in,
}

module _ (d : DecimalOps) (j : ColumnJson) where
  -- A pricing rule with its id.
  pub record PricingRecord : Type 0 where
    pub id : Uuid
    pub config : PricingConfig d

  abbrev pub pricing_config : PricingRow d.Decimal → PricingConfig d
  pricing_config row = record {
    provider = row.provider;
    model = row.model;
    input_per_1m = row.input_per_1m;
    output_per_1m = row.output_per_1m;
    cached_input_per_1m = row.cached_input_per_1m;
    cache_read_per_1m = row.cache_read_per_1m;
    cache_write_per_1m = row.cache_write_per_1m;
    currency = row.currency;
    pricing_source = row.pricing_source;
  }

  abbrev pub pricing_record : PricingRow d.Decimal → PricingRecord
  pricing_record row = record { id = row.id; config = pricing_config row }

  -- The row with the values of a rule, the rates as their numeric(20, 10) columns round them.
  abbrev pub priced : PricingConfig d → DateTime → PricingRow d.Decimal → PricingRow d.Decimal
  priced config now row = record row {
    provider = config.provider;
    model = config.model;
    input_per_1m = d.numeric_20_10 config.input_per_1m;
    output_per_1m = d.numeric_20_10 config.output_per_1m;
    cached_input_per_1m = map_option d.numeric_20_10 config.cached_input_per_1m;
    cache_read_per_1m = map_option d.numeric_20_10 config.cache_read_per_1m;
    cache_write_per_1m = map_option d.numeric_20_10 config.cache_write_per_1m;
    currency = config.currency;
    pricing_source = config.pricing_source;
    updated_at = now;
  }

  module _ (s : Server) where
    -- `ORDER BY` two texts, and a text and a number.
    abbrev pub before_texts : (String × String) → (String × String) → Bool
    before_texts (a, b) (a', b') = s.collates a a' && (not (s.collates a' a) || s.collates b b')

    abbrev pub before_rule : PricingRow d.Decimal → PricingRow d.Decimal → Bool
    before_rule r t = before_texts (r.provider, r.model) (t.provider, t.model)

    abbrev pub ordered_rules : Db d j (List (PricingRow d.Decimal))
    ordered_rules = select d j s "failed to list pricing" (λ db. order_by before_rule db.pricing)

    unfoldable pub list_pricing : Db d j (List PricingRecord)
    list_pricing = do rows ← ordered_rules; pure (map pricing_record rows)

    abbrev pub is_for : PricingConfig d → PricingRow d.Decimal → Bool
    is_for config row = row.provider == config.provider && row.model == config.model

    abbrev pub rule_exists : PricingConfig d → Db d j Bool
    rule_exists config =
        select d j s "failed to query pricing" (λ db. any (is_for config) db.pricing)

    abbrev pub rule_taken : PricingConfig d → StoreError
    rule_taken config = conflict (
        append (quote "pricing rule for '" config.provider ":")
          (append config.model "' already exists"))

    abbrev pub new_rule : PricingConfig d → Uuid → DateTime → PricingRow d.Decimal
    new_rule config id now = record {
      id = id;
      provider = config.provider;
      model = config.model;
      input_per_1m = d.numeric_20_10 config.input_per_1m;
      output_per_1m = d.numeric_20_10 config.output_per_1m;
      cached_input_per_1m = map_option d.numeric_20_10 config.cached_input_per_1m;
      cache_read_per_1m = map_option d.numeric_20_10 config.cache_read_per_1m;
      cache_write_per_1m = map_option d.numeric_20_10 config.cache_write_per_1m;
      currency = config.currency;
      pricing_source = config.pricing_source;
      created_at = now;
      updated_at = now;
    }

    abbrev pub insert_rule : PricingConfig d → Uuid → DateTime → Db d j (PricingRow d.Decimal)
    insert_rule config id now =
        insert_into d j s (λ db. any (λ r. r.id == id || is_for config r) db.pricing)
          (λ db. record db { pricing = db.pricing ++ (new_rule config id now ∷ []) })
          "failed to insert pricing" (new_rule config id now)

    abbrev pub insert_unless : PricingConfig d → (found : Bool) → Db d j Uuid
    insert_unless config true = raise (rule_taken config)
    insert_unless config false = do
      id ← new_uuid d j s
      now ← utc_now d j s
      inserted ← insert_rule config id now
      pure id

    unfoldable pub create_pricing : PricingConfig d → Db d j Uuid
    create_pricing config = do found ← rule_exists config; insert_unless config found

    -- Whether another rule has the pair that a rule is changed to.
    abbrev pub moved_onto : PricingConfig d → PricingRow d.Decimal → Db d j Bool
    moved_onto config row = if is_for config row then pure false else rule_exists config

    abbrev pub write_rule : PricingConfig d → Uuid → DateTime → Db d j (Unit {0})
    write_rule config id now =
        update_in d j s (λ db. any (λ r. r.id == id) db.pricing)
          (λ db. record db {
            pricing = update_where (λ r. r.id == id) (priced config now) db.pricing;
          })
          "failed to update pricing"

    abbrev pub write_unless : PricingConfig d → Uuid → (collides : Bool) → Db d j Bool
    write_unless config id true = raise (rule_taken config)
    write_unless config id false = do now ← utc_now d j s; write_rule config id now; pure true

    abbrev pub replace_rule : PricingConfig d → Uuid → Option (PricingRow d.Decimal) → Db d j Bool
    replace_rule config id none = pure false
    replace_rule config id (some row) = do
      collides ← moved_onto config row
      write_unless config id collides

    unfoldable pub update_pricing : Uuid → PricingConfig d → Db d j Bool
    update_pricing id config = do
      row ← select d j s "failed to query pricing" (λ db. find (λ r. r.id == id) db.pricing)
      replace_rule config id row

    unfoldable pub delete_pricing : Uuid → Db d j Bool
    delete_pricing id = statement d j s "failed to delete pricing" λ db. (
      ok (any (λ r. r.id == id) db.pricing),
      record db { pricing = filter (λ r. not (r.id == id)) db.pricing },
    )

    unfoldable pub pricing_count : Db d j ℕ
    pricing_count = select d j s "failed to count pricing" (λ db. length db.pricing)
