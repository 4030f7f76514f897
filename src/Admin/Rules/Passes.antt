-- ===== src/Admin/Rules/Passes.antt =====
-- The listing gate holds after every change of the rules that it lets through, in the tables of
-- src/catalog/store.rs.
use lite_agentify.Prelude.{
  String, Bool, true, false, not, ◌&&◌, ◌||◌, ◌≡◌, refl, sym, ap, ◌∙◌, inl, inr, Option, none, some,
  List, [], ◌∷◌, ◌++◌, map, any, filter, find, ◌==◌, string_eq, nat_eq, if◌then◌else◌, ok, err,
  arith, Bool-cases,
}
use lite_agentify.Prelude.Effects.{pure}
use lite_agentify.Model.{Uuid, DateTime}
use lite_agentify.Decimal.{DecimalOps}
use lite_agentify.Pricing.{PricingConfig}
use lite_agentify.Account.Database.{
  ColumnJson, failed, Server, Database, sent, order_by, update_where, select, statement-cases,
}
use lite_agentify.Catalog.{ModelConfig}
use lite_agentify.Catalog.Entity.{PricingRow}
use lite_agentify.Catalog.Rules.{
  PricingRecord, pricing_config, pricing_record, priced, before_rule, new_rule, is_for, rule_exists,
  insert_rule, insert_unless, moved_onto, write_rule, write_unless, replace_rule,
}
use lite_agentify.Catalog.Rules as Store
use lite_agentify.Catalog.Rules.Any.{
  Covers, any-map, any-append, any-filter, any-update_where, any-order_by, any_at, uncovered-Covers,
}
use lite_agentify.Catalog.Models.{before_row, chains}
use lite_agentify.Admin.Keeps.{StoreKeeps, bind-StoreKeeps, select-StoreKeeps}
use lite_agentify.Admin.Rules.{first_uncovered, configs, without, replaced}

module _ (d : DecimalOps) (j : ColumnJson) (parse_decimal : String → Option d.Decimal)
    (s : Server) where
  -- What the store lists.
  abbrev pub rules_of : Database d j → List (PricingRecord d j)
  rules_of db = map (pricing_record d j) (order_by (before_rule d j s) db.pricing)

  abbrev pub models_of : Database d j → List ModelConfig
  models_of db =
      chains d j s (order_by (λ m n. s.collates m.name n.name) db.models)
        (order_by (before_row d j s) db.deployments)

  -- Every enabled model has a price for each of its deployments.
  abbrev pub PassesGate : Database d j → Type 0
  PassesGate db =
      first_uncovered d j parse_decimal (configs d j parse_decimal (rules_of db)) (models_of db)
      ≡ none

  first_uncovered-Covers :
      (more fewer : List (PricingConfig d)) (ms : List ModelConfig)
      → Covers d more fewer
      → first_uncovered d j parse_decimal fewer ms ≡ none
      → first_uncovered d j parse_decimal more ms ≡ none
  unfolding first_uncovered
  first_uncovered-Covers more fewer [] covers h = refl
  first_uncovered-Covers more fewer (m ∷ ms) covers h = ground (
    arith,
    uncovered-Covers d more fewer m covers,
    first_uncovered-Covers more fewer ms covers,
    h,
  )

  any-rules_of :
      (p : PricingConfig d → Bool) (db : Database d j)
      → any p (configs d j parse_decimal (rules_of db))
        ≡ any (λ r. p (pricing_config d j r)) db.pricing
  any-rules_of p db =
      any-map p (λ r. r.config) (rules_of db)
      ∙ any-map _ (pricing_record d j) (order_by (before_rule d j s) db.pricing)
      ∙ any-order_by _ (before_rule d j s) db.pricing

  any-without :
      (p : PricingConfig d → Bool) (id : Uuid) (db : Database d j)
      → any p (configs d j parse_decimal (without d j parse_decimal id (rules_of db)))
        ≡ any (λ r. not (r.id == id) && p (pricing_config d j r)) db.pricing
  any-without p id db =
      any-map p (λ r. r.config) (without d j parse_decimal id (rules_of db))
      ∙ any-filter _ _ (rules_of db)
      ∙ any-map _ (pricing_record d j) (order_by (before_rule d j s) db.pricing)
      ∙ any-order_by _ (before_rule d j s) db.pricing

  any-replaced :
      (p : PricingConfig d → Bool) (id : Uuid) (config : PricingConfig d) (db : Database d j)
      → any p (configs d j parse_decimal (replaced d j parse_decimal id config (rules_of db)))
        ≡ (any (λ r. not (r.id == id) && p (pricing_config d j r)) db.pricing || p config)
  any-replaced p id config db =
      let kept = without d j parse_decimal id (rules_of db) in
      any-map p (λ r. r.config) (kept ++ (record { id = id; config = config } ∷ []))
      ∙ any-append _ kept (record { id = id; config = config } ∷ [])
      ∙ ground (arith, any-without p id db, any-map p (λ r. r.config) kept)

  -- The gate, and that the rules pass it with a change.
  abbrev pub Passes : (List (PricingRecord d j) → List (PricingRecord d j)) → Database d j → Type 0
  Passes mutate db =
      PassesGate db
      × (first_uncovered d j parse_decimal (configs d j parse_decimal (mutate (rules_of db)))
            (models_of db)
          ≡ none)

  -- A rule is deleted.
  pub delete_pricing-Passes :
      (id : Uuid) (db : Database d j)
      → Passes (without d j parse_decimal id) db
      → Passes (without d j parse_decimal id) (Store.delete_pricing d j s id db).1
  unfolding Store.delete_pricing
  delete_pricing-Passes id db (passes, allowed) =
      let kept = filter (λ (r : PricingRow d.Decimal). not (r.id == id)) db.pricing in
      let after = record (sent d j s db) { pricing = kept } in
      let fewer = configs d j parse_decimal (without d j parse_decimal id (rules_of db)) in
      let same : (p : PricingConfig d → Bool)
          → any p fewer ≡ any (λ r. p (pricing_config d j r)) kept =
        λ p. any-without p id db ∙ sym (any-filter _ _ db.pricing) in
      elim (statement-cases d j s "failed to delete pricing"
        (λ db. (
          ok (any (λ (r : PricingRow d.Decimal). r.id == id) db.pricing),
          record db {
            pricing = filter (λ (r : PricingRow d.Decimal). not (r.id == id)) db.pricing;
          },
        ))
        db) [
          | inr fails ↦ rw fails (passes, allowed)
          | inl runs ↦ rw runs (
            first_uncovered-Covers (configs d j parse_decimal (rules_of after)) fewer (models_of db)
                (λ provider model h. any-rules_of _ after ∙ sym (same _) ∙ h) allowed,
            first_uncovered-Covers
                (configs d j parse_decimal (without d j parse_decimal id (rules_of after))) fewer
                (models_of db)
                (λ provider model h.
                  any-without _ id after ∙ again id _ db.pricing ∙ sym (any-without _ id db) ∙ h)
                allowed,
          )
        ]
    where
      again :
          (id : Uuid) (p : PricingRow d.Decimal → Bool) (rows : List (PricingRow d.Decimal))
          → any (λ r. not (r.id == id) && p r) (filter (λ r. not (r.id == id)) rows)
            ≡ any (λ r. not (r.id == id) && p r) rows
      again id p [] = refl
      again id p (r ∷ rs) = ground (arith, again id p rs)

  -- A rule takes the values of another.
  updated-Passes :
      (id : Uuid) (config : PricingConfig d) (now : DateTime) (db : Database d j)
      → any (λ (r : PricingRow d.Decimal). r.id == id) db.pricing ≡ true
      → Passes (replaced d j parse_decimal id config) db
      → Passes (replaced d j parse_decimal id config) (record db {
        pricing = update_where (λ r. r.id == id) (priced d j config now) db.pricing;
      })
  updated-Passes id config now db found (passes, allowed) =
      let rows =
        update_where (λ (r : PricingRow d.Decimal). r.id == id) (priced d j config now)
          db.pricing in
      let after = record db { pricing = rows } in
      let fewer = configs d j parse_decimal (replaced d j parse_decimal id config (rules_of db)) in
      (
        first_uncovered-Covers (configs d j parse_decimal (rules_of after)) fewer (models_of db)
            (λ provider model h.
              any-rules_of _ after
              ∙ any-update_where _ _ (priced d j config now) db.pricing
              ∙ any_at (λ (r : PricingRow d.Decimal). r.id == id) _ _ db.pricing found
                  (sym (any-replaced _ id config db) ∙ h))
            allowed,
        first_uncovered-Covers
            (configs d j parse_decimal (replaced d j parse_decimal id config (rules_of after)))
            fewer (models_of db)
            (λ provider model h.
              any-replaced _ id config after
              ∙ ap (λ b. b || config.provider == provider && config.model == model)
                  (any-update_where _ _ (priced d j config now) db.pricing
                    ∙ again id _ _ db.pricing)
              ∙ sym (any-replaced _ id config db)
              ∙ h)
            allowed,
      )
    where
      again :
          (id : Uuid) (p q : PricingRow d.Decimal → Bool) (rows : List (PricingRow d.Decimal))
          → any (λ r. if r.id == id then not (r.id == id) && q r else not (r.id == id) && p r) rows
            ≡ any (λ r. not (r.id == id) && p r) rows
      again id p q [] = refl
      again id p q (r ∷ rs) = ground (arith, again id p q rs)

  rule_written-Passes :
      (id : Uuid) (config : PricingConfig d) (now : DateTime) (db : Database d j)
      → Passes (replaced d j parse_decimal id config) db
      → Passes (replaced d j parse_decimal id config) (write_rule d j s config id now db).1
  rule_written-Passes id config now db passes =
      elim (statement-cases d j s "failed to update pricing"
        (λ db.
          if any (λ (r : PricingRow d.Decimal). r.id == id) db.pricing
          then (
            ok tt,
            record db {
              pricing =
                  update_where (λ (r : PricingRow d.Decimal). r.id == id) (priced d j config now)
                    db.pricing;
            },
          )
          else (err (failed "failed to update pricing"), db))
        db) [
          | inr fails ↦ rw fails passes
          | inl runs ↦
              elim (Bool-cases (any (λ (r : PricingRow d.Decimal). r.id == id) db.pricing)) [
                | inr missing ↦ rw (runs, missing) passes
                | inl found ↦
                    rw (runs, found) (updated-Passes id config now (sent d j s db) found passes)
              ]
        ]

  pub update_pricing-Passes :
      (id : Uuid) (config : PricingConfig d)
      → StoreKeeps d j
          (Passes (replaced d j parse_decimal id config))
          (Store.update_pricing d j s id config)
  unfolding Store.update_pricing
  update_pricing-Passes id config =
      bind-StoreKeeps d j P
        (select d j s "failed to query pricing" (λ db. find (λ r. r.id == id) db.pricing))
        (replace_rule d j s config id) (select-StoreKeeps d j P s sends "failed to query pricing" _)
        rest
    where
      P : Database d j → Type 0
      P = Passes (replaced d j parse_decimal id config)

      sends : (db : Database d j) → P db → P (sent d j s db)
      sends db p = p

      onto : (row : PricingRow d.Decimal) → StoreKeeps d j P (moved_onto d j s config row)
      onto row db p = elim (Bool-cases (is_for d j s config row)) [
        | inl stays ↦ rw stays p
        | inr moves ↦ rw moves (select-StoreKeeps d j P s sends "failed to query pricing" _ db p)
      ]

      written : (collides : Bool) → StoreKeeps d j P (write_unless d j s config id collides)
      written true db p = p
      written false db p =
          bind-StoreKeeps d j P (write_rule d j s config id (s.now db.statements)) (λ t. pure true)
            (rule_written-Passes id config (s.now db.statements)) (λ t db p. p) db p

      rest :
          (row : Option (PricingRow d.Decimal))
          → StoreKeeps d j P (replace_rule d j s config id row)
      rest none = λ db p. p
      rest (some row) =
          bind-StoreKeeps d j P (moved_onto d j s config row) (write_unless d j s config id)
            (onto row) written

  rule_inserted-PassesGate :
      (config : PricingConfig d) (id : Uuid) (now : DateTime) (db : Database d j)
      → PassesGate db
      → PassesGate (insert_rule d j s config id now db).1
  rule_inserted-PassesGate config id now db passes =
      let taken =
        any (λ (r : PricingRow d.Decimal). r.id == id || is_for d j s config r) db.pricing in
      let after = record (sent d j s db) {
        pricing = db.pricing ++ (new_rule d j s config id now ∷ []);
      } in
      elim (statement-cases d j s "failed to insert pricing"
        (λ db.
          if any (λ (r : PricingRow d.Decimal). r.id == id || is_for d j s config r) db.pricing
          then (err (failed "failed to insert pricing"), db)
          else (
            ok (new_rule d j s config id now),
            record db { pricing = db.pricing ++ (new_rule d j s config id now ∷ []) },
          ))
        db) [
          | inr fails ↦ rw fails passes
          | inl runs ↦ elim (Bool-cases taken) [
            | inl there ↦ rw (runs, there) passes
            | inr fresh ↦
                rw (runs, fresh)
                  (first_uncovered-Covers (configs d j parse_decimal (rules_of after))
                    (configs d j parse_decimal (rules_of db)) (models_of db)
                    (λ provider model h.
                      any-rules_of _ after
                      ∙ any-append _ db.pricing _
                      ∙ ap
                          (λ b.
                            b || (config.provider == provider && config.model == model || false))
                          (sym (any-rules_of _ db) ∙ h))
                    passes)
          ]
        ]

  pub create_pricing-PassesGate :
      (config : PricingConfig d) → StoreKeeps d j PassesGate (Store.create_pricing d j s config)
  unfolding Store.create_pricing
  create_pricing-PassesGate config =
      bind-StoreKeeps d j PassesGate (rule_exists d j s config) (insert_unless d j s config)
        (select-StoreKeeps d j PassesGate s (λ db p. p) "failed to query pricing" _) inserted
    where
      inserted : (found : Bool) → StoreKeeps d j PassesGate (insert_unless d j s config found)
      inserted true db p = p
      inserted false db p =
          bind-StoreKeeps d j PassesGate
            (insert_rule d j s config (s.new_id db.statements) (s.now db.statements))
            (λ row. pure (s.new_id db.statements))
            (rule_inserted-PassesGate config (s.new_id db.statements) (s.now db.statements))
            (λ row db p. p) db p
