-- ===== src/Admin/Rules/Gate.antt =====
-- The listing gate holds after every change of the pricing rules (src/admin/catalog_api.rs).
use lite_agentify.Prelude.{
  ℕ, String, Bool, true, false, inl, inr, Option, List, string_eq, nat_eq, Result, ok, err,
  Option-cases,
}
use lite_agentify.Model.{Uuid}
use lite_agentify.Config.{RetryConfig}
use lite_agentify.Decimal.{DecimalOps}
use lite_agentify.Pricing.{PricingConfig}
use lite_agentify.Build.{UriParser}
use lite_agentify.State.{Arc}
use lite_agentify.Account.Database.{
  ColumnJson, StoreError, Server, Database, sent, order_by, statement-cases,
}
use lite_agentify.Catalog.Rules.{
  PricingRecord, pricing_config, pricing_record, priced, before_rule, new_rule, is_for, rule_exists,
  insert_rule, insert_unless, moved_onto, write_rule, write_unless, replace_rule,
}
use lite_agentify.Catalog.Rules as Store
use lite_agentify.Catalog.Models.{before_row, list_models}
use lite_agentify.Session.{SessionIdentity}
use lite_agentify.Admin.{AdminState, Handler, done, internal, with_store}
use lite_agentify.Admin.Keeps.{
  Keeps, for_admin-Keeps, with_store-Keeps, on_found-Keeps, refresh_catalog_and_respond-Keeps,
}
use lite_agentify.Admin.Providers.{refreshed, with_checked}
use lite_agentify.Admin.Rules.{
  PricingBody, first_uncovered, configs, without, replaced, build_pricing, create_pricing,
  update_pricing, delete_pricing, pass_gate, with_pricing_gate, on_created, on_updated, on_deleted,
  rule_missing, save_new, save_changed,
}
use lite_agentify.Admin.Rules.Passes.{
  PassesGate, Passes, rules_of, models_of, delete_pricing-Passes, update_pricing-Passes,
  create_pricing-PassesGate,
}

module _ (d : DecimalOps) (j : ColumnJson) (parse_decimal : String → Option d.Decimal)
    (s : Server) where
  -- Behind the gate, a handler starts with rules that pass it with the change.
  module _ {E : Type 0} (load_from_path : String → Result E RetryConfig) (parse_uri : UriParser)
      (fresh_counter : Arc) where
    passed :
        (mutate : List (PricingRecord d j) → List (PricingRecord d j)) (handler : Handler d j)
        (state : AdminState d j) (db : Database d j)
        → PassesGate d j parse_decimal s db
        → (((after : AdminState d j)
            → Passes d j parse_decimal s mutate after.database
            → PassesGate d j parse_decimal s (handler after).1.database))
        → PassesGate d j parse_decimal s
            (pass_gate d j parse_decimal handler
              (first_uncovered d j parse_decimal
                (configs d j parse_decimal (mutate (rules_of d j parse_decimal s db)))
                (models_of d j parse_decimal s db))
              (record state { database = db })).1.database
    passed mutate handler state db p keeps =
        let found =
          first_uncovered d j parse_decimal
            (configs d j parse_decimal (mutate (rules_of d j parse_decimal s db)))
            (models_of d j parse_decimal s db) in
        elim (Option-cases found) [
          | inl nothing ↦ rw nothing (keeps (record state { database = db }) (p, nothing))
          | inr (uncovered, there) ↦ rw there p
        ]

    with_pricing_gate-Keeps :
        (mutate : List (PricingRecord d j) → List (PricingRecord d j)) (handler : Handler d j)
        → ((state : AdminState d j)
            → Passes d j parse_decimal s mutate state.database
            → PassesGate d j parse_decimal s (handler state).1.database)
        → Keeps d j (PassesGate d j parse_decimal s) (
            with_pricing_gate d j parse_decimal load_from_path parse_uri fresh_counter s mutate
              handler)
    unfolding with_pricing_gate Store.list_pricing list_models
    with_pricing_gate-Keeps mutate handler keeps state p =
        let db = state.database in
        let once = sent d j s db in
        let twice = sent d j s once in
        elim (statement-cases d j s "failed to list pricing"
          (λ db. (ok (order_by (before_rule d j s) db.pricing), db)) db) [
            | inr fails ↦ rw (with_pricing_gate, Store.list_pricing, fails) p
            | inl rules ↦
                elim (statement-cases d j s "failed to list models"
                  (λ db. (ok (order_by (λ m n. s.collates m.name n.name) db.models), db)) once) [
                    | inr fails ↦
                        rw (with_pricing_gate, Store.list_pricing, rules, list_models, fails) p
                    | inl models ↦
                        elim (statement-cases d j s "failed to list deployments"
                          (λ db. (ok (order_by (before_row d j s) db.deployments), db)) twice) [
                            | inr fails ↦
                                rw
                                  (
                                    with_pricing_gate, Store.list_pricing, rules, list_models,
                                    models, fails,
                                  )
                                  p
                            | inl rows ↦
                                rw
                                  (
                                    with_pricing_gate, Store.list_pricing, rules, list_models,
                                    models, rows,
                                  )
                                  (passed mutate handler state (sent d j s twice) p keeps)
                          ]
                  ]
          ]

    refreshed-Keeps :
        (P : Database d j → Type 0) (sends : (db : Database d j) → P db → P (sent d j s db))
        (status : ℕ)
        → Keeps d j P (refreshed d j load_from_path parse_uri fresh_counter s status)
    refreshed-Keeps P sends status =
        refresh_catalog_and_respond-Keeps d j P s sends load_from_path parse_uri fresh_counter
          status done

    on_updated-Keeps :
        (P : Database d j → Type 0) (sends : (db : Database d j) → P db → P (sent d j s db))
        (outcome : Result StoreError Bool)
        → Keeps d j P
            (on_updated d j parse_decimal load_from_path parse_uri fresh_counter s outcome)
    on_updated-Keeps P sends (ok true) = refreshed-Keeps P sends 200
    on_updated-Keeps P sends (ok false) = λ state p. p
    on_updated-Keeps P sends (err e) = λ state p. p

    with_checked-Keeps :
        {A : Type 0} (checked : Result String A) (handler : A → Handler d j)
        → ((a : A) → Keeps d j (PassesGate d j parse_decimal s) (handler a))
        → Keeps d j (PassesGate d j parse_decimal s) (with_checked d j checked handler)
    with_checked-Keeps (ok a) handler keeps = keeps a
    with_checked-Keeps (err message) handler keeps = λ state p. p

    on_created-Keeps :
        (outcome : Result StoreError Uuid)
        → Keeps d j
            (PassesGate d j parse_decimal s)
            (on_created d j parse_decimal load_from_path parse_uri fresh_counter s outcome)
    on_created-Keeps (ok id) = refreshed-Keeps (PassesGate d j parse_decimal s) (λ db p. p) 201
    on_created-Keeps (err e) = λ state p. p

    save_new-Keeps :
        (config : PricingConfig d)
        → Keeps d j
            (PassesGate d j parse_decimal s)
            (save_new d j parse_decimal load_from_path parse_uri fresh_counter s config)
    save_new-Keeps config =
        with_store-Keeps d j (PassesGate d j parse_decimal s) (Store.create_pricing d j s config)
          (on_created d j parse_decimal load_from_path parse_uri fresh_counter s)
          (create_pricing-PassesGate d j parse_decimal s config) on_created-Keeps

    save_changed-Keeps :
        (id : Uuid) (config : PricingConfig d)
        → Keeps d j
            (PassesGate d j parse_decimal s)
            (save_changed d j parse_decimal load_from_path parse_uri fresh_counter s id config)
    save_changed-Keeps id config =
        with_pricing_gate-Keeps (replaced d j parse_decimal id config)
          (with_store d j (Store.update_pricing d j s id config)
            (on_updated d j parse_decimal load_from_path parse_uri fresh_counter s))
          λ state p.
            (with_store-Keeps d j
              (Passes d j parse_decimal s (replaced d j parse_decimal id config))
              (Store.update_pricing d j s id config)
              (on_updated d j parse_decimal load_from_path parse_uri fresh_counter s)
              (update_pricing-Passes d j parse_decimal s id config)
              (on_updated-Keeps (Passes d j parse_decimal s (replaced d j parse_decimal id config))
                (λ db p. p))
              state p).0

    on_deleted-Keeps :
        (P : Database d j → Type 0) (sends : (db : Database d j) → P db → P (sent d j s db))
        (outcome : Result StoreError Bool)
        → Keeps d j P
            (on_deleted d j parse_decimal load_from_path parse_uri fresh_counter s outcome)
    on_deleted-Keeps P sends outcome =
        on_found-Keeps d j P (refreshed d j load_from_path parse_uri fresh_counter s 200)
          (rule_missing d j parse_decimal load_from_path parse_uri fresh_counter s)
          (internal d j "failed to delete pricing") outcome (refreshed-Keeps P sends 200)

    delete-Keeps :
        (id : Uuid)
        → Keeps d j (PassesGate d j parse_decimal s) (
            with_pricing_gate d j parse_decimal load_from_path parse_uri fresh_counter s
              (without d j parse_decimal id)
              (with_store d j
                (Store.delete_pricing d j s id)
                (on_deleted d j parse_decimal load_from_path parse_uri fresh_counter s)))
    delete-Keeps id =
        with_pricing_gate-Keeps (without d j parse_decimal id)
          (with_store d j (Store.delete_pricing d j s id)
            (on_deleted d j parse_decimal load_from_path parse_uri fresh_counter s))
          λ state p.
            (with_store-Keeps d j (Passes d j parse_decimal s (without d j parse_decimal id))
              (Store.delete_pricing d j s id)
              (on_deleted d j parse_decimal load_from_path parse_uri fresh_counter s)
              (delete_pricing-Passes d j parse_decimal s id)
              (on_deleted-Keeps (Passes d j parse_decimal s (without d j parse_decimal id))
                (λ db p. p))
              state p).0

    -- If every enabled model has a price for each of its deployments, by the rules and models that
    -- the store lists, then that is so after a pricing rule is created, updated or deleted, whatever
    -- the answer is and whichever statements fail.
    pub pricing_handlers-PassesGate :
        (identity : SessionIdentity) (id : Uuid) (body : PricingBody) (state : AdminState d j)
        → PassesGate d j parse_decimal s state.database
        → PassesGate d j parse_decimal s
            (create_pricing d j parse_decimal load_from_path parse_uri fresh_counter s identity body
              state).1.database
          × PassesGate d j parse_decimal s
              (update_pricing d j parse_decimal load_from_path parse_uri fresh_counter s identity id
                body state).1.database
          × PassesGate d j parse_decimal s
              (delete_pricing d j parse_decimal load_from_path parse_uri fresh_counter s identity id
                state).1.database
    unfolding create_pricing update_pricing delete_pricing
    pricing_handlers-PassesGate identity id body state p = (
      for_admin-Keeps d j (PassesGate d j parse_decimal s) identity
          (with_checked d j (build_pricing d j parse_decimal body)
            (save_new d j parse_decimal load_from_path parse_uri fresh_counter s))
          (with_checked-Keeps (build_pricing d j parse_decimal body)
            (save_new d j parse_decimal load_from_path parse_uri fresh_counter s) save_new-Keeps)
          state p,
      for_admin-Keeps d j (PassesGate d j parse_decimal s) identity
          (with_checked d j (build_pricing d j parse_decimal body)
            (save_changed d j parse_decimal load_from_path parse_uri fresh_counter s id))
          (with_checked-Keeps (build_pricing d j parse_decimal body)
            (save_changed d j parse_decimal load_from_path parse_uri fresh_counter s id)
            (save_changed-Keeps id))
          state p,
      for_admin-Keeps d j (PassesGate d j parse_decimal s) identity
          (with_pricing_gate d j parse_decimal load_from_path parse_uri fresh_counter s
            (without d j parse_decimal id)
            (with_store d j (Store.delete_pricing d j s id)
              (on_deleted d j parse_decimal load_from_path parse_uri fresh_counter s)))
          (delete-Keeps id) state p,
    )
