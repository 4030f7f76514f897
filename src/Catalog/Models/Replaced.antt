-- ===== src/Catalog/Models/Replaced.antt =====
-- A chain is replaced as a whole, `set_deployments` in src/catalog/store.rs.
use mathlib.Core.List.{append-nil, append_assoc}
use lite_agentify.Prelude.{
  ℕ, suc, String, Bool, true, false, not, ◌≡◌, refl, sym, ap, ◌∙◌, subst, inl, inr, Option, none,
  some, List, [], ◌∷◌, ◌++◌, map, any, filter, find, All, is_some, arith, ◌==◌, string_eq,
  if◌then◌else◌, Result, ok, err, Option-cases, filter-append,
}
use lite_agentify.Prelude.Effects.{feed, pure, ◌>>=◌, ◌>>◌}
use lite_agentify.Decimal.{DecimalOps}
use lite_agentify.Account.Database.{
  ColumnJson, StoreError, failed, Server, Database, Db, sent, order_by, update_where, select,
  statement, statement-cases, end_transaction,
}
use lite_agentify.Catalog.Entity.{ProviderRow, ModelRow, DeploymentRow}
use lite_agentify.Catalog.Models.{
  new_deployment, insert_deployment, insert_deployments, is_broken, clear_deployments, find_model,
  touch_model, replace_deployments, repeated, set_deployments,
}
use lite_agentify.Catalog.Models.Succeeds.{IsKnown, row_of, IsSmooth, set_deployments-IsSmooth}
use lite_agentify.Catalog.Models.Chain.{
  pair_of, by_priority, IsChain, is_of, map-IsChain, filter-IsChain, order_by-IsChain,
  filter_others, Distinct, providers_of, repeated-Distinct,
}

module _ (d : DecimalOps) (j : ColumnJson) (s : Server) where
  -- What holds after a call that succeeds.
  abbrev OnOk :
      {A : Type 0} → (A → Database d j → Type 0) → Result StoreError A × Database d j → Type 0
  OnOk Q (ok a, db) = Q a db
  OnOk Q (err e, db) = Unit

  bind-OnOk :
      {A B : Type 0} (Q : A → Database d j → Type 0) (R : B → Database d j → Type 0)
      (f : A → Db d j B) (r : Result StoreError A × Database d j)
      → OnOk Q r
      → ((a : A) (db : Database d j) → Q a db → OnOk R (f a db))
      → OnOk R (feed f r)
  bind-OnOk Q R f (ok a, db) q next = next a db q
  bind-OnOk Q R f (err e, db) q next = tt

  -- A statement that leaves the deployments.
  statement-OnOk :
      {A : Type 0} (context : String) (op : Database d j → Result StoreError A × Database d j)
      (Q : A → Database d j → Type 0) (db : Database d j)
      → OnOk Q (op (sent d j s db))
      → OnOk Q (statement d j s context op db)
  statement-OnOk context op Q db q = elim (statement-cases d j s context op db) [
    | inl runs ↦ rw runs q
    | inr fails ↦ rw fails tt
  ]

  -- The deployments are those of before and the rows of a chain, whose providers are among the
  -- given ones, and these are the providers of the table.
  abbrev Extended :
      List (ProviderRow j.Value)
      → String
      → ℕ
      → List (String × String)
      → List DeploymentRow
      → Database d j
      → Type 0
  Extended providers name priority chain before after =
      (rows : List DeploymentRow) × (after.deployments ≡ before ++ rows)
      × IsChain name priority rows chain
      × (after.providers ≡ providers)
      × All (IsKnown d j s providers) chain

  -- A step changes at most the models.
  abbrev KeepsTables : Database d j → Database d j → Type 0
  KeepsTables db after = (after.deployments ≡ db.deployments) × (after.providers ≡ db.providers)

  abbrev Added : DeploymentRow → Database d j → Database d j → Type 0
  Added row db after =
      (after.deployments ≡ db.deployments ++ (row ∷ []))
      × (after.providers ≡ db.providers)
      × (any (λ p. p.id == row.provider_id) db.providers ≡ true)

  inserted-OnOk :
      (row : DeploymentRow) (db : Database d j)
      → OnOk (λ r after. Added row db after) (insert_deployment d j s row db)
  inserted-OnOk row db =
      statement-OnOk "failed to insert deployment" _ _ db
        (inserted (is_broken d j s row (sent d j s db)) refl)
    where
      inserted :
          (broken : Bool)
          → is_broken d j s row (sent d j s db) ≡ broken
          → OnOk {A = DeploymentRow}
              (λ r after. Added row db after)
              (if broken then (err (failed "failed to insert deployment"), sent d j s db) else (
                ok row,
                record (sent d j s db) { deployments = db.deployments ++ (row ∷ []) },
              ))
      inserted true e = tt
      inserted false e = (refl, refl, ground (arith, e))

  insert_deployments-OnOk :
      (providers : List (ProviderRow j.Value)) (name : String) (priority : ℕ)
      (chain : List (String × String)) (db : Database d j)
      → db.providers ≡ providers
      → OnOk
          (λ t after. Extended providers name priority chain db.deployments after)
          (insert_deployments d j s name priority chain db)
  unfolding insert_deployments
  insert_deployments-OnOk providers name priority [] db same =
      ([], sym (append-nil db.deployments), tt, same, tt)
  insert_deployments-OnOk providers name priority ((provider_id, upstream_model) ∷ chain) db same =
      let row = new_deployment (s.new_id db.statements) name priority provider_id upstream_model in
      bind-OnOk (λ r after. Added row db after)
        (λ t after.
          Extended providers name priority ((provider_id, upstream_model) ∷ chain) db.deployments
            after)
        (λ r. insert_deployments d j s name (suc priority) chain) (insert_deployment d j s row db)
        (inserted-OnOk row db)
        λ r middle added.
          weaken row middle added.0
            (subst (λ ps. any (λ p. p.id == row.provider_id) ps ≡ true) same added.2)
            (insert_deployments d j s name (suc priority) chain middle)
            (insert_deployments-OnOk providers name (suc priority) chain middle (added.1 ∙ same))
            refl refl refl
    where
      weaken :
          (row : DeploymentRow) (middle : Database d j)
          → middle.deployments ≡ db.deployments ++ (row ∷ [])
          → any (λ p. p.id == row.provider_id) providers ≡ true
          → (r : Result StoreError (Unit {0}) × Database d j)
          → OnOk
              (λ t after. Extended providers name (suc priority) chain middle.deployments after)
              r
          → row.model_name ≡ name
          → pair_of row ≡ (provider_id, upstream_model)
          → row.priority ≡ priority
          → OnOk
              (λ t after.
                Extended providers name priority
                  ((provider_id, upstream_model) ∷ chain)
                  db.deployments
                  after)
              r
      weaken row middle added known (err e, after) h n p q = tt
      weaken row middle added known (ok t, after) (rows, is, chained, kept, others) n p q = (
        row ∷ rows,
        is ∙ ap (λ xs. xs ++ rows) added ∙ append_assoc db.deployments (row ∷ []) rows,
        (n, p, q, chained),
        kept,
        (
          subst (λ id. any (λ p. p.id == id) providers ≡ true) (ap (λ pair. pair.0) p) known,
          others,
        ),
      )

  abbrev commit : Db d j Bool
  commit = select d j s "failed to commit deployments" (λ db. tt) >> pure true

  abbrev touch : String → Option ModelRow → Db d j Bool
  touch name again = touch_model d j s name again >> commit

  abbrev find_and_touch : String → Db d j Bool
  find_and_touch name = find_model d j s name >>= touch name

  -- A step that leaves deployments and providers keeps what they are.
  kept-OnOk :
      {A : Type 0} (providers : List (ProviderRow j.Value)) (name : String)
      (chain : List (String × String)) (others : List DeploymentRow) (db : Database d j)
      (r : Result StoreError A × Database d j)
      → OnOk (λ a after. KeepsTables db after) r
      → Extended providers name 0 chain others db
      → OnOk (λ a after. Extended providers name 0 chain others after) r
  kept-OnOk providers name chain others db (err e, after) same extended = tt
  kept-OnOk providers name chain others db (ok a, after) (same, kept)
        (rows, is, chained, all, known) =
      (rows, same ∙ is, chained, kept ∙ all, known)

  touch_model-OnOk :
      (name : String) (again : Option ModelRow) (db : Database d j)
      → OnOk (λ t after. KeepsTables db after) (touch_model d j s name again db)
  touch_model-OnOk name none db = tt
  touch_model-OnOk name (some row) db =
      statement-OnOk "failed to touch model" _ _ db
        (touched (any (λ (m : ModelRow). m.name == name) db.models))
    where
      touched :
          (there : Bool)
          → OnOk {A = Unit {0}}
              (λ t after. KeepsTables db after)
              (if there
                then (
                  ok tt,
                  record (sent d j s db) {
                    models =
                        update_where
                          (λ (m : ModelRow). m.name == name)
                          (λ m. record m { updated_at = s.now db.statements })
                          db.models;
                  },
                )
                else (err (failed "failed to touch model"), sent d j s db))
      touched true = (refl, refl)
      touched false = tt

  -- The chain as `get_model` reads it.
  abbrev pub chain_of : String → Database d j → List (String × String)
  chain_of name db =
      map pair_of (order_by by_priority (filter (λ r. r.model_name == name) db.deployments))

  -- The deployments of the other models.
  abbrev pub others_of : String → Database d j → List DeploymentRow
  others_of name db = filter (λ r. not (r.model_name == name)) db.deployments

  -- The tables of the catalog are as before.
  abbrev pub Unchanged : Database d j → Database d j → Type 0
  Unchanged before after =
      (after.deployments ≡ before.deployments)
      × (after.models ≡ before.models)
      × (after.providers ≡ before.providers)

  -- The outcomes of `set_deployments`.
  abbrev pub Changed :
      String
      → List (String × String)
      → Database d j
      → Result StoreError Bool × Database d j
      → Type 0
  Changed name chain before (ok true, after) =
      (chain_of name after ≡ chain)
      × (others_of name after ≡ others_of name before)
      × (is_some (row_of d j s name before) ≡ true)
      × Distinct (providers_of chain)
      × All (IsKnown d j s before.providers) chain
  Changed name chain before (ok false, after) =
      Unchanged before after × (row_of d j s name before ≡ none)
  Changed name chain before (err e, after) = Unchanged before after

  -- There is an error only if something stands against the chain.
  abbrev pub HasReason :
      String
      → List (String × String)
      → Database d j
      → Result StoreError Bool × Database d j
      → Type 0
  HasReason name chain before (ok found, after) = Unit
  HasReason name chain before (err e, after) = ¬ IsSmooth d j s name chain before

  succeeds-HasReason :
      (name : String) (chain : List (String × String)) (before : Database d j)
      (r : Result StoreError Bool × Database d j)
      → (IsSmooth d j s name chain before → r.0 ≡ ok true)
      → HasReason name chain before r
  succeeds-HasReason name chain before (ok found, after) succeeds = tt
  succeeds-HasReason name chain before (err e, after) succeeds =
      λ smooth. let done = succeeds smooth in cc

  abbrev pub Replaced :
      String
      → List (String × String)
      → Database d j
      → Result StoreError Bool × Database d j
      → Type 0
  Replaced name chain before r = Changed name chain before r × HasReason name chain before r

  -- What the body of the transaction has done when it succeeds.
  abbrev Done : String → List (String × String) → Database d j → Bool → Database d j → Type 0
  Done name chain before true after =
      Extended before.providers name 0 chain (others_of name before) after
      × (is_some (row_of d j s name before) ≡ true)
  Done name chain before false after = Unchanged before after × (row_of d j s name before ≡ none)

  rest-OnOk :
      (name : String) (chain : List (String × String)) (before db : Database d j)
      → is_some (row_of d j s name before) ≡ true
      → Extended before.providers name 0 chain (others_of name before) db
      → OnOk (Done name chain before) (find_and_touch name db)
  rest-OnOk name chain before db there extended =
      let others = others_of name before in
      bind-OnOk (λ again after. E after) (Done name chain before) (touch name)
        (find_model d j s name db)
        (kept-OnOk before.providers name chain others db (find_model d j s name db)
          (statement-OnOk "failed to query model" _ _ db (refl, refl)) extended)
        λ again found e.
          bind-OnOk (λ t after. E after) (Done name chain before) (λ t. commit)
            (touch_model d j s name again found)
            (kept-OnOk before.providers name chain others found (touch_model d j s name again found)
              (touch_model-OnOk name again found) e)
            λ t touched e.
              bind-OnOk (λ t after. E after) (Done name chain before) (λ t. pure true)
                (select d j s "failed to commit deployments" (λ db. tt) touched)
                (kept-OnOk before.providers name chain others touched
                  (select d j s "failed to commit deployments" (λ db. tt) touched)
                  (statement-OnOk "failed to commit deployments" _ _ touched (refl, refl)) e)
                λ t committed e. (e, there)
    where
      E : Database d j → Type 0
      E after = Extended before.providers name 0 chain (others_of name before) after

  replace_deployments-OnOk :
      (name : String) (chain : List (String × String)) (row : Option ModelRow)
      (before db : Database d j)
      → Unchanged before db
      → row_of d j s name before ≡ row
      → OnOk (Done name chain before) (replace_deployments d j s name chain row db)
  replace_deployments-OnOk name chain none before db same found = (same, found)
  replace_deployments-OnOk name chain (some row) before db (same, models, providers) found =
      let others = others_of name before in
      bind-OnOk (λ t after. (after.deployments ≡ others) × (after.providers ≡ before.providers))
        (Done name chain before) (λ t. insert_deployments d j s name 0 chain >> find_and_touch name)
        (clear_deployments d j s name db)
        (statement-OnOk "failed to clear deployments" _ _ db
          (ap (filter (λ (r : DeploymentRow). not (r.model_name == name))) same, providers))
        λ t cleared are.
          bind-OnOk (λ t after. Extended before.providers name 0 chain others after)
            (Done name chain before) (λ t. find_and_touch name)
            (insert_deployments d j s name 0 chain cleared)
            (subst
              (λ rows.
                OnOk (λ t after. Extended before.providers name 0 chain rows after)
                  (insert_deployments d j s name 0 chain cleared))
              are.0 (insert_deployments-OnOk before.providers name 0 chain cleared are.1))
            λ t extended e. rest-OnOk name chain before extended (ap is_some found) e

  finished :
      (name : String) (chain : List (String × String)) (before : Database d j)
      (r : Result StoreError Bool × Database d j)
      → Distinct (providers_of chain)
      → OnOk (Done name chain before) r
      → Changed name chain before (end_transaction d j s before r)
  finished name chain before (err e, after) once done = (refl, refl, refl)
  finished name chain before (ok false, after) once done = done
  finished name chain before (ok true, after) once ((rows, are, chained, kept, known), there) =
      let others = others_of name before in
      let mine = filter-IsChain name 0 rows chain chained in
      let apart = filter_others name before.deployments in
      let read : filter (is_of name) after.deployments ≡ rows =
        ap (filter (is_of name)) are
        ∙ filter-append (is_of name) others rows
        ∙ ap (λ xs. xs ++ filter (is_of name) rows) apart.0
        ∙ mine.0 in
      (
        ap (λ xs. map pair_of (order_by by_priority xs)) read
            ∙ ap (map pair_of) (order_by-IsChain name 0 rows chain chained)
            ∙ map-IsChain name 0 rows chain chained,
        ap (filter (λ r. not (is_of name r))) are
            ∙ filter-append (λ r. not (is_of name r)) others rows
            ∙ ap (λ xs. xs ++ filter (λ r. not (is_of name r)) rows) apart.1
            ∙ ap (λ xs. others ++ xs) mine.1
            ∙ append-nil others,
        there,
        once,
        known,
      )

  set_deployments-Changed :
      (name : String) (chain : List (String × String)) (before : Database d j)
      → Changed name chain before (set_deployments d j s name chain before)
  unfolding set_deployments
  set_deployments-Changed name chain before = elim (Option-cases (repeated chain [])) [
    | inr (provider_id, twice) ↦ rw (set_deployments, twice) (refl, refl, refl)
    | inl once ↦
        rw (set_deployments, once)
          (finished name chain before _ (repeated-Distinct chain once) (
            bind-OnOk (λ t db. Unchanged before db) (Done name chain before)
              (λ t. find_model d j s name >>= replace_deployments d j s name chain)
              (select d j s "failed to begin transaction" (λ db. tt) before)
              (statement-OnOk "failed to begin transaction" _ _ before (refl, refl, refl))
              λ t begun same.
                bind-OnOk (λ row db. Unchanged before db × (row_of d j s name before ≡ row))
                  (Done name chain before) (replace_deployments d j s name chain)
                  (find_model d j s name begun)
                  (statement-OnOk "failed to query model" _ _ begun
                    (same, ap (find (λ (m : ModelRow). m.name == name)) (sym same.1)))
                  λ row found same.
                    replace_deployments-OnOk name chain row before found same.0 same.1))
  ]

  -- A chain is replaced as a whole or not at all. After a success the model, which is there, has
  -- exactly the given deployments, in the given order, each of a provider that is there and none of
  -- a provider named twice, and the other models have theirs. So without the model, for a chain that
  -- names a provider twice or has an unknown one, and for a failure of any statement, there is no
  -- success, and then models, deployments and providers are as they were; only a missing model is
  -- reported as missing, and there is an error only if something stands against the chain: a
  -- statement that the server fails, an id that it gives again, a missing model, or a provider that
  -- is unknown or named twice.
  pub set_deployments-Replaced :
      (name : String) (chain : List (String × String)) (before : Database d j)
      → Replaced name chain before (set_deployments d j s name chain before)
  set_deployments-Replaced name chain before = (
    set_deployments-Changed name chain before,
    succeeds-HasReason name chain before (set_deployments d j s name chain before)
        (set_deployments-IsSmooth d j s name chain before),
  )
