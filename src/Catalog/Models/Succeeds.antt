-- ===== src/Catalog/Models/Succeeds.antt =====
-- When a chain can be replaced, `set_deployments` in src/catalog/store.rs.
use lite_agentify.Prelude.{
  ℕ, suc, ◌≤◌, String, Bool, true, false, not, ◌&&◌, ◌||◌, ◌≡◌, refl, ap, ◌∙◌, Option, some, List,
  [], ◌∷◌, ◌++◌, any, All, filter, find, is_some, ◌==◌, string_eq, nat_eq, ok, arith, Bool-cases,
  Option-cases, inl, inr,
}
use lite_agentify.Prelude.Effects.{feed, pure, ◌>>=◌, ◌>>◌}
use lite_agentify.Decimal.{DecimalOps}
use lite_agentify.Account.Database.{
  ColumnJson, Server, Database, Db, sent, statement_up, select, end_transaction, update_where,
}
use lite_agentify.Catalog.Entity.{ProviderRow, ModelRow, DeploymentRow}
use lite_agentify.Catalog.Models.{
  new_deployment, insert_deployment, insert_deployments, is_broken, find_model, touch_model,
  replace_deployments, set_deployments,
}
use lite_agentify.Catalog.Models.Chain.{Distinct, providers_of, Distinct-repeated}

any-or :
    {A : Type 0} (p q : A → Bool) (xs : List A)
    → any p xs ≡ false
    → any q xs ≡ false
    → any (λ x. p x || q x) xs ≡ false
any-or p q [] h k = refl
any-or p q (x ∷ xs) h k =
    let rest = any-or p q xs (ground (arith, h)) (ground (arith, k)) in ground (arith, rest, h, k)

any-snoc :
    {A : Type 0} (p : A → Bool) (xs : List A) (x : A)
    → any p xs ≡ false
    → p x ≡ false
    → any p (xs ++ (x ∷ [])) ≡ false
any-snoc p [] x h k = rw k refl
any-snoc p (y ∷ xs) x h k =
    let rest = any-snoc p xs x (ground (arith, h)) k in ground (arith, rest, h)

any-filter :
    {A : Type 0} (p q : A → Bool) (xs : List A) → any p xs ≡ false → any p (filter q xs) ≡ false
any-filter p q [] h = refl
any-filter p q (x ∷ xs) h = elim (Bool-cases (q x)) [
  | inl kept ↦ let rest = any-filter p q xs (ground (arith, h)) in rw kept (ground (arith, rest, h))
  | inr gone ↦ rw gone (any-filter p q xs (ground (arith, h)))
]

any-find : {A : Type 0} (p : A → Bool) (xs : List A) (x : A) → find p xs ≡ some x → any p xs ≡ true
any-find p [] x h = absurd (cc h)
any-find p (y ∷ xs) x h = elim (Bool-cases (p y)) [
  | inl hit ↦ rw hit refl
  | inr miss ↦ let rest = any-find p xs x (ground (arith, h, miss)) in ground (arith, rest)
]

none-left :
    (name provider_id : String) (rows : List DeploymentRow)
    → any
        (λ r. r.model_name == name && r.provider_id == provider_id)
        (filter (λ r. not (r.model_name == name)) rows)
      ≡ false
none-left name provider_id [] = refl
none-left name provider_id (r ∷ rows) = elim (Bool-cases (r.model_name == name)) [
  | inl mine ↦ rw mine (none-left name provider_id rows)
  | inr other ↦ let rest = none-left name provider_id rows in rw other (ground (arith, rest, other))
]

module _ (d : DecimalOps) (j : ColumnJson) (s : Server) where
  -- The provider of a chain's element is among the rows.
  abbrev pub IsKnown : List (ProviderRow j.Value) → String × String → Type 0
  IsKnown providers (provider_id, upstream_model) = any (λ p. p.id == provider_id) providers ≡ true

  -- The model's row.
  abbrev pub row_of : String → Database d j → Option ModelRow
  row_of name db = find (λ m. m.name == name) db.models

  -- Nothing stands against a chain: the server runs every statement and gives new ids, the model is
  -- there, and the chain names known providers, each once.
  pub record IsSmooth (name : String) (chain : List (String × String)) (db : Database d j)
      : Type 0 where
    pub up : (n : ℕ) → s.is_down n ≡ false
    pub fresh : (n : ℕ) → any (λ r. r.id == s.new_id n) db.deployments ≡ false
    pub apart : (n m : ℕ) → suc n ≤ m → (s.new_id n == s.new_id m) ≡ false
    pub there : is_some (row_of name db) ≡ true
    pub once : Distinct (providers_of chain)
    pub known : All (IsKnown db.providers) chain

  -- No deployment of the model has this provider.
  abbrev NotYet : String → List DeploymentRow → String × String → Type 0
  NotYet name rows (provider_id, upstream_model) =
      any (λ r. r.model_name == name && r.provider_id == provider_id) rows ≡ false

  -- What the insertions need.
  record IsReady (name : String) (chain : List (String × String)) (db : Database d j) : Type 0 where
    fresh : (n : ℕ) → db.statements ≤ n → any (λ r. r.id == s.new_id n) db.deployments ≡ false
    there : any (λ m. m.name == name) db.models ≡ true
    once : Distinct (providers_of chain)
    known : All (IsKnown db.providers) chain
    open_ : All (NotYet name db.deployments) chain

  module _ (up : (n : ℕ) → s.is_down n ≡ false)
      (apart : (n m : ℕ) → suc n ≤ m → (s.new_id n == s.new_id m) ≡ false) where
    insert_deployment-ok :
        (row : DeploymentRow) (db : Database d j)
        → is_broken d j s row (sent d j s db) ≡ false
        → insert_deployment d j s row db
          ≡ (ok row, record (sent d j s db) { deployments = db.deployments ++ (row ∷ []) })
    insert_deployment-ok row db fits =
        statement_up d j s "failed to insert deployment" _ db (up db.statements) ∙ rw fits refl

    fits :
        (name : String) (priority : ℕ) (provider_id upstream : String)
        (chain : List (String × String)) (db : Database d j)
        → IsReady name ((provider_id, upstream) ∷ chain) db
        → is_broken d j s
            (new_deployment (s.new_id db.statements) name priority provider_id upstream)
            (sent d j s db)
          ≡ false
    fits name priority provider_id upstream chain db h =
        let none_of =
          any-or (λ (r : DeploymentRow). r.id == s.new_id db.statements)
            (λ (r : DeploymentRow). r.model_name == name && r.provider_id == provider_id)
            db.deployments (h.fresh db.statements (omega arith)) h.open_.0 in
        ground (arith, none_of, h.there, h.known.0)

    still_open :
        (name : String) (row : DeploymentRow) (rows : List DeploymentRow)
        (chain : List (String × String))
        → any (λ other. row.provider_id == other) (providers_of chain) ≡ false
        → All (NotYet name rows) chain
        → All (NotYet name (rows ++ (row ∷ []))) chain
    still_open name row rows [] h open_ = tt
    still_open name row rows ((provider_id, upstream) ∷ chain) h (first, rest) = (
      any-snoc (λ (r : DeploymentRow). r.model_name == name && r.provider_id == provider_id) rows
          row first (ground (arith, h)),
      still_open name row rows chain (ground (arith, h)) rest,
    )

    insert_deployments-ok :
        (name : String) (priority : ℕ) (chain : List (String × String)) (db : Database d j)
        → IsReady name chain db
        → (after : Database d j) × (insert_deployments d j s name priority chain db
            ≡ (ok tt, after))
          × (after.models ≡ db.models)
    unfolding insert_deployments
    insert_deployments-ok name priority [] db h = (db, refl, refl)
    insert_deployments-ok name priority ((provider_id, upstream) ∷ chain) db h =
        let row = new_deployment (s.new_id db.statements) name priority provider_id upstream in
        let next : Database d j = record (sent d j s db) {
          deployments = db.deployments ++ (row ∷ []);
        } in
        let (after, runs, models) = insert_deployments-ok name (suc priority) chain next (record {
          fresh = λ n later.
              any-snoc (λ (r : DeploymentRow). r.id == s.new_id n) db.deployments row
                (h.fresh n (omega (arith, later))) (apart db.statements n later);
          there = h.there;
          once = h.once.1;
          known = h.known.1;
          open_ = still_open name row db.deployments chain h.once.0 h.open_.1;
        }) in
        (
          after,
          ap (feed (λ (r : DeploymentRow). insert_deployments d j s name (suc priority) chain))
                (insert_deployment-ok row db (fits name priority provider_id upstream chain db h))
              ∙ runs,
          models,
        )

    find_model-ok :
        (name : String) (db : Database d j)
        → find_model d j s name db ≡ (ok (row_of name db), sent d j s db)
    find_model-ok name db = statement_up d j s "failed to query model" _ db (up db.statements)

    select-ok :
        (context : String) (db : Database d j)
        → select d j s context (λ db. tt {0}) db ≡ (ok tt, sent d j s db)
    select-ok context db = statement_up d j s context _ db (up db.statements)

    touch_model-ok :
        (name : String) (row : ModelRow) (db : Database d j)
        → any (λ m. m.name == name) db.models ≡ true
        → (after : Database d j) × (touch_model d j s name (some row) db ≡ (ok tt, after))
    touch_model-ok name row db there = (
      record (sent d j s db) {
        models =
            update_where (λ (m : ModelRow). m.name == name)
              (λ m. record m { updated_at = s.now db.statements }) db.models;
      },
      statement_up d j s "failed to touch model" _ db (up db.statements) ∙ rw there refl,
    )

    -- The last three statements of the transaction.
    rest-ok :
        (name : String) (row : ModelRow) (db : Database d j)
        → row_of name db ≡ some row
        → (after : Database d j) × ((find_model d j s name >>= (λ again.
                touch_model d j s name again
                >> (select d j s "failed to commit deployments" (λ db. tt {0}) >> pure true)))
              db
            ≡ (ok true, after))
    rest-ok name row db found =
        let asked = sent d j s db in
        let (touched, runs) =
          touch_model-ok name row asked
            (any-find (λ (m : ModelRow). m.name == name) db.models row found) in
        (
          sent d j s touched,
          ap
                (feed (λ again.
                  touch_model d j s name again
                  >> (select d j s "failed to commit deployments" (λ db. tt {0}) >> pure true)))
                (find_model-ok name db)
              ∙ ap
                  (λ again.
                    (touch_model d j s name again
                        >> (select d j s "failed to commit deployments" (λ db. tt {0})
                            >> pure true))
                      asked)
                  found
              ∙ ap
                  (feed (λ (t : Unit {0}).
                    select d j s "failed to commit deployments" (λ db. tt {0}) >> pure true))
                  runs
              ∙ ap (feed (λ (t : Unit {0}). pure {A = Bool} true))
                  (select-ok "failed to commit deployments" touched),
        )

    replace-ok :
        (name : String) (chain : List (String × String)) (row : ModelRow) (db : Database d j)
        → row_of name db ≡ some row
        → ((n : ℕ) → any (λ r. r.id == s.new_id n) db.deployments ≡ false)
        → Distinct (providers_of chain)
        → All (IsKnown db.providers) chain
        → (after : Database d j) × (replace_deployments d j s name chain (some row) db
            ≡ (ok true, after))
    replace-ok name chain row db found fresh once known =
        let others = filter (λ (r : DeploymentRow). not (r.model_name == name)) db.deployments in
        let cleared : Database d j = record (sent d j s db) { deployments = others } in
        let (inserted, runs, models) = insert_deployments-ok name 0 chain cleared (record {
          fresh = λ n later.
              any-filter (λ (r : DeploymentRow). r.id == s.new_id n)
                (λ (r : DeploymentRow). not (r.model_name == name)) db.deployments (fresh n);
          there = any-find (λ (m : ModelRow). m.name == name) db.models row found;
          once = once;
          known = known;
          open_ = all_open name db.deployments chain;
        }) in
        let (after, ends) =
          rest-ok name row inserted (ap (find (λ (m : ModelRow). m.name == name)) models ∙ found) in
        let last : Db d j Bool = find_model d j s name >>= (λ again.
          touch_model d j s name again
          >> (select d j s "failed to commit deployments" (λ db. tt {0}) >> pure true)) in
        (
          after,
          ap (feed (λ (t : Unit {0}). insert_deployments d j s name 0 chain >> last))
                (statement_up d j s "failed to clear deployments" _ db (up db.statements))
              ∙ ap (feed (λ (t : Unit {0}). last)) runs
              ∙ ends,
        )
      where
        all_open :
            (name : String) (rows : List DeploymentRow) (chain : List (String × String))
            → All
                (NotYet name (filter (λ (r : DeploymentRow). not (r.model_name == name)) rows))
                chain
        all_open name rows [] = tt
        all_open name rows ((provider_id, upstream) ∷ chain) =
            (none-left name provider_id rows, all_open name rows chain)

  -- Where nothing stands against a chain, it is replaced.
  pub set_deployments-IsSmooth :
      (name : String) (chain : List (String × String)) (before : Database d j)
      → IsSmooth name chain before
      → (set_deployments d j s name chain before).0 ≡ ok true
  unfolding set_deployments
  set_deployments-IsSmooth name chain before h = elim (Option-cases (row_of name before)) [
    | inl missing ↦ let there = h.there in absurd (ground (arith, missing, there))
    | inr (row, found) ↦
        let begun = sent d j s before in
        let (after, runs) =
          replace-ok h.up h.apart name chain row (sent d j s begun) found h.fresh h.once h.known in
        let body : (select d j s "failed to begin transaction" (λ db. tt {0})
                >> (find_model d j s name >>= replace_deployments d j s name chain))
              before
            ≡ (ok true, after) =
          ap
            (feed
              (λ (t : Unit {0}). find_model d j s name >>= replace_deployments d j s name chain))
            (select-ok h.up h.apart "failed to begin transaction" before)
          ∙ ap (feed (replace_deployments d j s name chain)) (find_model-ok h.up h.apart name begun)
          ∙ ap (λ again. replace_deployments d j s name chain again (sent d j s begun)) found
          ∙ runs in
        rw (set_deployments, Distinct-repeated chain h.once)
          (ap (λ r. (end_transaction d j s before r).0) body)
  ]
