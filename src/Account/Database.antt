-- ===== src/Account/Database.antt =====
-- The tables of the database (src/account/entity.rs, with the keys and references that src/db.rs
-- declares), and the statements that the stores send to them.
use lite_agentify.Prelude.{
  ℕ, suc, ◌≡◌, refl, ◌⊎◌, inl, inr, Bool-cases, String, Bool, true, false, ◌||◌, Option, some, List,
  [], ◌∷◌, ◌++◌, map, any, ◌==◌, string_eq, nat_eq, if◌then◌else◌, Result, ok, err,
}
use lite_agentify.Prelude.Map.{Map}
use lite_agentify.Prelude.Effects.{Effect}
use lite_agentify.Model.{Uuid, DateTime}
use lite_agentify.Decimal.{DecimalOps}
use lite_agentify.Catalog.Entity.{ProviderRow, PricingRow, ModelRow, DeploymentRow}
use lite_agentify.Quota.Entity.{GrantRow}

-- The `serde_json::Value` of a JSONB column: its arrays, its texts and its maps of texts.
pub record ColumnJson : Type 1 where
  pub Value : Type 0
  pub array : List Value → Value
  pub text : String → Value
  pub as_array : Value → Option (List Value)
  pub as_str : Value → Option String
  pub to_value : Map String String → Value
  pub from_value : Value → Option (Map String String)

-- An array holds the values that it was made of, and a text is one.
pub record ColumnLaws (j : ColumnJson) : Type 0 where
  pub as_array-array : (values : List j.Value) → j.as_array (j.array values) ≡ some values
  pub as_str-text : (s : String) → j.as_str (j.text s) ≡ some s

-- An error of the store: a broken unique index, or a statement that failed, with its context.
pub data StoreError : Type 0 where
  conflict : String → StoreError
  failed : String → StoreError

-- What the process is given from outside: whether the statement of this number fails, and the
-- UUIDs and times, by the number of statements so far; and the collation of texts.
pub record Server : Type 0 where
  pub is_down : ℕ → Bool
  pub collates : String → String → Bool
  pub new_id : ℕ → Uuid
  pub now : ℕ → DateTime

pub record UserRow : Type 0 where
  pub id : Uuid
  pub username : String
  pub password_hash : String
  pub role : String
  pub status : String
  pub created_at : DateTime

-- `ORDER BY`, which keeps the order of equals.
abbrev pub insert_by {ℓ} : {R : Type ℓ} → (R → R → Bool) → R → List R → List R
insert_by before row [] = row ∷ []
insert_by before row (next ∷ rows) =
    let rest = insert_by before row rows in
    if before row next then row ∷ next ∷ rows else next ∷ rest

abbrev pub order_by {ℓ} : {R : Type ℓ} → (R → R → Bool) → List R → List R
order_by before [] = []
order_by before (row ∷ rows) = insert_by before row (order_by before rows)

-- The rows that pass a test, changed.
abbrev pub update_where : {R : Type 0} → (R → Bool) → (R → R) → List R → List R
update_where p f rows = map (λ row. if p row then f row else row) rows

module _ (d : DecimalOps) (j : ColumnJson) where
  pub record KeyRow : Type 0 where
    pub id : Uuid
    pub user_id : Uuid
    pub key_hash : String
    pub prefix : String
    pub name : String
    pub status : String
    pub created_at : DateTime
    pub last_used_at : Option DateTime
    pub allowed_models : Option j.Value
    pub spend_cap_usd : Option d.Decimal

  -- The rows come in the order of their insertion; `statements` counts what was sent.
  pub record Database : Type 0 where
    pub users : List UserRow
    pub keys : List KeyRow
    pub providers : List (ProviderRow j.Value)
    pub pricing : List (PricingRow d.Decimal)
    pub models : List ModelRow
    pub deployments : List DeploymentRow
    pub credit_grants : List (GrantRow d.Decimal)
    pub statements : ℕ

  abbrev pub Db : Type 0 → Type 0
  Db A = Effect Database StoreError A

  module _ (s : Server) where
    -- One statement: it fails as a whole, or runs.
    unfoldable pub statement :
        {A : Type 0} → String → (Database → Result StoreError A × Database) → Db A
    statement context op db =
        let asked = record db { statements = suc db.statements } in
        if s.is_down db.statements then (err (failed context), asked) else op asked

    -- The database after a statement was sent.
    abbrev pub sent : Database → Database
    sent db = record db { statements = suc db.statements }

    pub statement_down :
        {A : Type 0} (context : String) (op : Database → Result StoreError A × Database)
        (db : Database)
        → s.is_down db.statements ≡ true
        → statement context op db ≡ (err (failed context), sent db)
    unfolding statement
    statement_down context op db down = rw down refl

    pub statement_up :
        {A : Type 0} (context : String) (op : Database → Result StoreError A × Database)
        (db : Database)
        → s.is_down db.statements ≡ false
        → statement context op db ≡ op (sent db)
    unfolding statement
    statement_up context op db up = rw up refl

    pub statement-cases :
        {A : Type 0} (context : String) (op : Database → Result StoreError A × Database)
        (db : Database)
        → (statement context op db ≡ op (sent db))
          ⊎ (statement context op db ≡ (err (failed context), sent db))
    statement-cases context op db = elim (Bool-cases (s.is_down db.statements)) [
      | inl down ↦ inr (statement_down context op db down)
      | inr up ↦ inl (statement_up context op db up)
    ]

    -- `SELECT`.
    abbrev pub select : {A : Type 0} → String → (Database → A) → Db A
    select context look = statement context λ db. (ok (look db), db)

    abbrev pub new_uuid : Db Uuid
    new_uuid db = (ok (s.new_id db.statements), db)

    abbrev pub utc_now : Db DateTime
    utc_now db = (ok (s.now db.statements), db)

    -- A transaction that ends with an error takes the tables back.
    abbrev pub end_transaction :
        {A : Type 0} → Database → Result StoreError A × Database → Result StoreError A × Database
    end_transaction before (ok a, after) = (ok a, after)
    end_transaction before (err e, after) = (err e, record before { statements = after.statements })

    -- An `INSERT`, which a broken index or reference makes fail.
    abbrev pub insert_into :
        {R : Type 0} → (Database → Bool) → (Database → Database) → String → R → Db R
    insert_into is_broken put context row =
        statement context
          λ db. if is_broken db then (err (failed context), db) else (ok row, put db)

    -- An `UPDATE` of the row with an id; that no row has it is an error.
    abbrev pub update_in : (Database → Bool) → (Database → Database) → String → Db (Unit {0})
    update_in is_there put context =
        statement context λ db. if is_there db then (ok tt, put db) else (err (failed context), db)

    -- `INSERT` into `users`, whose primary key is `id` and whose `username` is unique.
    abbrev pub insert_user : (duplicate : StoreError) → String → UserRow → Db UserRow
    insert_user duplicate context row = statement context λ db.
        if any (λ (u : UserRow). u.id == row.id || u.username == row.username) db.users
        then (err duplicate, db)
        else (ok row, record db { users = db.users ++ (row ∷ []) })

    -- `INSERT` into `api_keys`, whose primary key is `id`, whose `key_hash` is unique and whose
    -- `user_id` refers to `users`.
    abbrev pub insert_key : String → KeyRow → Db KeyRow
    insert_key context row = statement context λ db.
        if any (λ (k : KeyRow). k.id == row.id || k.key_hash == row.key_hash) db.keys
        then (err (failed context), db)
        else if any (λ (u : UserRow). u.id == row.user_id) db.users
        then (ok row, record db { keys = db.keys ++ (row ∷ []) })
        else (err (failed context), db)

    -- `UPDATE` of the row with an id; that no row has it is an error.
    abbrev pub update_user : String → Uuid → (UserRow → UserRow) → Db (Unit {0})
    update_user context id f = statement context λ db.
        if any (λ (u : UserRow). u.id == id) db.users
        then (ok tt, record db { users = update_where (λ (u : UserRow). u.id == id) f db.users })
        else (err (failed context), db)

    abbrev pub update_key : String → Uuid → (KeyRow → KeyRow) → Db (Unit {0})
    update_key context id f = statement context λ db.
        if any (λ (k : KeyRow). k.id == id) db.keys
        then (ok tt, record db { keys = update_where (λ (k : KeyRow). k.id == id) f db.keys })
        else (err (failed context), db)
