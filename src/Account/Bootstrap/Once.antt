-- ===== src/Account/Bootstrap/Once.antt =====
-- The first accounts are made once (src/account/bootstrap.rs).
use Prim.Native.String.{◌++◌ as append}
use lite_agentify.Prelude.{
  ℕ, suc, ◌+◌, String, Bool, true, false, not, ◌&&◌, ◌≡◌, refl, sym, ap, ◌∙◌, ◌⊎◌, inl, inr, Option,
  none, some, List, [], ◌∷◌, find, is_empty, string_eq, nat_eq, Result, ok, err, arith, Bool-cases,
  Option-cases,
}
use lite_agentify.Prelude.Effects.{feed, pure}
use lite_agentify.Model.{Uuid}
use lite_agentify.Decimal.{DecimalOps}
use lite_agentify.Account.{Digest, KeyStatus, key_status_text}
use lite_agentify.Account.Keys.{hex, key_prefix}
use lite_agentify.Account.Database.{
  end_transaction, ColumnJson, StoreError, failed, Server, UserRow, KeyRow, Database, sent, select,
  insert_user,
}
use lite_agentify.Account.Store.Changes.{Same}
use lite_agentify.Account.Bootstrap.{
  create_admin, seed_admin, import_keys, is_admin_row, import_for, seed_keys, bootstrap_accounts,
}
use lite_agentify.Account.Bootstrap.Inserts.{
  is_empty-snoc, select-cases, insert_user-cases, insert_key-cases,
}

module _ (d : DecimalOps) (j : ColumnJson) (s : Server) where
  -- What a successful first step leaves: a user, and the tables as they were if there was one.
  abbrev Seeded : Database d j → Result StoreError (Option Uuid) × Database d j → Type 0
  Seeded before (ok id, after) =
      (is_empty after.users ≡ false)
      × (after.keys ≡ before.keys)
      × ((is_empty before.users ≡ true) ⊎ (after.users ≡ before.users))
  Seeded before (err e, after) = Unit {0}

  -- What a successful second step leaves: a key if keys are configured, and the tables as they were
  -- if there was one.
  abbrev KeysSeeded :
      List String → Database d j → Result StoreError (Unit {0}) × Database d j → Type 0
  KeysSeeded gateway_keys before (ok t, after) =
      (after.users ≡ before.users)
      × ((is_empty after.keys && not (is_empty gateway_keys)) ≡ false)
      × ((is_empty before.keys ≡ true) ⊎ (after.keys ≡ before.keys))
  KeysSeeded gateway_keys before (err e, after) = Unit {0}

  -- What the imported keys leave: the users, and a key if there was one or one is imported.
  abbrev Grown : List String → Database d j → Result StoreError (Unit {0}) × Database d j → Type 0
  Grown keys before (ok t, after) =
      (after.users ≡ before.users) × (is_empty after.keys ≡ (is_empty before.keys && is_empty keys))
  Grown keys before (err e, after) = Unit {0}

  more :
      (keys : List String) (before middle : Database d j)
      (r : Result StoreError (Unit {0}) × Database d j)
      → middle.users ≡ before.users
      → is_empty middle.keys ≡ false
      → Grown keys middle r
      → (key : String) → Grown (key ∷ keys) before r
  more keys before middle (ok t, after) users full grown key =
      (grown.0 ∙ users, grown.1 ∙ ground (arith, full))
  more keys before middle (err e, after) users full grown key = tt

  module _ (is_phc_hash : String → Bool) (hash_password : ℕ → String → Option String)
      (hash : String → Digest) (show : ℕ → String) where
    inserted-Seeded :
        (row : UserRow) (id : Uuid) (db : Database d j)
        → is_empty db.users ≡ true
        → Seeded db (
            feed
              (λ (inserted : UserRow). pure (some id))
              (insert_user d j s
                (failed "failed to create bootstrap admin user")
                "failed to create bootstrap admin user"
                row
                db))
    inserted-Seeded row id db nobody =
        let (after, outcome) =
          insert_user-cases d j s (failed "failed to create bootstrap admin user")
            "failed to create bootstrap admin user" row db in
        elim outcome [
          | inl (stored, users, keys) ↦
              rw stored (ap is_empty users ∙ is_empty-snoc db.users row, keys, inl nobody)
          | inr (e, fails) ↦ rw fails tt
        ]

    create_admin-Seeded :
        (password : String) (db : Database d j)
        → is_empty db.users ≡ true
        → Seeded db (create_admin d j s is_phc_hash hash_password hash show password db)
    create_admin-Seeded password db nobody = elim (Bool-cases (is_phc_hash password)) [
      | inl hashed ↦ rw hashed (inserted-Seeded _ _ db nobody)
      | inr plain ↦ elim (Option-cases (hash_password db.statements password)) [
        | inl fails ↦ rw (plain, fails) tt
        | inr (text, made) ↦ rw (plain, made) (inserted-Seeded _ _ db nobody)
      ]
    ]

    sent_Seeded :
        (password : String) (db : Database d j)
        → is_empty db.users ≡ true
        → Seeded db
            (create_admin d j s is_phc_hash hash_password hash show password (sent d j s db))
    sent_Seeded password db nobody = create_admin-Seeded password (sent d j s db) nobody

    seed_admin-Seeded :
        (admin_password : Option String) (db : Database d j)
        → Seeded db (seed_admin d j s is_phc_hash hash_password hash show admin_password db)
    unfolding seed_admin
    seed_admin-Seeded admin_password db =
        elim (select-cases d j s "failed to count users" (λ db. is_empty db.users) db) [
          | inr down ↦ rw (seed_admin, down) tt
          | inl up ↦ elim (Bool-cases (is_empty db.users)) [
            | inr there ↦ rw (seed_admin, up, there) (there, refl, inr refl)
            | inl nobody ↦ elim (Option-cases admin_password) [
              | inl unset ↦ rw (seed_admin, up, nobody, unset) tt
              | inr (password, set) ↦
                  rw (seed_admin, up, nobody, set) (sent_Seeded password db nobody)
            ]
          ]
        ]

    abbrev imported : Uuid → ℕ → String → Database d j → KeyRow d j
    imported owner index key db = record {
      id = s.new_id db.statements;
      user_id = owner;
      key_hash = hex (hash key);
      prefix = key_prefix key;
      name = append "imported-" (show (index + 1));
      status = key_status_text KeyStatus.active;
      created_at = s.now db.statements;
      last_used_at = none;
      allowed_models = none;
      spend_cap_usd = none;
    }

    import_keys-grows :
        (owner : Uuid) (index : ℕ) (keys : List String) (db : Database d j)
        → Grown keys db (import_keys d j s is_phc_hash hash_password hash show owner index keys db)
    unfolding import_keys
    import_keys-grows owner index [] db = (refl, ground arith)
    import_keys-grows owner index (key ∷ keys) db =
        let (after, outcome) =
          insert_key-cases d j s "failed to import legacy gateway key" (imported owner index key db)
            db in
        elim outcome [
          | inr (e, fails) ↦ rw (import_keys, fails) tt
          | inl (stored, users, rows) ↦
              rw (import_keys, stored)
                (more keys db after
                  (import_keys d j s is_phc_hash hash_password hash show owner (suc index) keys
                    after)
                  users (ap is_empty rows ∙ is_empty-snoc db.keys (imported owner index key db))
                  (import_keys-grows owner (suc index) keys after) key)
        ]

    keys_of_Grown :
        (gateway_keys : List String) (before middle : Database d j)
        (r : Result StoreError (Unit {0}) × Database d j)
        → middle.users ≡ before.users
        → is_empty before.keys ≡ true
        → is_empty gateway_keys ≡ false
        → Grown gateway_keys middle r
        → KeysSeeded gateway_keys before r
    keys_of_Grown gateway_keys before middle (ok t, after) users none_yet given grown =
        (grown.0 ∙ users, ground (arith, grown.1, given), inl none_yet)
    keys_of_Grown gateway_keys before middle (err e, after) users none_yet given grown = tt

    import_for-KeysSeeded :
        (gateway_keys : List String) (owner : Option Uuid) (before middle : Database d j)
        → middle.users ≡ before.users
        → is_empty before.keys ≡ true
        → is_empty gateway_keys ≡ false
        → KeysSeeded gateway_keys before
            (import_for d j s is_phc_hash hash_password hash show gateway_keys owner middle)
    import_for-KeysSeeded gateway_keys none before middle users none_yet given = tt
    import_for-KeysSeeded gateway_keys (some owner) before middle users none_yet given =
        keys_of_Grown gateway_keys before middle _ users none_yet given
          (import_keys-grows owner 0 gateway_keys middle)

    seed_keys-KeysSeeded :
        (gateway_keys : List String) (admin_id : Option Uuid) (db : Database d j)
        → KeysSeeded gateway_keys db
            (seed_keys d j s is_phc_hash hash_password hash show gateway_keys admin_id db)
    unfolding seed_keys
    seed_keys-KeysSeeded gateway_keys admin_id db =
        elim (select-cases d j s "failed to count api keys" (λ db. is_empty db.keys) db) [
          | inr down ↦ rw (seed_keys, down) tt
          | inl up ↦ elim (Bool-cases (is_empty db.keys && not (is_empty gateway_keys))) [
            | inr done ↦ rw (seed_keys, up, done) (refl, done, inr refl)
            | inl wanted ↦
                let none_yet : is_empty db.keys ≡ true = ground (arith, wanted) in
                let given : is_empty gateway_keys ≡ false = ground (arith, wanted) in
                elim (Option-cases admin_id) [
                  | inr (id, known) ↦
                      rw (seed_keys, up, wanted, known)
                        (import_for-KeysSeeded gateway_keys (some id) db (sent d j s db) refl
                          none_yet given)
                  | inl unknown ↦
                      elim (select-cases d j s "failed to find an admin user for key import"
                        (λ db.
                          find (is_admin_row d j s is_phc_hash hash_password hash show) db.users)
                        (sent d j s db)) [
                          | inr down ↦ rw (seed_keys, up, wanted, unknown, down) tt
                          | inl found ↦
                              rw (seed_keys, up, wanted, unknown, found)
                                (import_for-KeysSeeded gateway_keys _ db
                                  (sent d j s (sent d j s db)) refl none_yet given)
                        ]
                ]
          ]
        ]

    -- What a run leaves. If it failed, the tables as they were. Else there is a user, there is a key
    -- if keys are configured, and a table that had rows is as it was.
    abbrev pub Settled :
        List String → Database d j → Result StoreError (Unit {0}) × Database d j → Type 0
    Settled gateway_keys before (err e, after) = Same d j before after
    Settled gateway_keys before (ok t, after) =
        (is_empty after.users ≡ false)
        × ((is_empty after.keys && not (is_empty gateway_keys)) ≡ false)
        × ((is_empty before.users ≡ true) ⊎ (after.users ≡ before.users))
        × ((is_empty before.keys ≡ true) ⊎ (after.keys ≡ before.keys))

    -- The last statement of the transaction, after both steps.
    both :
        (gateway_keys : List String) (before middle after : Database d j)
        → is_empty middle.users ≡ false
        → middle.keys ≡ before.keys
        → (is_empty before.users ≡ true) ⊎ (middle.users ≡ before.users)
        → KeysSeeded gateway_keys middle (ok tt, after)
        → Settled gateway_keys before (ok tt, after)
    both gateway_keys before middle after there keys users (kept, full, rows) = (
      ap is_empty kept ∙ there,
      full,
      (elim users [ inl fresh ↦ inl fresh | inr same ↦ inr (kept ∙ same) ]),
      (elim rows [
        | inl fresh ↦ inl (ap is_empty (sym keys) ∙ fresh)
        | inr same ↦ inr (same ∙ keys)
      ]),
    )

    after_keys :
        (gateway_keys : List String) (before middle : Database d j)
        (r : Result StoreError (Unit {0}) × Database d j)
        → is_empty middle.users ≡ false
        → middle.keys ≡ before.keys
        → (is_empty before.users ≡ true) ⊎ (middle.users ≡ before.users)
        → KeysSeeded gateway_keys middle r
        → Settled gateway_keys before (
            end_transaction d j s before
              (feed (λ (t : Unit {0}). select d j s "failed to commit bootstrap" (λ db. tt)) r))
    after_keys gateway_keys before middle (err e, after) there keys users seeded = (refl, refl)
    after_keys gateway_keys before middle (ok t, after) there keys users seeded =
        elim (select-cases d j s "failed to commit bootstrap" (λ db. tt) after) [
          | inr down ↦ rw down (refl, refl)
          | inl up ↦ rw up (both gateway_keys before middle after there keys users seeded)
        ]

    after_admin :
        (gateway_keys : List String) (before middle : Database d j)
        (r : Result StoreError (Option Uuid) × Database d j)
        → Same d j before middle
        → Seeded middle r
        → Settled gateway_keys before (
            end_transaction d j s before (
              feed
                (λ (t : Unit {0}). select d j s "failed to commit bootstrap" (λ db. tt))
                (feed
                  (λ admin_id.
                    seed_keys d j s is_phc_hash hash_password hash show gateway_keys admin_id)
                  r)))
    after_admin gateway_keys before middle (err e, after) same seeded = (refl, refl)
    after_admin gateway_keys before middle (ok id, after) same (there, keys, users) =
        after_keys gateway_keys before after
          (seed_keys d j s is_phc_hash hash_password hash show gateway_keys id after) there
          (keys ∙ same.1)
          (elim users [
            | inl fresh ↦ inl (ap is_empty (sym same.0) ∙ fresh)
            | inr kept ↦ inr (kept ∙ same.0)
          ])
          (seed_keys-KeysSeeded gateway_keys id after)

    -- The seeding is one transaction: if it fails, at whatever statement, the tables are as they
    -- were; if it succeeds, there is a user, there is a key if keys are configured, and a table that
    -- had rows before has them unchanged.
    pub bootstrap_accounts-Settled :
        (admin_password : Option String) (gateway_keys : List String) (db : Database d j)
        → Settled gateway_keys db (
            bootstrap_accounts d j s is_phc_hash hash_password hash show admin_password gateway_keys
              db)
    unfolding bootstrap_accounts
    bootstrap_accounts-Settled admin_password gateway_keys db =
        elim (select-cases d j s "failed to begin bootstrap" (λ db. tt) db) [
          | inr down ↦ rw (bootstrap_accounts, down) (refl, refl)
          | inl up ↦
              rw (bootstrap_accounts, up)
                (after_admin gateway_keys db (sent d j s db)
                  (seed_admin d j s is_phc_hash hash_password hash show admin_password
                    (sent d j s db))
                  (refl, refl) (seed_admin-Seeded admin_password (sent d j s db)))
        ]
