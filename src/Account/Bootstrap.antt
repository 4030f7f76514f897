-- ===== src/Account/Bootstrap.antt =====
-- The first accounts (src/account/bootstrap.rs).
pub mod Inserts
pub mod Once
use Prim.Native.String.{◌++◌ as append}
use lite_agentify.Prelude.{
  ℕ, suc, ◌+◌, String, Bool, true, false, not, ◌&&◌, Option, none, some, List, [], ◌∷◌, find,
  is_empty, ◌==◌, string_eq, nat_eq, if◌then◌else◌, Result, ok, err,
}
use lite_agentify.Prelude.Effects.{pure, raise, ◌>>=◌, ◌>>◌}
use lite_agentify.Model.{Uuid}
use lite_agentify.Decimal.{DecimalOps}
use lite_agentify.Account.{
  admin, role_text, UserStatus, user_status_text, KeyStatus, key_status_text, Digest,
}
use lite_agentify.Account.Keys.{hex, key_prefix}
use lite_agentify.Account.Database.{
  end_transaction, ColumnJson, StoreError, failed, Server, UserRow, KeyRow, Database, Db, statement,
  select, new_uuid, utc_now, insert_user, insert_key,
}

module _ (d : DecimalOps) (j : ColumnJson) (s : Server) where
  abbrev pub in_transaction :
      (begin_context commit_context : String) → Db d j (Unit {0}) → Db d j (Unit {0})
  in_transaction begin_context commit_context body before = end_transaction d j s before (
      (do select d j s begin_context (λ db. tt); body; select d j s commit_context (λ db. tt))
        before)

  module _ (is_phc_hash : String → Bool) (hash_password : ℕ → String → Option String)
      (hash : String → Digest) (show : ℕ → String) where
    -- The password is hashed unless it is hashed already.
    abbrev pub stored_password : String → Db d j String
    stored_password password db =
        if is_phc_hash password
        then (ok password, db)
        else elim (hash_password db.statements password) [
          | none ↦ (err (failed "failed to hash admin password"), db)
          | some hashed ↦ (ok hashed, db)
        ]

    abbrev pub create_admin : String → Db d j (Option Uuid)
    create_admin password = do
      password_hash ← stored_password password
      id ← new_uuid d j s
      created_at ← utc_now d j s
      inserted ←
          insert_user d j s (failed "failed to create bootstrap admin user")
            "failed to create bootstrap admin user"
            (record {
              id = id;
              username = "admin";
              password_hash = password_hash;
              role = role_text admin;
              status = user_status_text UserStatus.active;
              created_at = created_at;
            })
      pure (some id)

    -- The first step: an admin, where there is no user.
    unfoldable pub seed_admin : Option String → Db d j (Option Uuid)
    seed_admin admin_password = do
      no_users ← select d j s "failed to count users" (λ db. is_empty db.users)
      if no_users
          then elim admin_password [
            | none ↦ raise (failed "no users exist and no admin_password is configured")
            | some password ↦ create_admin password
          ]
          else pure none

    -- The loop over the keys of the configuration; `index` counts from zero.
    unfoldable pub import_keys : Uuid → ℕ → List String → Db d j (Unit {0})
    unfolding hex key_prefix
    import_keys owner index [] = pure tt
    import_keys owner index (key ∷ keys) = do
      id ← new_uuid d j s
      created_at ← utc_now d j s
      inserted ← insert_key d j s "failed to import legacy gateway key" (record {
        id = id;
        user_id = owner;
        key_hash = hex (hash key);
        prefix = key_prefix key;
        name = append "imported-" (show (index + 1));
        status = key_status_text KeyStatus.active;
        created_at = created_at;
        last_used_at = none;
        allowed_models = none;
        spend_cap_usd = none;
      })
      import_keys owner (suc index) keys

    abbrev pub is_admin_row : UserRow → Bool
    is_admin_row row = row.role == role_text admin

    -- The owner of the imported keys.
    abbrev pub find_owner : Option Uuid → Db d j (Option Uuid)
    find_owner (some id) = pure (some id)
    find_owner none = do
      row ←
          select d j s "failed to find an admin user for key import"
            (λ db. find is_admin_row db.users)
      pure (elim row [ none ↦ none | some found ↦ some found.id ])

    abbrev pub import_for : List String → Option Uuid → Db d j (Unit {0})
    import_for gateway_keys none = raise (failed "cannot import gateway_keys: no admin user exists")
    import_for gateway_keys (some owner) = import_keys owner 0 gateway_keys

    -- The second step: the keys of the configuration, where there is no key.
    unfoldable pub seed_keys : List String → Option Uuid → Db d j (Unit {0})
    unfolding import_keys
    seed_keys gateway_keys admin_id = do
      no_keys ← select d j s "failed to count api keys" (λ db. is_empty db.keys)
      if no_keys && not (is_empty gateway_keys)
          then (do owner ← find_owner admin_id; import_for gateway_keys owner)
          else pure tt

    unfoldable pub bootstrap_accounts :
        (admin_password : Option String) → (gateway_keys : List String) → Db d j (Unit {0})
    unfolding seed_admin seed_keys
    bootstrap_accounts admin_password gateway_keys =
        in_transaction "failed to begin bootstrap" "failed to commit bootstrap"
          (do admin_id ← seed_admin admin_password; seed_keys gateway_keys admin_id)
