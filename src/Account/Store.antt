-- ===== src/Account/Store.antt =====
-- The account store over the database, `SeaOrmAccountStore` in src/account/store.rs.
pub mod Changes
pub mod Live
pub mod Inserted
use Prim.Native.String.{◌++◌ as append}
use lite_agentify.Prelude.{
  String, Bool, true, false, not, Option, none, some, List, [], ◌∷◌, ◌++◌, map, any, filter, find,
  is_some, and_then, ◌==◌, string_eq, nat_eq, bytes_eq, if◌then◌else◌, ok, err, leb,
}
use mathlib.Core.Option.{map as map_option}
use lite_agentify.Prelude.Map.{insert}
use lite_agentify.Prelude.Effects.{pure, raise, ◌>>=◌, ◌>>◌}
use lite_agentify.Model.{Uuid, DateTime}
use lite_agentify.Decimal.{DecimalOps}
use lite_agentify.Account.{
  Role, role_text, parse_role, UserStatus, user_status_text, KeyStatus, key_status_text, UserRecord,
  ApiKeyRecord, KeyIdentity, ApiKeyMap,
}
use lite_agentify.Account.Keys.{decode_hex_32}
use lite_agentify.Account.Database.{
  order_by, ColumnJson, StoreError, conflict, failed, Server, UserRow, KeyRow, Database, Db, select,
  new_uuid, utc_now, insert_user, insert_key, update_user, update_key,
}

abbrev pub user_status_of : String → UserStatus
user_status_of status = if status == "active" then UserStatus.active else UserStatus.disabled

abbrev pub key_status_of : String → KeyStatus
key_status_of status = if status == "active" then KeyStatus.active else KeyStatus.revoked

abbrev pub unknown_role : UserRow → String
unknown_role row =
    append "user '" (append row.username (append "' has unknown role '" (append row.role "'")))

abbrev pub username_taken : String → StoreError
username_taken username = conflict (append "username '" (append username "' already exists"))

abbrev pub record_with : UserRow → Role → UserRecord
record_with row role = record {
  id = row.id;
  username = row.username;
  password_hash = row.password_hash;
  role = role;
  status = user_status_of row.status;
  created_at = row.created_at;
}

abbrev pub is_active_user : UserRow → Bool
is_active_user row = row.status == user_status_text UserStatus.active

module _ (d : DecimalOps) (j : ColumnJson) where
  abbrev pub user_record : UserRow → Db d j UserRecord
  user_record row = elim (parse_role row.role) [
    | none ↦ raise (failed (unknown_role row))
    | some role ↦ pure (record_with row role)
  ]

  -- `filter_map(|item| item.as_str())`.
  unfoldable pub texts_of : List j.Value → List String
  texts_of [] = []
  texts_of (item ∷ items) =
      let rest = texts_of items in elim (j.as_str item) [ none ↦ rest | some name ↦ name ∷ rest ]

  unfoldable pub parse_allowed_models : j.Value → Option (List String)
  unfolding texts_of
  parse_allowed_models value = elim (j.as_array value) [
    | none ↦ none
    | some items ↦ some (texts_of items)
  ]

  abbrev pub allowed_models_to_json : Option (List String) → Option j.Value
  allowed_models_to_json none = none
  allowed_models_to_json (some names) = some (j.array (map j.text names))

  abbrev pub key_record : KeyRow d j → ApiKeyRecord d
  key_record row = record {
    id = row.id;
    user_id = row.user_id;
    prefix = row.prefix;
    name = row.name;
    status = key_status_of row.status;
    created_at = row.created_at;
    last_used_at = row.last_used_at;
    allowed_models = and_then row.allowed_models parse_allowed_models;
    spend_cap_usd = row.spend_cap_usd;
  }

  -- `.map(user_record).transpose()`.
  abbrev pub transpose_user : Option UserRow → Db d j (Option UserRecord)
  transpose_user none = pure none
  transpose_user (some row) = do user ← user_record row; pure (some user)

  -- `.map(user_record).collect()`.
  unfoldable pub collect_users : List UserRow → Db d j (List UserRecord)
  collect_users [] = pure []
  collect_users (row ∷ rows) = do
    user ← user_record row
    users ← collect_users rows
    pure (user ∷ users)

  abbrev pub is_owned : Option Uuid → KeyRow d j → Bool
  is_owned none row = true
  is_owned (some owner) row = row.user_id == owner

  abbrev pub is_active_key : KeyRow d j → Bool
  is_active_key row = row.status == key_status_text KeyStatus.active

  abbrev pub identity_of : KeyRow d j → KeyIdentity d
  identity_of row = record {
    user_id = row.user_id;
    api_key_id = row.id;
    allowed_models = and_then row.allowed_models parse_allowed_models;
    spend_cap_usd = row.spend_cap_usd;
  }

  -- The body of the loop of `active_key_map`; a key with a malformed hash is skipped.
  abbrev pub add_key : List Uuid → KeyRow d j → ApiKeyMap d → ApiKeyMap d
  add_key active_users row keys =
      if any (λ id. id == row.user_id) active_users
      then elim (decode_hex_32 row.key_hash) [
        | none ↦ keys
        | some digest ↦ insert digest (identity_of row) keys
      ]
      else keys

  unfoldable pub collect_keys : List Uuid → List (KeyRow d j) → ApiKeyMap d → ApiKeyMap d
  collect_keys active_users [] keys = keys
  collect_keys active_users (row ∷ rows) keys =
      collect_keys active_users rows (add_key active_users row keys)

  module _ (s : Server) where
    abbrev pub find_user : String → (UserRow → Bool) → Db d j (Option UserRow)
    find_user context test = select d j s context λ db. find test db.users

    abbrev pub find_key : String → Uuid → Db d j (Option (KeyRow d j))
    find_key context id = select d j s context λ db. find (λ (k : KeyRow d j). k.id == id) db.keys

    unfoldable pub find_user_by_username : String → Db d j (Option UserRecord)
    find_user_by_username username = do
      row ← find_user "failed to query user by username" (λ u. u.username == username)
      transpose_user row

    unfoldable pub get_user : Uuid → Db d j (Option UserRecord)
    get_user id = do row ← find_user "failed to query user" (λ u. u.id == id); transpose_user row

    unfoldable pub list_users : Db d j (List UserRecord)
    unfolding collect_users
    list_users = do
      rows ←
          select d j s "failed to list users"
            (λ db. order_by (λ u v. leb u.created_at v.created_at) db.users)
      collect_users rows

    unfoldable pub create_user : String → String → Role → Db d j UserRecord
    unfolding find_user_by_username
    create_user username password_hash role = do
      found ← find_user_by_username username
      if is_some found then raise (username_taken username) else (do
        id ← new_uuid d j s
        created_at ← utc_now d j s
        inserted ← insert_user d j s (username_taken username) "failed to create user" (record {
          id = id;
          username = username;
          password_hash = password_hash;
          role = role_text role;
          status = user_status_text UserStatus.active;
          created_at = created_at;
        })
        user_record inserted)

    -- A row is looked up by its id and changed if it is there.
    abbrev pub change_user : (context : String) → Uuid → (UserRow → UserRow) → Db d j Bool
    change_user context id f = do
      existing ← find_user "failed to query user" (λ u. u.id == id)
      if is_some existing then (do update_user d j s context id f; pure true) else pure false

    abbrev pub change_key : (context : String) → Uuid → (KeyRow d j → KeyRow d j) → Db d j Bool
    change_key context id f = do
      existing ← find_key "failed to query api key" id
      if is_some existing then (do update_key d j s context id f; pure true) else pure false

    unfoldable pub set_user_status : Uuid → UserStatus → Db d j Bool
    set_user_status id status =
        change_user "failed to update user status" id
          (λ row. record row { status = user_status_text status })

    unfoldable pub set_password_hash : Uuid → String → Db d j Bool
    set_password_hash id password_hash =
        change_user "failed to update password" id
          (λ row. record row { password_hash = password_hash })

    unfoldable pub list_keys : Option Uuid → Db d j (List (ApiKeyRecord d))
    list_keys owner = do
      rows ←
          select d j s "failed to list api keys" (λ db.
            order_by (λ k l. leb k.created_at l.created_at) (filter (is_owned owner) db.keys))
      pure (map key_record rows)

    unfoldable pub get_key : Uuid → Db d j (Option (ApiKeyRecord d))
    get_key id = do row ← find_key "failed to query api key" id; pure (map_option key_record row)

    -- The spend cap is kept as its numeric(20, 10) column rounds it.
    unfoldable pub create_key :
        Uuid
        → (name key_hash_hex prefix : String) → Option (List String)
        → Option d.Decimal
        → Db d j (ApiKeyRecord d)
    create_key owner name key_hash_hex prefix allowed_models spend_cap_usd = do
      id ← new_uuid d j s
      created_at ← utc_now d j s
      inserted ← insert_key d j s "failed to create api key" (record {
        id = id;
        user_id = owner;
        key_hash = key_hash_hex;
        prefix = prefix;
        name = name;
        status = key_status_text KeyStatus.active;
        created_at = created_at;
        last_used_at = none;
        allowed_models = allowed_models_to_json allowed_models;
        spend_cap_usd = map_option d.numeric_20_10 spend_cap_usd;
      })
      pure (key_record inserted)

    unfoldable pub revoke_key : Uuid → Db d j Bool
    revoke_key id =
        change_key "failed to revoke api key" id
          (λ row. record row { status = key_status_text KeyStatus.revoked })

    unfoldable pub set_key_limits : Uuid → Option (List String) → Option d.Decimal → Db d j Bool
    set_key_limits id allowed_models spend_cap_usd =
        change_key "failed to update key limits" id (λ row. record row {
          allowed_models = allowed_models_to_json allowed_models;
          spend_cap_usd = map_option d.numeric_20_10 spend_cap_usd;
        })

    unfoldable pub active_key_map : Db d j (ApiKeyMap d)
    unfolding collect_keys
    active_key_map = do
      keys ← select d j s "failed to load api keys" (λ db. filter is_active_key db.keys)
      users ← select d j s "failed to load users" (λ db. filter is_active_user db.users)
      pure (collect_keys (map (λ (u : UserRow). u.id) users) keys [])
