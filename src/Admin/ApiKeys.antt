-- ===== src/Admin/ApiKeys.antt =====
-- The handlers of API keys and their limits (src/admin/account_api.rs).
pub mod Limits
pub mod Revoked
pub mod Created
pub mod Hidden
use lite_agentify.Prelude.{
  ℕ, String, Bool, true, false, not, ◌||◌, ◌&&◌, Option, none, some, List, [], ◌∷◌, ◌++◌, any, map,
  length, and_then, ◌==◌, string_eq, nat_eq, ltb, if◌then◌else◌, Result, ok, err, is_empty, ◌>>=◌,
}
use lite_agentify.Prelude.Map.{get}
use lite_agentify.Prelude.Text.{trim, byte_len, is_empty_text}
use lite_agentify.Model.{Uuid}
use lite_agentify.Decimal.{DecimalOps}
use lite_agentify.Account.{Role, admin, user, KeyStatus, ApiKeyRecord, UserRecord, Digest}
use lite_agentify.Account.Keys.{generate_api_key, hex, key_prefix}
use lite_agentify.Account.Database.{ColumnJson, Server}
use lite_agentify.Account.Store.{get_key, set_key_limits}
use lite_agentify.Account.Store as Store
use lite_agentify.Quota.{MemoryCounter, get_spend, key}
use lite_agentify.Session.{SessionIdentity}
use lite_agentify.Admin.{
  AdminState, KeyView, Answer, Handler, is_admin, answer, done, new_key, all_keys, respond,
  bad_request, not_found, internal, with_store, on_found, refresh_and_respond,
}

-- The loop of `normalize_allowed_models`, with the names so far; `none` where a name is blank.
unfoldable pub normalize_names : List String → List String → Option (List String)
unfolding trim
normalize_names [] normalized = some normalized
normalize_names (given ∷ names) normalized =
    let name = trim given in
    elim (is_empty_text name) [
      | true ↦ none
      | false ↦ normalize_names names (
          if any (λ existing. existing == name) normalized
          then normalized
          else normalized ++ (name ∷ []))
    ]

unfoldable pub normalize_allowed_models :
    Option (List String) → Result String (Option (List String))
unfolding normalize_names
normalize_allowed_models none = ok none
normalize_allowed_models (some names) = elim (normalize_names names []) [
  | none ↦ err "allowed_models cannot contain empty names"
  | some normalized ↦
      if is_empty normalized
      then err "allowed_models cannot be an empty list; send null to allow every model"
      else if ltb 200 (length normalized)
      then err "allowed_models cannot exceed 200 entries"
      else ok (some normalized)
]

module _ (d : DecimalOps) (j : ColumnJson) (s : Server)
    (parse_decimal : String → Option d.Decimal) where
  unfoldable pub parse_spend_cap : Option String → Result String (Option d.Decimal)
  unfolding trim
  parse_spend_cap none = ok none
  parse_spend_cap (some value) =
      let text = trim value in
      if is_empty_text text then ok none else elim (parse_decimal text) [
        | none ↦ err "spend_cap_usd must be a decimal number"
        | some cap ↦
            if d.ge d.zero_decimal cap then err "spend_cap_usd must be positive" else ok (some cap)
      ]

  abbrev pub Limits : Type 0
  Limits = Option (List String) × Option d.Decimal

  -- Both limits of a request, in the order in which they are checked.
  abbrev pub limits_of : Option (List String) → Option String → Result String Limits
  limits_of allowed_models spend_cap_usd = do
    names ← normalize_allowed_models allowed_models
    cap ← parse_spend_cap spend_cap_usd
    ok (names, cap)

  abbrev pub with_limits : Result String Limits → (Limits → Handler d j) → Handler d j
  with_limits (ok limits) handler = handler limits
  with_limits (err message) handler = respond d j (bad_request d j message)

  abbrev pub key_missing : Answer d j
  key_missing = not_found d j "key not found"

  -- The key that a handler is about, which its owner and every admin may change.
  abbrev pub with_own_key : SessionIdentity → Uuid → (ApiKeyRecord d → Handler d j) → Handler d j
  with_own_key identity id handler = with_store d j (get_key d j s id) λ found. elim found [
    | err e ↦ respond d j (internal d j "failed to load key")
    | ok loaded ↦ elim loaded [
      | none ↦ respond d j key_missing
      | some record_ ↦
          if not (is_admin identity.role) && not (record_.user_id == identity.user_id)
          then respond d j key_missing
          else handler record_
    ]
  ]

  unfoldable pub update_key :
      SessionIdentity → Uuid → Option (List String) → Option String → Handler d j
  unfolding get_key set_key_limits refresh_and_respond
  update_key identity id allowed_models spend_cap_usd = with_own_key identity id λ found.
      with_limits (limits_of allowed_models spend_cap_usd) λ limits.
        with_store d j (set_key_limits d j s id limits.0 limits.1) (
          on_found d j (refresh_and_respond d j s done) key_missing
            (internal d j "failed to update key"))

  abbrev pub is_revoked : KeyStatus → Bool
  is_revoked KeyStatus.active = false
  is_revoked KeyStatus.revoked = true

  unfoldable pub revoke_key : SessionIdentity → Uuid → Handler d j
  unfolding get_key Store.revoke_key refresh_and_respond
  revoke_key identity id = with_own_key identity id λ found.
      if is_revoked found.status
      then respond d j (answer d j 200 done)
      else with_store d j (Store.revoke_key d j s id) (
          on_found d j (refresh_and_respond d j s done) key_missing
            (internal d j "failed to revoke key"))

  -- The rest of `create_key`, with the plaintext drawn.
  abbrev pub create_key_with :
      (hash : String → Digest)
      → SessionIdentity
      → (name : String) → Limits
      → (plaintext : String) → Handler d j
  create_key_with hash identity name limits plaintext =
      with_store d j
        (Store.create_key d j s identity.user_id name (hex (hash plaintext)) (key_prefix plaintext)
          limits.0 limits.1)
        λ created. elim created [
          | ok record_ ↦
              refresh_and_respond d j s
                (new_key plaintext (record { key = record_; username = none; spent_usd = none }))
          | err e ↦ respond d j (internal d j "failed to create key")
        ]

  -- `none` where the random bytes of the rounds make no key.
  unfoldable pub create_key :
      (hash : String → Digest)
      → (rounds : ℕ) → (fill_bytes : ℕ → List ℕ) → SessionIdentity
      → String
      → Option (List String)
      → Option String
      → AdminState d j
      → Option (Answer d j × AdminState d j)
  unfolding trim generate_api_key hex key_prefix Store.create_key refresh_and_respond
  create_key hash rounds fill_bytes identity given allowed_models spend_cap_usd state =
      let name = trim given in
      if is_empty_text name || ltb 100 (byte_len name)
      then some (bad_request d j "key name must be 1-100 characters", state)
      else elim (limits_of allowed_models spend_cap_usd) [
        | err message ↦ some (bad_request d j message, state)
        | ok limits ↦ elim (generate_api_key rounds fill_bytes) [
          | none ↦ none
          | some plaintext ↦ some (create_key_with hash identity name limits plaintext state)
        ]
      ]

  abbrev pub owner_of : SessionIdentity → Option Uuid
  owner_of identity = if is_admin identity.role then none else some identity.user_id

  -- The loop of `list_keys` over the keys, with the names that an admin sees.
  abbrev pub view : MemoryCounter d → List UserRecord → ApiKeyRecord d → KeyView d j
  view counter users key_of = record {
    key = key_of;
    username = name_of key_of.user_id users;
    spent_usd = some (get_spend d (key key_of.id) counter);
  }
    where
      name_of : Uuid → List UserRecord → Option String
      name_of id [] = none
      name_of id (u ∷ us) = if u.id == id then some u.username else name_of id us

  unfoldable pub list_keys : MemoryCounter d → SessionIdentity → Handler d j
  unfolding Store.list_keys Store.list_users get_spend
  list_keys counter identity = with_store d j (Store.list_keys d j s (owner_of identity)) λ listed.
      elim listed [
        | err e ↦ respond d j (internal d j "failed to list keys")
        | ok keys ↦
            if is_admin identity.role
            then with_store d j (Store.list_users d j s) (λ found. elim found [
              | err e ↦ respond d j (internal d j "failed to list users")
              | ok users ↦ respond d j (answer d j 200 (all_keys (map (view counter users) keys)))
            ])
            else respond d j (answer d j 200 (all_keys (map (view counter []) keys)))
      ]
