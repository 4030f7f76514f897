-- ===== src/Account/Store/Inserted.antt =====
-- A key that is stored and read back (src/account/store.rs).
use mathlib.Core.Option.{map as map_option}
use lite_agentify.Prelude.{
  String, Bool, true, ◌&&◌, ◌||◌, ◌≡◌, ◌<◌, refl, ap, ◌∙◌, ◌⊎◌, inl, inr, Option, none, some, List,
  [], ◌∷◌, ◌++◌, map, any, All, length, and_then, ◌==◌, nat_eq, string_eq, bytes_eq, if◌then◌else◌,
  ok, err, Bool-cases, arith, beq_refl,
}
use lite_agentify.Prelude.Map.{get}
use lite_agentify.Model.{Uuid}
use lite_agentify.Decimal.{DecimalOps}
use lite_agentify.Account.{KeyStatus, key_status_text, Digest}
use lite_agentify.Account.Keys.{hex}
use lite_agentify.Account.Keys.Hex.{decode_hex_32-hex}
use lite_agentify.Account.Database.{
  ColumnJson, ColumnLaws, StoreError, failed, Server, UserRow, KeyRow, Database, sent,
  statement-cases,
}
use lite_agentify.Account.Store.{
  is_active_user, key_record, identity_of, texts_of, parse_allowed_models, allowed_models_to_json,
  create_key,
}
use lite_agentify.Account.Store.Changes.{Same}
use lite_agentify.Account.Store.Live.{find_last, is_live, is_digest, live_keys, get-live_keys}

find_last-snoc {ℓ} :
    {A : Type ℓ} (p : A → Bool) (xs : List A) (x : A)
    → p x ≡ true
    → find_last p (xs ++ (x ∷ [])) ≡ some x
find_last-snoc p [] x h = rw h refl
find_last-snoc p (y ∷ ys) x h = rw (find_last-snoc p ys x h) refl

module _ (d : DecimalOps) (j : ColumnJson) where
  -- The row of a new key.
  abbrev pub new_row :
      Server
      → Uuid
      → (name key_hash_hex prefix : String) → Option (List String)
      → Option d.Decimal
      → Database d j
      → KeyRow d j
  new_row s owner name key_hash_hex prefix allowed_models spend_cap_usd db = record {
    id = s.new_id db.statements;
    user_id = owner;
    key_hash = key_hash_hex;
    prefix = prefix;
    name = name;
    status = key_status_text KeyStatus.active;
    created_at = s.now db.statements;
    last_used_at = none;
    allowed_models = allowed_models_to_json d j allowed_models;
    spend_cap_usd = map_option d.numeric_20_10 spend_cap_usd;
  }

  -- The key is added, or the store fails and the tables stay as they are.
  pub create_key-cases :
      (s : Server) (owner : Uuid) (name key_hash_hex prefix : String) (names : Option (List String))
      (cap : Option d.Decimal) (db : Database d j)
      → (after : Database d j) × (((create_key d j s owner name key_hash_hex prefix names cap db ≡ (
        ok (key_record d j (new_row s owner name key_hash_hex prefix names cap db)),
        after,
      ))
            × (after.users ≡ db.users)
            × (after.keys
                ≡ db.keys ++ (new_row s owner name key_hash_hex prefix names cap db ∷ [])))
          ⊎ ((e : StoreError) × (create_key d j s owner name key_hash_hex prefix names cap db
                ≡ (err e, after))
              × Same d j db after))
  unfolding create_key
  create_key-cases s owner name key_hash_hex prefix names cap db =
      let row = new_row s owner name key_hash_hex prefix names cap db in
      elim (statement-cases d j s "failed to create api key"
        (λ db.
          if any (λ (k : KeyRow d j). k.id == row.id || k.key_hash == row.key_hash) db.keys
          then (err (failed "failed to create api key"), db)
          else if any (λ (u : UserRow). u.id == row.user_id) db.users
          then (ok row, record db { keys = db.keys ++ (row ∷ []) })
          else (err (failed "failed to create api key"), db))
        db) [
          | inr down ↦ (
            sent d j s db,
            inr (failed "failed to create api key", rw (create_key, down) refl, (refl, refl)),
          )
          | inl up ↦
              elim (Bool-cases
                (any (λ (k : KeyRow d j). k.id == row.id || k.key_hash == row.key_hash) db.keys)) [
                  | inl taken ↦ (
                    sent d j s db,
                    inr (
                      failed "failed to create api key",
                      rw (create_key, up, taken) refl,
                      (refl, refl),
                    ),
                  )
                  | inr fresh ↦
                      elim (Bool-cases (any (λ (u : UserRow). u.id == row.user_id) db.users)) [
                        | inr nobody ↦ (
                          sent d j s db,
                          inr (
                            failed "failed to create api key",
                            rw (create_key, up, fresh, nobody) refl,
                            (refl, refl),
                          ),
                        )
                        | inl owned ↦ (
                          record (sent d j s db) { keys = db.keys ++ (row ∷ []) },
                          inl (rw (create_key, up, fresh, owned) refl, refl, refl),
                        )
                      ]
                ]
        ]

  texts_of-map :
      (laws : ColumnLaws j) (names : List String) → texts_of d j (map j.text names) ≡ names
  unfolding texts_of
  texts_of-map laws [] = refl
  texts_of-map laws (n ∷ ns) =
      rw (texts_of, laws.as_str-text n) (ap (λ rest. n ∷ rest) (texts_of-map laws ns))

  -- The list of models is read back from its column.
  pub parse_allowed_models_stored :
      (laws : ColumnLaws j) (names : Option (List String))
      → and_then (allowed_models_to_json d j names) (parse_allowed_models d j) ≡ names
  unfolding parse_allowed_models
  parse_allowed_models_stored laws none = refl
  parse_allowed_models_stored laws (some names) =
      rw (parse_allowed_models, laws.as_array-array (map j.text names))
        (ap some (texts_of-map laws names))

  -- The digest of a key that was added last resolves to its owner and its limits, the
  -- spend cap as its column keeps it.
  pub get-live_keys_new :
      (laws : ColumnLaws j) (s : Server) (owner : Uuid) (name prefix : String) (digest : Digest)
      (names : Option (List String)) (cap : Option d.Decimal) (db after : Database d j)
      → length digest ≡ 32
      → All (λ b. b < 256) digest
      → any (λ u. u.id == owner && is_active_user u) db.users ≡ true
      → after.users ≡ db.users
      → after.keys ≡ db.keys ++ (new_row s owner name (hex digest) prefix names cap db ∷ [])
      → get digest (live_keys d j after)
        ≡ some (record {
          user_id = owner;
          api_key_id = s.new_id db.statements;
          allowed_models = names;
          spend_cap_usd = map_option d.numeric_20_10 cap;
        })
  get-live_keys_new laws s owner name prefix digest names cap db after whole bytes active users
        keys =
      let row = new_row s owner name (hex digest) prefix names cap db in
      let read : is_live d j db.users digest row ≡ true = ground (
        arith,
        active,
        ap (is_digest digest) (decode_hex_32-hex digest whole bytes),
        beq_refl digest,
      ) in
      get-live_keys d j after digest
      ∙ ap (λ us. map_option (identity_of d j) (find_last (is_live d j us digest) after.keys)) users
      ∙ ap (λ ks. map_option (identity_of d j) (find_last (is_live d j db.users digest) ks)) keys
      ∙ ap (map_option (identity_of d j))
          (find_last-snoc (is_live d j db.users digest) db.keys row read)
      ∙ ap
          (λ ns. some (record {
            user_id = owner;
            api_key_id = s.new_id db.statements;
            allowed_models = ns;
            spend_cap_usd = map_option d.numeric_20_10 cap;
          }))
          (parse_allowed_models_stored laws names)
