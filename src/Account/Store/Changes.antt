-- ===== src/Account/Store/Changes.antt =====
-- How the updates of src/account/store.rs change the tables.
use mathlib.Core.Option.{map as map_option}
use lite_agentify.Prelude.{
  ◌⊎◌, String, Bool, true, false, ◌≡◌, refl, inl, inr, List, [], ◌∷◌, any, find, is_some, ◌==◌,
  nat_eq, if◌then◌else◌, Result, ok, err, arith, Bool-cases,
}
use lite_agentify.Model.{Uuid}
use lite_agentify.Decimal.{DecimalOps}
use lite_agentify.Account.Database.{
  ColumnJson, StoreError, failed, Server, UserRow, KeyRow, Database, sent, statement-cases,
  update_where,
}
use lite_agentify.Account.Store.{change_user, change_key, key_record, get_key}

is_some-find {ℓ} : {A : Type ℓ} (p : A → Bool) (xs : List A) → is_some (find p xs) ≡ any p xs
is_some-find p [] = refl
is_some-find p (x ∷ xs) = ground (arith, is_some-find p xs)

module _ (d : DecimalOps) (j : ColumnJson) where
  -- The tables are as they were.
  abbrev pub Same : Database d j → Database d j → Type 0
  Same before after = (after.users ≡ before.users) × (after.keys ≡ before.keys)

  -- The outcomes of a change: the rows with the id are changed; no row has it; or the store failed.
  abbrev pub UserChanged :
      Uuid → (UserRow → UserRow) → Database d j → Result StoreError Bool × Database d j → Type 0
  UserChanged id f before (ok true, after) =
      (after.users ≡ update_where (λ u. u.id == id) f before.users) × (after.keys ≡ before.keys)
  UserChanged id f before (ok false, after) =
      (any (λ u. u.id == id) before.users ≡ false) × Same before after
  UserChanged id f before (err e, after) = Same before after

  abbrev pub KeyChanged :
      Uuid
      → (KeyRow d j → KeyRow d j)
      → Database d j
      → Result StoreError Bool × Database d j
      → Type 0
  KeyChanged id f before (ok true, after) =
      (after.keys ≡ update_where (λ k. k.id == id) f before.keys) × (after.users ≡ before.users)
  KeyChanged id f before (ok false, after) =
      (any (λ k. k.id == id) before.keys ≡ false) × Same before after
  KeyChanged id f before (err e, after) = Same before after

  module _ (s : Server) where
    pub change_user-UserChanged :
        (context : String) (id : Uuid) (f : UserRow → UserRow) (db : Database d j)
        → UserChanged id f db (change_user d j s context id f db)
    change_user-UserChanged context id f db =
        let test : UserRow → Bool = λ u. u.id == id in
        elim (statement-cases d j s "failed to query user" (λ db. (ok (find test db.users), db))
          db) [
            | inr down ↦ rw down (refl, refl)
            | inl up ↦ elim (Bool-cases (any test db.users)) [
              | inr missing ↦ rw (up, is_some-find test db.users, missing) (missing, (refl, refl))
              | inl there ↦
                  elim (statement-cases d j s context
                    (λ db.
                      if any test db.users
                      then (ok tt, record db { users = update_where test f db.users })
                      else (err (failed context), db))
                    (sent d j s db)) [
                      | inr down ↦ rw (up, is_some-find test db.users, there, down) (refl, refl)
                      | inl updated ↦
                          rw (up, is_some-find test db.users, there, updated, there) (refl, refl)
                    ]
            ]
          ]

    pub change_key-KeyChanged :
        (context : String) (id : Uuid) (f : KeyRow d j → KeyRow d j) (db : Database d j)
        → KeyChanged id f db (change_key d j s context id f db)
    change_key-KeyChanged context id f db =
        let test : KeyRow d j → Bool = λ k. k.id == id in
        elim (statement-cases d j s "failed to query api key" (λ db. (ok (find test db.keys), db))
          db) [
            | inr down ↦ rw down (refl, refl)
            | inl up ↦ elim (Bool-cases (any test db.keys)) [
              | inr missing ↦ rw (up, is_some-find test db.keys, missing) (missing, (refl, refl))
              | inl there ↦
                  elim (statement-cases d j s context
                    (λ db.
                      if any test db.keys
                      then (ok tt, record db { keys = update_where test f db.keys })
                      else (err (failed context), db))
                    (sent d j s db)) [
                      | inr down ↦ rw (up, is_some-find test db.keys, there, down) (refl, refl)
                      | inl updated ↦
                          rw (up, is_some-find test db.keys, there, updated, there) (refl, refl)
                    ]
            ]
          ]

    -- A key is read, or the store fails; the tables stay as they are.
    pub get_key-cases :
        (id : Uuid) (db : Database d j)
        → (after : Database d j) × Same db after
          × ((get_key d j s id db
                ≡ (ok (map_option (key_record d j) (find (λ k. k.id == id) db.keys)), after))
              ⊎ ((e : StoreError) × (get_key d j s id db ≡ (err e, after))))
    unfolding get_key
    get_key-cases id db =
        elim (statement-cases d j s "failed to query api key"
          (λ db. (ok (find (λ (k : KeyRow d j). k.id == id) db.keys), db)) db) [
            | inr down ↦ (
              sent d j s db,
              (refl, refl),
              inr (failed "failed to query api key", rw (get_key, down) refl),
            )
            | inl up ↦ (sent d j s db, (refl, refl), inl (rw (get_key, up) refl))
          ]
