-- ===== src/Account/Bootstrap/Inserts.antt =====
-- What the statements of src/account/bootstrap.rs may come to.
use lite_agentify.Prelude.{
  String, false, ◌||◌, ◌≡◌, refl, ◌∙◌, ◌⊎◌, inl, inr, List, [], ◌∷◌, ◌++◌, any, is_empty, ◌==◌,
  string_eq, nat_eq, if◌then◌else◌, ok, err, Bool-cases,
}
use lite_agentify.Decimal.{DecimalOps}
use lite_agentify.Account.Database.{
  ColumnJson, StoreError, failed, Server, UserRow, KeyRow, Database, sent, statement-cases, select,
  insert_user, insert_key,
}

pub is_empty-snoc {ℓ} : {A : Type ℓ} (xs : List A) (x : A) → is_empty (xs ++ (x ∷ [])) ≡ false
is_empty-snoc [] x = refl
is_empty-snoc (y ∷ ys) x = refl

module _ (d : DecimalOps) (j : ColumnJson) (s : Server) where
  -- A statement that only reads.
  pub select-cases :
      {A : Type 0} (context : String) (look : Database d j → A) (db : Database d j)
      → (select d j s context look db ≡ (ok (look (sent d j s db)), sent d j s db))
        ⊎ (select d j s context look db ≡ (err (failed context), sent d j s db))
  select-cases context look db = statement-cases d j s context (λ db. (ok (look db), db)) db

  pub insert_user-cases :
      (duplicate : StoreError) (context : String) (row : UserRow) (db : Database d j)
      → (after : Database d j) × (((insert_user d j s duplicate context row db ≡ (ok row, after))
            × (after.users ≡ db.users ++ (row ∷ []))
            × (after.keys ≡ db.keys))
          ⊎ ((e : StoreError) × (insert_user d j s duplicate context row db ≡ (err e, after))))
  insert_user-cases duplicate context row db =
      let taken = any (λ (u : UserRow). u.id == row.id || u.username == row.username) db.users in
      elim (statement-cases d j s context
        (λ db.
          if any (λ (u : UserRow). u.id == row.id || u.username == row.username) db.users
          then (err duplicate, db)
          else (ok row, record db { users = db.users ++ (row ∷ []) }))
        db) [
          | inr down ↦ (sent d j s db, inr (failed context, down))
          | inl up ↦ elim (Bool-cases taken) [
            | inl t ↦ (sent d j s db, inr (duplicate, up ∙ rw t refl))
            | inr fresh ↦ (
              record (sent d j s db) { users = db.users ++ (row ∷ []) },
              inl (up ∙ rw fresh refl, refl, refl),
            )
          ]
        ]

  pub insert_key-cases :
      (context : String) (row : KeyRow d j) (db : Database d j)
      → (after : Database d j) × (((insert_key d j s context row db ≡ (ok row, after))
            × (after.users ≡ db.users)
            × (after.keys ≡ db.keys ++ (row ∷ [])))
          ⊎ ((e : StoreError) × (insert_key d j s context row db ≡ (err e, after))))
  insert_key-cases context row db =
      let taken = any (λ (k : KeyRow d j). k.id == row.id || k.key_hash == row.key_hash) db.keys in
      let owned = any (λ (u : UserRow). u.id == row.user_id) db.users in
      elim (statement-cases d j s context
        (λ db.
          if any (λ (k : KeyRow d j). k.id == row.id || k.key_hash == row.key_hash) db.keys
          then (err (failed context), db)
          else if any (λ (u : UserRow). u.id == row.user_id) db.users
          then (ok row, record db { keys = db.keys ++ (row ∷ []) })
          else (err (failed context), db))
        db) [
          | inr down ↦ (sent d j s db, inr (failed context, down))
          | inl up ↦ elim (Bool-cases taken) [
            | inl t ↦ (sent d j s db, inr (failed context, up ∙ rw t refl))
            | inr fresh ↦ elim (Bool-cases owned) [
              | inr nobody ↦ (sent d j s db, inr (failed context, up ∙ rw (fresh, nobody) refl))
              | inl o ↦ (
                record (sent d j s db) { keys = db.keys ++ (row ∷ []) },
                inl (up ∙ rw (fresh, o) refl, refl, refl),
              )
            ]
          ]
        ]
