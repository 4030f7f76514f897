-- ===== src/Account/Store/Live.antt =====
-- What `active_key_map` of src/account/store.rs loads.
use mathlib.Core.Path.{fun_ext}
use mathlib.Core.Option.{map as map_option}
use lite_agentify.Prelude.{
  ℕ, Bool, true, false, ◌&&◌, ◌≡◌, refl, sym, ap, ◌∙◌, ◌⊎◌, inl, inr, Option, none, some, List, [],
  ◌∷◌, map, any, filter, or_else, unwrap_or, ◌==◌, string_eq, nat_eq, bytes_eq, if◌then◌else◌, ok,
  err, arith, Bool-cases, Option-cases,
}
use lite_agentify.Prelude.Map.{get, get-insert}
use lite_agentify.Model.{Uuid}
use lite_agentify.Decimal.{DecimalOps}
use lite_agentify.Account.{KeyIdentity, ApiKeyMap, Digest}
use lite_agentify.Account.Keys.{decode_hex_32}
use lite_agentify.Account.Database.{
  ColumnJson, StoreError, failed, Server, UserRow, KeyRow, Database, sent, statement-cases,
}
use lite_agentify.Account.Store.Changes.{Same}
use lite_agentify.Account.Store.{
  add_key, is_active_key, is_active_user, identity_of, collect_keys, active_key_map,
}

some_injective {ℓ} : {A : Type ℓ} {a b : A} → some a ≡ some b → a ≡ b
some_injective {A = A} {a = a} h = ap (λ o. unwrap_or o a) h

-- The last element that passes a test.
abbrev pub find_last {ℓ} : {A : Type ℓ} → (A → Bool) → List A → Option A
find_last p [] = none
find_last p (x ∷ xs) = elim (find_last p xs) [
  | some y ↦ some y
  | none ↦ if p x then some x else none
]

pub find_last-some {ℓ} :
    {A : Type ℓ} (p : A → Bool) (xs : List A) (x : A) → find_last p xs ≡ some x → p x ≡ true
find_last-some p [] x h = cc
find_last-some p (y ∷ ys) x h = elim (Option-cases (find_last p ys)) [
  | inr (z, later) ↦ find_last-some p ys x (ground (arith, h, later))
  | inl last ↦ elim (Bool-cases (p y)) [
    | inl passes ↦ ground (arith, h, last, passes)
    | inr fails ↦ absurd (ground (arith, h, last, fails))
  ]
]

-- What a test says of the found element, it says of one that passes.
pub find_last-any {ℓ} :
    {A : Type ℓ} (p q : A → Bool) (xs : List A) (x : A)
    → find_last p xs ≡ some x
    → q x ≡ true
    → any (λ y. p y && q y) xs ≡ true
find_last-any p q [] x h k = cc
find_last-any p q (y ∷ ys) x h k = elim (Option-cases (find_last p ys)) [
  | inr (z, later) ↦ ground (arith, find_last-any p q ys x (ground (arith, h, later)) k)
  | inl last ↦ elim (Bool-cases (p y)) [
    | inl passes ↦
        let same : y ≡ x = some_injective (ground (arith, h, last, passes)) in
        let holds : q y ≡ true = ap q same ∙ k in ground (arith, passes, holds)
    | inr fails ↦ absurd (ground (arith, h, last, fails))
  ]
]

find_last-filter {ℓ} :
    {A : Type ℓ} (p q : A → Bool) (xs : List A)
    → find_last p (filter q xs) ≡ find_last (λ x. q x && p x) xs
find_last-filter p q [] = refl
find_last-filter p q (x ∷ xs) = ground (arith, find_last-filter p q xs)

abbrev pub is_digest : Digest → Option (List ℕ) → Bool
is_digest digest none = false
is_digest digest (some read) = read == digest

or_else-none {ℓ} : {A : Type ℓ} (o : Option A) → or_else o none ≡ o
or_else-none none = refl
or_else-none (some a) = refl

module _ (d : DecimalOps) (j : ColumnJson) where
  abbrev pub reads : Digest → KeyRow d j → Bool
  reads digest row = is_digest digest (decode_hex_32 row.key_hash)

  abbrev pub is_owned_by_active : List UserRow → KeyRow d j → Bool
  is_owned_by_active users row = any (λ u. u.id == row.user_id && is_active_user u) users

  -- The key is active, so is its owner, and it has the digest.
  abbrev pub is_live : List UserRow → Digest → KeyRow d j → Bool
  is_live users digest row =
      is_active_key d j row && (is_owned_by_active users row && reads digest row)

  get-add_key :
      (ids : List Uuid) (digest : Digest) (row : KeyRow d j) (keys : ApiKeyMap d)
      → get digest (add_key d j ids row keys) ≡ (
          if any (λ id. id == row.user_id) ids && reads digest row
          then some (identity_of d j row)
          else get digest keys)
  get-add_key ids digest row keys = elim (Bool-cases (any (λ id. id == row.user_id) ids)) [
    | inr orphan ↦ rw orphan refl
    | inl owned ↦ elim (Option-cases (decode_hex_32 row.key_hash)) [
      | inl malformed ↦ rw (owned, ap (is_digest digest) malformed, malformed) refl
      | inr (read, e) ↦
          rw (owned, ap (is_digest digest) e, e) (get-insert read digest (identity_of d j row) keys)
    ]
  ]

  get-collect_keys :
      (ids : List Uuid) (digest : Digest) (rows : List (KeyRow d j)) (keys : ApiKeyMap d)
      → get digest (collect_keys d j ids rows keys)
        ≡ or_else
            (map_option
              (identity_of d j)
              (find_last (λ row. any (λ id. id == row.user_id) ids && reads digest row) rows))
            (get digest keys)
  unfolding collect_keys
  get-collect_keys ids digest [] keys = refl
  get-collect_keys ids digest (row ∷ rows) keys =
      let test : KeyRow d j → Bool = λ row. any (λ id. id == row.user_id) ids && reads digest row in
      let rest = get-collect_keys ids digest rows (add_key d j ids row keys) in
      elim (Option-cases (find_last test rows)) [
        | inr (later, e) ↦ rest ∙ rw e refl
        | inl last ↦
            rest
            ∙ rw last (
                get-add_key ids digest row keys ∙ (elim (Bool-cases (test row)) [
                  | inl passes ↦ rw passes refl
                  | inr fails ↦ rw fails refl
                ]))
      ]

  any-owners :
      (id : Uuid) (users : List UserRow)
      → any (λ i. i == id) (map (λ (u : UserRow). u.id) (filter (is_active_user) users))
        ≡ any (λ u. u.id == id && is_active_user u) users
  any-owners id [] = refl
  any-owners id (u ∷ us) = ground (arith, any-owners id us)

  -- The map that the two tables give.
  abbrev pub live_keys : Database d j → ApiKeyMap d
  live_keys db =
      collect_keys d j (map (λ (u : UserRow). u.id) (filter (is_active_user) db.users))
        (filter (is_active_key d j) db.keys) []

  -- A digest resolves to a key of the two tables exactly if the key and its owner are active and the
  -- key's stored hash is this digest; of several such keys the last is taken.
  pub get-live_keys :
      (db : Database d j) (digest : Digest)
      → get digest (live_keys db)
        ≡ map_option (identity_of d j) (find_last (is_live db.users digest) db.keys)
  unfolding get
  get-live_keys db digest =
      let ids = map (λ (u : UserRow). u.id) (filter is_active_user db.users) in
      get-collect_keys ids digest (filter (is_active_key d j) db.keys) []
      ∙ or_else-none _
      ∙ ap (map_option (identity_of d j)) (
          find_last-filter (λ row. any (λ id. id == row.user_id) ids && reads digest row)
            (is_active_key d j) db.keys
          ∙ ap (λ p. find_last p db.keys)
              (fun_ext λ row.
                ap (λ b. is_active_key d j row && (b && reads digest row))
                  (any-owners row.user_id db.users)))

  -- Behind a resolved digest stands a live key, whose identity it is.
  pub live_key :
      (db : Database d j) (digest : Digest) (who : KeyIdentity d)
      → get digest (live_keys db) ≡ some who
      → (row : KeyRow d j) × (find_last (is_live db.users digest) db.keys ≡ some row)
        × (who ≡ identity_of d j row)
  live_key db digest who h =
      let whole = sym (get-live_keys db digest) ∙ h in
      elim (Option-cases (find_last (is_live db.users digest) db.keys)) [
        | inl nobody ↦ absurd (cc (sym (ap (map_option (identity_of d j)) nobody) ∙ whole))
        | inr (row, found) ↦
            (row, found, some_injective (sym whole ∙ ap (map_option (identity_of d j)) found))
      ]

  module _ (s : Server) where
    -- The map is loaded or the store fails; the tables stay as they are.
    pub active_key_map-cases :
        (db : Database d j)
        → (after : Database d j) × Same d j db after
          × ((active_key_map d j s db ≡ (ok (live_keys db), after))
              ⊎ ((e : StoreError) × (active_key_map d j s db ≡ (err e, after))))
    unfolding active_key_map
    active_key_map-cases db =
        elim (statement-cases d j s "failed to load api keys"
          (λ db. (ok (filter (is_active_key d j) db.keys), db)) db) [
            | inr down ↦ (
              sent d j s db,
              (refl, refl),
              inr (failed "failed to load api keys", rw (active_key_map, down) refl),
            )
            | inl up ↦
                elim (statement-cases d j s "failed to load users"
                  (λ db. (ok (filter is_active_user db.users), db)) (sent d j s db)) [
                    | inr down ↦ (
                      sent d j s (sent d j s db),
                      (refl, refl),
                      inr (failed "failed to load users", rw (active_key_map, up, down) refl),
                    )
                    | inl still ↦ (
                      sent d j s (sent d j s db),
                      (refl, refl),
                      inl (rw (active_key_map, up, still) refl),
                    )
                  ]
          ]
