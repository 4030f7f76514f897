-- ===== src/Admin/ApiKeys/Revoked.antt =====
-- What revoking a key does, and what a stranger learns (src/admin/account_api.rs).
use mathlib.Core.Option.{map as map_option}
use lite_agentify.Prelude.{
  String, Bool, true, false, not, ◌&&◌, ◌≡◌, refl, sym, ap, ◌∙◌, subst, ◌⊎◌, inl, inr, Option, none,
  some, List, [], ◌∷◌, any, find, ◌==◌, nat_eq, string_eq, bytes_eq, Result, ok, err, arith,
  Bool-cases, Option-cases,
}
use lite_agentify.Prelude.Map.{get}
use lite_agentify.Model.{Uuid}
use lite_agentify.Decimal.{DecimalOps}
use lite_agentify.Account.{ApiKeyRecord, KeyStatus, key_status_text, KeyIdentity, Digest}
use lite_agentify.Account.Database.{ColumnJson, StoreError, Server, KeyRow, Database, update_where}
use lite_agentify.Account.Store.{is_active_key, identity_of, key_record, key_status_of, get_key}
use lite_agentify.Account.Store as Store
use lite_agentify.Account.Store.Changes.{Same, KeyChanged, change_key-KeyChanged, get_key-cases}
use lite_agentify.Account.Store.Live.{find_last-any, is_live, live_keys, live_key}
use lite_agentify.State.{HeaderText, authorize}
use lite_agentify.State.Authorize.{authorize-Admits}
use lite_agentify.Session.{SessionIdentity}
use lite_agentify.Admin.{
  AdminState, Answer, answer, done, warned, is_admin, internal, on_found, take_outcome,
  refresh_and_respond,
}
use lite_agentify.Admin.Refresh.{refresh_and_respond-Refreshed}
use lite_agentify.Admin.ApiKeys.{key_missing, is_revoked, revoke_key}

module _ (d : DecimalOps) (j : ColumnJson) where
  abbrev revoke : KeyRow d j → KeyRow d j
  revoke row = record row { status = key_status_text KeyStatus.revoked }

  none_active :
      (id : Uuid) (keys : List (KeyRow d j))
      → any (λ k. is_active_key d j k && (k.id == id)) (update_where (λ k. k.id == id) revoke keys)
        ≡ false
  none_active id [] = refl
  none_active id (k ∷ ks) = elim (Bool-cases (k.id == id)) [
    | inl same ↦ rw same (none_active id ks)
    | inr other ↦ rw (other, other) (ground (arith, none_active id ks))
  ]

  -- Whether a request was let in with the key.
  abbrev pub is_let_in_by : Uuid → Option (KeyIdentity d) → Bool
  is_let_in_by id none = false
  is_let_in_by id (some who) = who.api_key_id == id

  -- No request is let in with the key, with whatever headers and digests.
  abbrev pub KeyOut : Uuid → AdminState d j → Type 0
  KeyOut id after =
      (hash : String → Digest) (headers : HeaderText)
      → is_let_in_by id (authorize d hash after.shared.state headers) ≡ false

  abbrev pub RowOut : Uuid → AdminState d j → Type 0
  RowOut id after = any (λ k. is_active_key d j k && (k.id == id)) after.database.keys ≡ false

  any_both {ℓ} :
      {A : Type ℓ} (p q r : A → Bool) (xs : List A)
      → ((x : A) → p x ≡ true → r x ≡ true)
      → any (λ x. p x && q x) xs ≡ true
      → any (λ x. r x && q x) xs ≡ true
  any_both p q r [] h k = cc
  any_both p q r (x ∷ xs) h k = elim (Bool-cases (p x)) [
    | inl holds ↦ ground (arith, h x holds, any_both p q r xs h, k)
    | inr fails ↦ ground (arith, any_both p q r xs h, k)
  ]

  key_out :
      (id : Uuid) (db : Database d j) (after : AdminState d j)
      → any (λ k. is_active_key d j k && (k.id == id)) db.keys ≡ false
      → after.shared.state.api_keys ≡ live_keys d j db
      → KeyOut id after
  key_out id db after none_left loaded hash headers =
      elim (Option-cases (authorize d hash after.shared.state headers)) [
        | inl refused ↦ ap (is_let_in_by id) refused
        | inr (who, admitted) ↦
            let (candidate, offered, known) =
              authorize-Admits d hash after.shared.state headers who admitted in
            let (row, found, same) =
              live_key d j db (hash candidate) who
                (ap (get (hash candidate)) (sym loaded) ∙ known) in
            ap (is_let_in_by id) (admitted ∙ ap some same) ∙ (elim (Bool-cases (row.id == id)) [
              | inr other ↦ other
              | inl here ↦
                  let live = is_live d j db.users (hash candidate) in
                  let found_active =
                    any_both live (λ k. k.id == id) (is_active_key d j) db.keys
                      (λ k passes. ground (arith, passes))
                      (find_last-any live (λ k. k.id == id) db.keys row found here) in
                  absurd (cc (sym none_left ∙ found_active))
            ])
      ]

  -- The stored status of the key.
  abbrev pub status_of : Uuid → Database d j → Option KeyStatus
  status_of id db =
      map_option (λ (k : KeyRow d j). key_status_of k.status) (find (λ k. k.id == id) db.keys)

  -- The snapshot and the tables are as they were.
  abbrev pub Kept : AdminState d j → AdminState d j → Type 0
  Kept before after = (after.shared ≡ before.shared) × Same d j before.database after.database

  -- The outcomes of `revoke_key`: the key is out; it is out but for the snapshot, of which the answer
  -- warns; it was revoked before, and nothing is done; or the request is refused or has failed, for a
  -- reason.
  abbrev pub Revoked : Type 0 → Uuid → AdminState d j → Answer d j × AdminState d j → Type 0
  Revoked Reason id before (a, after) =
      ((a ≡ answer d j 200 done) × KeyOut id after × RowOut id after)
      ⊎ ((a ≡ answer d j 200 (warned done)) × (after.shared ≡ before.shared) × RowOut id after)
      ⊎ ((a ≡ answer d j 200 done)
          × (status_of id before.database ≡ some KeyStatus.revoked)
          × Kept before after)
      ⊎ (((a.status == 200) ≡ false) × Reason × Kept before after)

  -- The store has found and changed the row.
  abbrev pub is_done : Result StoreError Bool → Bool
  is_done (ok found) = found
  is_done (err e) = false

  -- The store has found a key that the caller may revoke.
  abbrev pub is_open_to : SessionIdentity → Result StoreError (Option (ApiKeyRecord d)) → Bool
  is_open_to identity (err e) = false
  is_open_to identity (ok none) = false
  is_open_to identity (ok (some key)) =
      not (not (is_admin identity.role) && not (key.user_id == identity.user_id))

  module _ (s : Server) (parse_decimal : String → Option d.Decimal) where
    -- The store has no such key for the caller, or does not revoke it.
    abbrev pub Refusal : SessionIdentity → Uuid → AdminState d j → Type 0
    Refusal identity id before =
        (is_open_to identity (get_key d j s id before.database).0 ≡ false)
        ⊎ (is_done (Store.revoke_key d j s id (get_key d j s id before.database).1).0 ≡ false)

    revoked :
        (Reason : Type 0) (id : Uuid) (state middle : AdminState d j)
        (r : Result StoreError Bool × Database d j)
        → Kept state middle
        → KeyChanged d j id revoke middle.database r
        → (is_done r.0 ≡ false → Reason)
        → Revoked Reason id state (
            take_outcome d j
              (on_found d j
                (refresh_and_respond d j s done)
                (key_missing d j s parse_decimal)
                (internal d j "failed to revoke key"))
              middle
              r)
    revoked Reason id state middle (ok true, db) kept changed why =
        let refreshed = record middle { database = db } in
        let r = refresh_and_respond-Refreshed d j s done refreshed in
        let out =
          ap (any (λ k. is_active_key d j k && (k.id == id))) changed.0
          ∙ none_active id middle.database.keys in
        let row_out = ap (any (λ k. is_active_key d j k && (k.id == id))) r.tables.1 ∙ out in
        elim r.outcome [
          | inl (answered, loaded) ↦ inl (
            answered,
            key_out id db (refresh_and_respond d j s done refreshed).1 out loaded,
            row_out,
          )
          | inr (answered, same) ↦ inr (inl (answered, same ∙ kept.0, row_out))
        ]
    revoked Reason id state middle (ok false, db) kept changed why =
        inr (inr (inr (refl, why refl, (kept.0, (changed.1.0 ∙ kept.1.0, changed.1.1 ∙ kept.1.1)))))
    revoked Reason id state middle (err e, db) kept changed why =
        inr (inr (inr (refl, why refl, (kept.0, (changed.0 ∙ kept.1.0, changed.1 ∙ kept.1.1)))))

    revoked_text :
        (status : String)
        → is_revoked d j s parse_decimal (key_status_of status) ≡ true
        → key_status_of status ≡ KeyStatus.revoked
    revoked_text status h = elim (Bool-cases (status == "active")) [
      | inl active ↦ absurd (ground (arith, h, active))
      | inr other ↦ rw other refl
    ]

    -- A revoked key is out at once: no request is let in with it on the new snapshot, and its row is
    -- not active. If the snapshot could not be refreshed, which the answer tells, the same holds but
    -- for the snapshot. A key that was revoked before is answered alike, and nothing is done. Any
    -- other answer leaves snapshot and tables as they were.
    pub revoke_key-Revoked :
        (identity : SessionIdentity) (id : Uuid) (state : AdminState d j)
        → Revoked
            (Refusal identity id state)
            id
            state
            (revoke_key d j s parse_decimal identity id state)
    unfolding revoke_key Store.revoke_key
    revoke_key-Revoked identity id state =
        let (db, same, read) = get_key-cases d j s id state.database in
        let middle = record state { database = db } in
        elim read [
          | inr (e, down) ↦ rw (revoke_key, down) (inr (inr (inr (refl, inl refl, (refl, same)))))
          | inl found ↦
              elim (Option-cases (find (λ (k : KeyRow d j). k.id == id) state.database.keys)) [
                | inl missing ↦
                    rw (revoke_key, found, missing) (inr (inr (inr (refl, inl refl, (refl, same)))))
                | inr (row, there) ↦
                    elim (Bool-cases
                      (not (is_admin identity.role) && not (row.user_id == identity.user_id))) [
                        | inl foreign ↦
                            rw (revoke_key, found, there, foreign)
                              (inr (inr (inr (refl, inl refl, (refl, same)))))
                        | inr own ↦
                            elim (Bool-cases
                              (is_revoked d j s parse_decimal (key_status_of row.status))) [
                                | inl before ↦
                                    rw (revoke_key, found, there, own, before)
                                      (inr (
                                        inr (
                                          inl (
                                            refl,
                                            ap some (revoked_text row.status before),
                                            (refl, same),
                                          ))))
                                | inr live ↦
                                    let call : revoke_key d j s parse_decimal identity id state
                                        ≡ take_outcome d j
                                            (on_found d j (refresh_and_respond d j s done)
                                              (key_missing d j s parse_decimal)
                                              (internal d j "failed to revoke key"))
                                            middle (Store.revoke_key d j s id db) =
                                      rw (revoke_key, found, there, own, live) refl in
                                    subst (Revoked (Refusal identity id state) id state) (sym call)
                                      (revoked (Refusal identity id state) id state middle
                                        (Store.revoke_key d j s id db) (refl, same)
                                        (change_key-KeyChanged d j s "failed to revoke api key" id
                                          revoke db)
                                        (λ undone. inr (
                                          ap (λ r. is_done (Store.revoke_key d j s id r.1).0) found
                                          ∙ undone)))
                              ]
                      ]
              ]
        ]
