-- ===== src/Admin/ApiKeys/Created.antt =====
-- A new key lets its owner in at once, `create_key` in src/admin/account_api.rs.
use Prim.Native.String.{◌++◌}
use mathlib.Core.Option.{map as map_option}
use lite_agentify.Prelude.{
  err, ℕ, ◌<◌, String, true, ◌&&◌, ◌||◌, ◌≡◌, refl, ap, ◌∙◌, ◌⊎◌, inl, inr, Option, none, some,
  List, any, All, length, ◌==◌, nat_eq, string_eq, bytes_eq, if◌then◌else◌, ok, Bool-cases,
  Option-cases, Result-cases, ltb,
}
use lite_agentify.Prelude.Map.{get}
use lite_agentify.Prelude.Text.{trim, byte_len, is_empty_text}
use lite_agentify.Decimal.{DecimalOps}
use lite_agentify.Account.{Digest, KeyIdentity}
use lite_agentify.Account.Keys.{hex, key_prefix, generate_api_key}
use lite_agentify.Account.Database.{ColumnJson, ColumnLaws, Server}
use lite_agentify.Account.Store.{is_active_user, key_record}
use lite_agentify.Account.Store.Changes.{Same}
use lite_agentify.Account.Store.Inserted.{new_row, create_key-cases, get-live_keys_new}
use lite_agentify.State.{HeaderText, authorize}
use lite_agentify.State.Authorize.{authorize_bearer}
use lite_agentify.Session.{SessionIdentity}
use lite_agentify.Admin.{
  AdminState, Answer, KeyView, answer, new_key, warned, internal, refresh_and_respond,
}
use lite_agentify.Admin.Refresh.{refresh_and_respond-Refreshed}
use lite_agentify.Admin.ApiKeys.{Limits, limits_of, create_key_with, create_key}

-- The headers of a request with this key.
abbrev pub bearer : String → HeaderText
bearer key name = if name == "authorization" then some ("Bearer " ++ key) else none

module _ (d : DecimalOps) (j : ColumnJson) (s : Server) (parse_decimal : String → Option d.Decimal)
    (hash : String → Digest) (identity : SessionIdentity) where
  -- The identity behind the new key: the caller, with the limits of the request, the spend cap as
  -- its numeric(20, 10) column keeps it.
  abbrev pub owner_with : Limits d j s parse_decimal → AdminState d j → KeyIdentity d
  owner_with limits before = record {
    user_id = identity.user_id;
    api_key_id = s.new_id before.database.statements;
    allowed_models = limits.0;
    spend_cap_usd = map_option d.numeric_20_10 limits.1;
  }

  -- The outcomes for a drawn key: it lets its owner in; it is stored, but the snapshot is as before,
  -- of which the answer warns; or the store failed, and nothing changed.
  abbrev pub Created :
      String → Limits d j s parse_decimal → AdminState d j → Answer d j × AdminState d j → Type 0
  Created plaintext limits before (a, after) =
      ((view : KeyView d j) × (a ≡ answer d j 200 (new_key plaintext view))
        × (authorize d hash after.shared.state (bearer plaintext)
            ≡ some (owner_with limits before)))
      ⊎ ((view : KeyView d j) × (a ≡ answer d j 200 (warned (new_key plaintext view)))
          × (after.shared ≡ before.shared))
      ⊎ ((a ≡ internal d j "failed to create key")
          × (after.shared ≡ before.shared)
          × Same d j before.database after.database)

  -- The name is too short or too long, or the limits are not accepted.
  abbrev pub IsBad : String → Option (List String) → Option String → Type 0
  IsBad given names cap =
      ((is_empty_text (trim given) || ltb 100 (byte_len (trim given))) ≡ true)
      ⊎ ((message : String) × (limits_of d j s parse_decimal names cap ≡ err message))

  -- The outcomes of `create_key`: no key is drawn from the random bytes; the request is refused and
  -- changes nothing; or a key is drawn.
  abbrev pub Outcome :
      (rounds : ℕ)
      → (fill_bytes : ℕ → List ℕ) → (given : String) → Option (List String)
      → Option String
      → AdminState d j
      → Option (Answer d j × AdminState d j)
      → Type 0
  Outcome rounds fill_bytes given names cap before none = generate_api_key rounds fill_bytes ≡ none
  Outcome rounds fill_bytes given names cap before (some (a, after)) =
      ((a.status ≡ 400) × (after ≡ before) × IsBad given names cap)
      ⊎ ((plaintext : String) × (limits : Limits d j s parse_decimal) × (generate_api_key rounds
              fill_bytes
            ≡ some plaintext)
          × (limits_of d j s parse_decimal names cap ≡ ok limits)
          × Created plaintext limits before (a, after))

  module _ (laws : ColumnLaws j)
      (is_digest : (key : String) → (length (hash key) ≡ 32) × All (λ b. b < 256) (hash key)) where
    created :
        (name plaintext : String) (limits : Limits d j s parse_decimal) (state : AdminState d j)
        → any (λ u. u.id == identity.user_id && is_active_user u) state.database.users ≡ true
        → Created plaintext limits state
            (create_key_with d j s parse_decimal hash identity name limits plaintext state)
    created name plaintext limits state active =
        let prefix = key_prefix plaintext in
        let (db, outcome) =
          create_key-cases d j s identity.user_id name (hex (hash plaintext)) prefix limits.0
            limits.1 state.database in
        elim outcome [
          | inr (e, down, same) ↦ rw down (inr (inr (refl, refl, same)))
          | inl (stored, users, keys) ↦
              let row =
                new_row d j s identity.user_id name (hex (hash plaintext)) prefix limits.0 limits.1
                  state.database in
              let view : KeyView d j = record {
                key = key_record d j row;
                username = none;
                spent_usd = none;
              } in
              let middle = record state { database = db } in
              let r = refresh_and_respond-Refreshed d j s (new_key plaintext view) middle in
              let after = (refresh_and_respond d j s (new_key plaintext view) middle).1 in
              let known =
                get-live_keys_new d j laws s identity.user_id name prefix (hash plaintext) limits.0
                  limits.1 state.database db (is_digest plaintext).0 (is_digest plaintext).1 active
                  users keys in
              rw stored (elim r.outcome [
                | inl (answered, loaded) ↦ inl (
                  view,
                  answered,
                  authorize_bearer d hash after.shared.state (bearer plaintext) plaintext
                      (owner_with limits state) refl (ap (get (hash plaintext)) loaded ∙ known),
                )
                | inr (answered, kept) ↦ inr (inl (view, answered, kept))
              ])
        ]

    -- A key that an active caller creates lets the caller in at once, with exactly the models of the
    -- request and its spend cap as the numeric(20, 10) column rounds it, unless the answer says that it was refused, that storing it failed or that the
    -- snapshot is not refreshed; then the snapshot is as before. Every digest has 32 bytes, and a
    -- list of models is read back from its column as it was written.
    pub create_key-Outcome :
        (rounds : ℕ) (fill_bytes : ℕ → List ℕ) (given : String) (names : Option (List String))
        (cap : Option String) (state : AdminState d j)
        → any (λ u. u.id == identity.user_id && is_active_user u) state.database.users ≡ true
        → Outcome rounds fill_bytes given names cap state
            (create_key d j s parse_decimal hash rounds fill_bytes identity given names cap state)
    unfolding create_key
    create_key-Outcome rounds fill_bytes given names cap state active =
        elim (Bool-cases (is_empty_text (trim given) || ltb 100 (byte_len (trim given)))) [
          | inl bad ↦ rw (create_key, bad) (inl (refl, refl, inl bad))
          | inr good ↦ elim (Result-cases (limits_of d j s parse_decimal names cap)) [
            | inr (message, refused) ↦
                rw (create_key, good, refused) (inl (refl, refl, inr (message, refused)))
            | inl (limits, accepted) ↦ elim (Option-cases (generate_api_key rounds fill_bytes)) [
              | inl nothing ↦ rw (create_key, good, accepted, nothing) nothing
              | inr (plaintext, drawn) ↦
                  rw (create_key, good, accepted, drawn)
                    (inr (
                      plaintext,
                      limits,
                      drawn,
                      accepted,
                      created (trim given) plaintext limits state active,
                    ))
            ]
          ]
        ]
