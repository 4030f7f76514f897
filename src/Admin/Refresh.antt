-- ===== src/Admin/Refresh.antt =====
-- What a refresh of the key map changes, `refresh_and_respond` in src/admin/account_api.rs.
use lite_agentify.Prelude.{◌≡◌, refl, ◌⊎◌, inl, inr, Result, ap, sym, subst}
use lite_agentify.Decimal.{DecimalOps}
use lite_agentify.Account.{ApiKeyMap}
use lite_agentify.Account.Database.{ColumnJson, StoreError, Server, Database}
use lite_agentify.Account.Store.Changes.{Same}
use lite_agentify.Account.Store.Live.{live_keys, active_key_map-cases}
use lite_agentify.Reload.{store_api_keys}
use lite_agentify.Admin.{
  AdminState, Answer, Reply, answer, warned, take_keys, respond_refreshed, refresh_api_keys,
  refresh_and_respond,
}

module _ (d : DecimalOps) (j : ColumnJson) where
  -- The map of the snapshot is loaded from the tables, or the body carries a warning and the
  -- snapshot stays; the tables and the sessions are as before.
  pub record Refreshed (body : Reply d j) (before : AdminState d j)
      (r : Answer d j × AdminState d j) : Type 0 where
    pub outcome :
        ((r.0 ≡ answer d j 200 body) × (r.1.shared.state.api_keys ≡ live_keys d j before.database))
        ⊎ ((r.0 ≡ answer d j 200 (warned body)) × (r.1.shared ≡ before.shared))
    pub tables : Same d j before.database r.1.database
    pub signed_in : r.1.sessions ≡ before.sessions

  pub refresh_and_respond-Refreshed :
      (s : Server) (body : Reply d j) (state : AdminState d j)
      → Refreshed body state (refresh_and_respond d j s body state)
  unfolding refresh_and_respond refresh_api_keys store_api_keys
  refresh_and_respond-Refreshed s body state =
      let (after, same, outcome) = active_key_map-cases d j s state.database in
      let finish : Result StoreError (ApiKeyMap d) × Database d j → Answer d j × AdminState d j =
        λ r. respond_refreshed d j body (take_keys d j state r) in
      elim outcome [
        | inl loaded ↦
            subst (Refreshed body state) (sym (ap finish loaded))
              (record { outcome = inl (refl, refl); tables = same; signed_in = refl })
        | inr (e, failed_) ↦
            subst (Refreshed body state) (sym (ap finish failed_))
              (record { outcome = inr (refl, refl); tables = same; signed_in = refl })
      ]
