-- ===== src/Quota/Reconcile.antt =====
-- What `reconcile_counters` of src/quota/mod.rs leaves in the counters.
use lite_agentify.Prelude.{
  false, ◌≡◌, refl, ◌∙◌, none, List, [], ◌∷◌, ok, err, arith, unwrap_or, or_else, nat_eq,
}
use lite_agentify.Prelude.Map.{get, insert, get-insert}
use lite_agentify.Model.{Uuid}
use lite_agentify.Decimal.{DecimalOps}
use lite_agentify.Quota.{
  Scope, user, key, scope_eq, MemoryCounter, SpendSums, reset_all, reset_spend, get_spend,
  reconcile_counters,
}

module _ (d : DecimalOps) where
  open d use {Decimal}

  -- The entries of a `HashMap`: no id comes twice.
  abbrev pub HasDistinctIds : List (Uuid × Decimal) → Type 0
  HasDistinctIds [] = Unit
  HasDistinctIds ((id, total) ∷ sums) = (get id sums ≡ none) × HasDistinctIds sums

  -- `scope` is one of the two constructors: it tells ids apart as they are.
  get-reset_all :
      (scope : Uuid → Scope)
      → ((a b : Uuid) → scope_eq.agrees (scope a) (scope b) ≡ nat_eq.agrees a b)
      → (sums : List (Uuid × Decimal)) (values : MemoryCounter d) (id : Uuid) → HasDistinctIds sums
      → get (scope id) (reset_all d scope sums values)
        ≡ or_else (get id sums) (get (scope id) values)
  unfolding reset_all reset_spend get
  get-reset_all scope same [] values id h = refl
  get-reset_all scope same ((j, total) ∷ sums) values id h =
      get-reset_all scope same sums (insert (scope j) total values) id h.1
      ∙ ground
          (arith, get-insert (scope j) (scope id) total values, same j id, nat_eq.agrees_iff j id)

  get-reset_all_other :
      (scope : Uuid → Scope) (other : Scope) (sums : List (Uuid × Decimal))
      (values : MemoryCounter d)
      → ((id : Uuid) → scope_eq.agrees (scope id) other ≡ false)
      → get other (reset_all d scope sums values) ≡ get other values
  unfolding reset_all reset_spend
  get-reset_all_other scope other [] values h = refl
  get-reset_all_other scope other ((j, total) ∷ sums) values h =
      get-reset_all_other scope other sums (insert (scope j) total values) h
      ∙ ground (arith, get-insert (scope j) other total values, h j)

  -- After a successful reconciliation every user and every key that the truth lists has exactly the
  -- recomputed sum, and every other counter keeps its value, also one that has drifted: a scope that
  -- was charged but has no row of usage is not reset. A failed reconciliation changes no counter.
  pub reconcile_counters-truth {ℓ} :
      {E : Type ℓ} (e : E) (sums : SpendSums d) (values : MemoryCounter d) (id : Uuid)
      → HasDistinctIds sums.by_user
      → HasDistinctIds sums.by_key
      → (let after = (reconcile_counters d {E = E} (ok sums) values).1 in
          (get_spend d (user id) after
            ≡ unwrap_or (get id sums.by_user) (get_spend d (user id) values))
          × (get_spend d (key id) after
              ≡ unwrap_or (get id sums.by_key) (get_spend d (key id) values))
          × (reconcile_counters d (err e) values ≡ (err e, values)))
  unfolding reconcile_counters get_spend
  reconcile_counters-truth e sums values id hu hk = (
    ground (
      arith,
      get-reset_all_other key (user id) sums.by_key (reset_all d user sums.by_user values)
          (λ j. refl),
      get-reset_all user (λ a b. refl) sums.by_user values id hu,
    ),
    ground (
      arith,
      get-reset_all key (λ a b. refl) sums.by_key (reset_all d user sums.by_user values) id hk,
      get-reset_all_other user (key id) sums.by_user values (λ j. refl),
    ),
    refl,
  )
