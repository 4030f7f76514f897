-- ===== src/State/Credit.antt =====
-- The prepaid check, `check_quota` of src/state.rs, over the counters of src/quota/counter.rs.
use lite_agentify.Prelude.{
  true, false, ◌≡◌, ◌≢◌, ◌↔◌, Option, none, some, List, [], ◌∷◌, All, arith, inl, inr, Bool-cases,
  Option-cases, unwrap_or, nat_eq, ◌==◌,
}
use lite_agentify.Prelude.Map.{get, get-insert}
use lite_agentify.Decimal.{DecimalOps, DecimalLaws}
use lite_agentify.Account.{KeyIdentity}
use lite_agentify.Quota.{Scope, user, key, scope_eq, MemoryCounter, get_spend, add_spend}
use lite_agentify.State.{GatewayState, allowed, check_quota}

module _ (d : DecimalOps) where
  open d use {Decimal, zero_decimal, ge, add}

  -- Cumulative spend below the limit; no limit is never reached.
  abbrev pub IsBelow : Decimal → Option Decimal → Type 0
  IsBelow spent none = Unit
  IsBelow spent (some cap) = ge spent cap ≡ false

  -- A request passes exactly if the user has spent less than was granted (nothing, where no grant
  -- is known) and the key has spent less than its cap, if it has one.
  pub check_quota_allows :
      (s : GatewayState d) (counter : MemoryCounter d) (identity : KeyIdentity d)
      → (check_quota d s counter identity ≡ allowed) ↔ (
          (ge
              (get_spend d (user identity.user_id) counter)
              (unwrap_or (get identity.user_id s.granted) zero_decimal)
            ≡ false)
          × IsBelow (get_spend d (key identity.api_key_id) counter) identity.spend_cap_usd)
  unfolding check_quota
  check_quota_allows s counter identity = (λ h. (ground arith, ground arith), λ h. ground arith)

  -- Costs added to the counters, first to last.
  abbrev pub charge : List (Scope × Decimal) → MemoryCounter d → MemoryCounter d
  charge [] counter = counter
  charge ((scope, cost) ∷ cs) counter = charge cs (add_spend d scope cost counter)

  module _ (laws : DecimalLaws d) where
    add_spend-ge :
        (scope at : Scope) (cost : Decimal) (counter : MemoryCounter d)
        → ge cost zero_decimal ≡ true
        → ge (get_spend d at (add_spend d scope cost counter)) (get_spend d at counter) ≡ true
    unfolding get_spend add_spend
    add_spend-ge scope at cost counter h = elim (Bool-cases (scope == at)) [
      | inl same ↦ ground (
        arith,
        get-insert scope at (add (unwrap_or (get scope counter) zero_decimal) cost) counter,
        laws.add-ge (unwrap_or (get at counter) zero_decimal) cost h,
        scope_eq.agrees_iff scope at,
      )
      | inr other ↦ ground (
        arith,
        get-insert scope at (add (unwrap_or (get scope counter) zero_decimal) cost) counter,
        laws.ge_refl (unwrap_or (get at counter) zero_decimal),
      )
    ]

    charge-ge :
        (cs : List (Scope × Decimal)) (counter : MemoryCounter d) (at : Scope)
        → All (λ c. ge c.1 zero_decimal ≡ true) cs
        → ge (get_spend d at (charge cs counter)) (get_spend d at counter) ≡ true
    charge-ge [] counter at h = laws.ge_refl (get_spend d at counter)
    charge-ge ((scope, cost) ∷ cs) counter at h =
        laws.ge_trans _ (get_spend d at (add_spend d scope cost counter)) _
          (charge-ge cs (add_spend d scope cost counter) at h.1)
          (add_spend-ge scope at cost counter h.0)

    -- A caller that is refused stays refused, whatever requests of anybody are charged in between:
    -- with costs that are not negative, the quota check cannot turn to allowed before a grant, a
    -- change of the key's cap or a reconciliation.
    pub refused_stays_refused :
        (s : GatewayState d) (counter : MemoryCounter d) (identity : KeyIdentity d)
        (cs : List (Scope × Decimal))
        → All (λ c. ge c.1 zero_decimal ≡ true) cs
        → check_quota d s counter identity ≢ allowed
        → check_quota d s (charge cs counter) identity ≢ allowed
    unfolding check_quota
    refused_stays_refused s counter identity cs h refused =
        let of_user = user identity.user_id in
        let of_key = key identity.api_key_id in
        let granted : Decimal = unwrap_or (get identity.user_id s.granted) zero_decimal in
        let user_grows = charge-ge cs counter of_user h in
        let key_grows = charge-ge cs counter of_key h in
        let user_reach = laws.ge_trans _ _ granted user_grows in
        elim (Option-cases identity.spend_cap_usd) [
          | inl uncapped ↦ λ e. refused (ground arith)
          | inr (cap, capped) ↦
              let key_reach = laws.ge_trans _ _ cap key_grows in λ e. refused (ground arith)
        ]
