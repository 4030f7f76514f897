-- ===== src/Proxy/Record/Charge.antt =====
-- The spend counters and the usage records keep step, `record_usage` in src/proxy/router.rs.
use lite_agentify.Prelude.{
  Bool, false, ◌≡◌, refl, Option, none, some, [], ◌∷◌, ◌++◌, ◌==◌, nat_beq, if◌then◌else◌, arith,
  unwrap_or,
}
use lite_agentify.Prelude.Map.{get, get-insert}
use lite_agentify.Domain.{TokenUsage}
use lite_agentify.Model.{Uuid}
use lite_agentify.Quota.{Scope, scope_eq, MemoryCounter, get_spend, add_spend}
use lite_agentify.State.{GatewayState}
use lite_agentify.Usage.{UsageSource}
use lite_agentify.Proxy.Record.{
  Crates, UsageMetadata, UsageRecord, World, Outside, charge, charge_scopes, record_usage,
}

-- Whether an id that may be missing is this one.
abbrev is_id : Option Uuid → Uuid → Bool
is_id none id = false
is_id (some a) id = nat_beq a id

module _ (x : Crates) where
  open x.decimal use {Decimal, add}

  -- Whether a record with these two ids counts for a scope.
  abbrev pub is_owner : Option Uuid → Option Uuid → Scope → Bool
  is_owner user_id api_key_id (Scope.user id) = is_id user_id id
  is_owner user_id api_key_id (Scope.key id) = is_id api_key_id id

  -- What has been spent with a cost more, where there is one and it counts.
  abbrev pub spent_with : Option Decimal → Bool → Decimal → Decimal
  spent_with none counts spent = spent
  spent_with (some cost) counts spent = if counts then add spent cost else spent

  get-add_spend :
      (a b : Scope) (cost : Decimal) (counter : MemoryCounter x.decimal)
      → get_spend x.decimal b (add_spend x.decimal a cost counter) ≡ (
          if a == b
          then add (get_spend x.decimal b counter) cost
          else get_spend x.decimal b counter)
  unfolding get_spend add_spend
  get-add_spend a b cost counter = ground (
    arith,
    scope_eq.agrees_iff a b,
    get-insert a b (add (unwrap_or (get a counter) x.decimal.zero_decimal) cost) counter,
  )

  charge_both :
      (u k : Option Uuid) (cost : Decimal) (scope : Scope) (counter : MemoryCounter x.decimal)
      → get_spend x.decimal scope (charge x Scope.key k cost (charge x Scope.user u cost counter))
        ≡ spent_with (some cost) (is_owner u k scope) (get_spend x.decimal scope counter)
  charge_both none none cost (Scope.user id) counter = refl
  charge_both none none cost (Scope.key id) counter = refl
  charge_both none (some b) cost (Scope.user id) counter = simp get-add_spend
  charge_both none (some b) cost (Scope.key id) counter = simp get-add_spend
  charge_both (some a) none cost (Scope.user id) counter = simp get-add_spend
  charge_both (some a) none cost (Scope.key id) counter = simp get-add_spend
  charge_both (some a) (some b) cost (Scope.user id) counter = simp get-add_spend
  charge_both (some a) (some b) cost (Scope.key id) counter = simp get-add_spend

  charge_scopes-owner :
      (cost : Option Decimal) (m : UsageMetadata) (scope : Scope)
      (counter : MemoryCounter x.decimal)
      → get_spend x.decimal scope (charge_scopes x cost m counter)
        ≡ spent_with cost
            (is_owner m.user_id m.api_key_id scope)
            (get_spend x.decimal scope counter)
  unfolding charge_scopes
  charge_scopes-owner none m scope counter = refl
  charge_scopes-owner (some cost) m scope counter =
      charge_both m.user_id m.api_key_id cost scope counter

  -- Every recorded request adds one record and charges exactly what that record says: each scope
  -- that the record names, its user and its key, has its spend raised by the record's cost, no
  -- other scope changes, and nothing changes where the cost is unknown. The record carries the
  -- ids, the deployment and the status of the request.
  pub record_usage-charges :
      (o : Outside x) (s : GatewayState x.decimal) (m : UsageMetadata) (source : UsageSource)
      (usage : Option TokenUsage) (w : World x)
      → (r : UsageRecord x) × ((record_usage x o s m source usage w).records ≡ w.records ++ r ∷ [])
        × ((scope : Scope)
            → get_spend x.decimal scope (record_usage x o s m source usage w).spend_counter
              ≡ spent_with r.estimated_cost
                  (is_owner r.user_id r.api_key_id scope)
                  (get_spend x.decimal scope w.spend_counter))
        × (r.user_id ≡ m.user_id)
        × (r.api_key_id ≡ m.api_key_id)
        × (r.provider_id ≡ m.provider_id)
        × (r.upstream_model ≡ m.upstream_model)
        × (r.status ≡ m.status)
  unfolding record_usage
  record_usage-charges o s m source usage w = (
    _,
    refl,
    λ scope. charge_scopes-owner _ m scope w.spend_counter,
    refl,
    refl,
    refl,
    refl,
    refl,
  )
