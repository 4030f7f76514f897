-- ===== src/Quota/Tests.antt =====
-- Runs and instances for src/quota: a counter with two sums, and a server that never answers.
use lite_agentify.Prelude.{◌≡◌, refl, none, some, List, [], ◌∷◌, ok, err, String, unwrap_or, true}
use lite_agentify.Prelude.Int.{pos}
use lite_agentify.Prelude.Map.{get}
use lite_agentify.Decimal.{fixed}
use lite_agentify.Quota.{
  Scope, MemoryCounter, SpendSums, get_spend, reconcile_counters, RedisOps, RedisCounter,
}
use lite_agentify.Quota.Reconcile.{reconcile_counters-truth}
use lite_agentify.Quota.Outage.{
  Call, read, spend, put, run_memory, run_redis, IsOut, outage-refines_memory,
}

abbrev drifted : MemoryCounter fixed
drifted = (Scope.user 1, pos 5) ∷ (Scope.key 2, pos 5) ∷ []

abbrev truth : SpendSums fixed
truth = record { by_user = (1, pos 8) ∷ []; by_key = [] }

reconcile_counters-truth_example :
    (let after = (reconcile_counters fixed {E = String} (ok truth) drifted).1 in
      (get_spend fixed (Scope.user 1) after
        ≡ unwrap_or (some (pos 8)) (get_spend fixed (Scope.user 1) drifted))
      × (get_spend fixed (Scope.key 1) after
          ≡ unwrap_or none (get_spend fixed (Scope.key 1) drifted))
      × (reconcile_counters fixed {E = String} (err "down") drifted ≡ (err "down", drifted)))
unfolding get
reconcile_counters-truth_example =
    reconcile_counters-truth fixed {E = String} "down" truth drifted 1 (refl, tt) tt

abbrev unreachable : RedisOps fixed
unreachable = record {
  Server = Unit {0};
  Error = String;
  send_get = λ s c. (err "down", c);
  send_incrbyfloat = λ s t c. (err "down", c);
  send_set = λ s t c. (err "down", c);
  parse = λ t. none;
  show = λ d. "n";
}

unreachable-IsOut : IsOut fixed unreachable
unreachable-IsOut = record {
  get_fails = λ s c. refl;
  incr_fails = λ s t c. refl;
  set_fails = λ s t c. refl;
}

abbrev calls : List (Call fixed)
calls =
    spend (Scope.user 1) (pos 2)
    ∷ read (Scope.user 1)
    ∷ put (Scope.key 2) (pos 9)
    ∷ read (Scope.key 2)
    ∷ []

abbrev counter : RedisCounter fixed unreachable
counter = record { connection = tt; shadow = drifted; degraded = true }

outage-refines_memory_example :
    ((run_redis fixed unreachable calls counter).0 ≡ (run_memory fixed calls drifted).0)
    × ((run_redis fixed unreachable calls counter).1.shadow ≡ (run_memory fixed calls drifted).1)
outage-refines_memory_example =
    outage-refines_memory fixed unreachable unreachable-IsOut calls counter
