-- ===== src/Quota/Outage.antt =====
-- `RedisCounter` of src/quota/counter.rs while the server is out of reach.
use lite_agentify.Prelude.{◌≡◌, refl, List, [], ◌∷◌, arith, true}
use lite_agentify.Decimal.{DecimalOps}
use lite_agentify.Quota.{
  Scope, MemoryCounter, get_spend, add_spend, reset_spend, RedisOps, RedisCounter, failed,
  redis_get, redis_add, redis_reset,
}

-- The calls of the interface `SpendCounter`.
pub data Call (d : DecimalOps) : Type 0 where
  read : Scope → Call d
  spend : Scope → d.Decimal → Call d
  put : Scope → d.Decimal → Call d

module _ (d : DecimalOps) where
  -- The values read by a series of calls on the counter in memory, and the counter after it.
  abbrev pub run_memory : List (Call d) → MemoryCounter d → List d.Decimal × MemoryCounter d
  run_memory [] m = ([], m)
  run_memory (read s ∷ cs) m = let (out, m') = run_memory cs m in (get_spend d s m ∷ out, m')
  run_memory (spend s c ∷ cs) m = run_memory cs (add_spend d s c m)
  run_memory (put s v ∷ cs) m = run_memory cs (reset_spend d s v m)

  module _ (r : RedisOps d) where
    -- The same on the counter in Redis.
    abbrev pub run_redis : List (Call d) → RedisCounter d r → List d.Decimal × RedisCounter d r
    run_redis [] c = ([], c)
    run_redis (read s ∷ cs) c =
        let (v, c') = redis_get d r s c in let (out, c'') = run_redis cs c' in (v ∷ out, c'')
    run_redis (spend s x ∷ cs) c = run_redis cs (redis_add d r s x c)
    run_redis (put s v ∷ cs) c = run_redis cs (redis_reset d r s v c)

    -- The server answers no command.
    pub record IsOut : Type 0 where
      pub get_fails : (s : Scope) (c : r.Server) → failed d r (r.send_get s c).0 ≡ true
      pub incr_fails :
          (s : Scope) (t : _) (c : r.Server) → failed d r (r.send_incrbyfloat s t c).0 ≡ true
      pub set_fails : (s : Scope) (t : _) (c : r.Server) → failed d r (r.send_set s t c).0 ≡ true

    redis_get-out :
        (out : IsOut) (s : Scope) (c : RedisCounter d r)
        → ((redis_get d r s c).0 ≡ get_spend d s c.shadow)
          × ((redis_get d r s c).1.shadow ≡ c.shadow)
          × ((redis_get d r s c).1.degraded ≡ true)
    unfolding redis_get
    redis_get-out out s c = ground (arith, out.get_fails s c.connection)

    -- While the server is out of reach the counter in Redis is the counter in memory over its
    -- shadow: every series of calls reads the same values and leaves the same shadow.
    pub outage-refines_memory :
        (out : IsOut) (cs : List (Call d)) (c : RedisCounter d r)
        → ((run_redis cs c).0 ≡ (run_memory cs c.shadow).0)
          × ((run_redis cs c).1.shadow ≡ (run_memory cs c.shadow).1)
    unfolding redis_add redis_reset
    outage-refines_memory out [] c = (refl, refl)
    outage-refines_memory out (read s ∷ cs) c =
        let (value, shadow, flag) = redis_get-out out s c in
        let (reads, after) = outage-refines_memory out cs (redis_get d r s c).1 in (cc, cc)
    outage-refines_memory out (spend s x ∷ cs) c =
        outage-refines_memory out cs (redis_add d r s x c)
    outage-refines_memory out (put s v ∷ cs) c =
        outage-refines_memory out cs (redis_reset d r s v c)
