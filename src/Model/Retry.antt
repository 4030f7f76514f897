-- ===== src/Model/Retry.antt =====
-- The wait between two attempts, `RetryPolicy::backoff_ms` in src/model.rs.
use native.Mathlib.Decide.{dec_le}
use native.Mathlib.Nat.{pow-le-pow_right}
use lite_agentify.Prelude.{ℕ, zero, suc, ◌-◌, ◌*◌, ◌^◌, ◌≤◌, ◌<◌, ◌≡◌, min, arith}
use lite_agentify.Model.{RetryPolicy, backoff_ceiling, Jitter, backoff_ms, cap_delay_ms}

-- Past the 63rd attempt the shift stays at 2^63; the product has reached the maximum by then.
past-shift :
    (b a m : ℕ) → m ≤ 2 ^ 53 → 63 < a → min (min (b * 2 ^ 63) (2 ^ 64 - 1)) m ≡ min (b * 2 ^ a) m
past-shift zero a m h lt = omega arith
past-shift (suc b) a m h lt =
    let large : 2 ^ 63 ≤ 2 ^ a =
      pow-le-pow_right {n = 2} (omega arith) {i = 63} {j = a} (omega arith) in
    omega arith

-- For a maximal delay up to 2^53 ms, the saturating 64-bit arithmetic and the capped shift compute
-- the documented bound min(max_delay, base_delay * 2^attempt) at every attempt.
pub backoff_ceiling_exact :
    (p : RetryPolicy) (attempt : ℕ)
    → p.max_delay_ms ≤ 2 ^ 53
    → backoff_ceiling p attempt ≡ min (p.base_delay_ms * 2 ^ attempt) p.max_delay_ms
unfolding backoff_ceiling
backoff_ceiling_exact p attempt h = elim (dec_le attempt 63) [
  | yes small ↦ let e : min attempt 63 ≡ attempt = omega arith in rw e (omega arith)
  | no large ↦
      let e : min attempt 63 ≡ 63 = omega arith in
      rw e (past-shift p.base_delay_ms attempt p.max_delay_ms h (omega arith))
]

-- No wait, drawn or asked for by `Retry-After`, is longer than the maximal delay, and a drawn wait
-- is at most base_delay * 2^attempt.
pub backoff_bounds :
    (j : Jitter) (p : RetryPolicy) (attempt retry_after : ℕ) (f : j.Fraction)
    → p.max_delay_ms ≤ 2 ^ 53
    → (backoff_ms j p attempt f ≤ p.max_delay_ms)
      × (backoff_ms j p attempt f ≤ p.base_delay_ms * 2 ^ attempt)
      × (cap_delay_ms p retry_after ≤ p.max_delay_ms)
unfolding backoff_ms cap_delay_ms
backoff_bounds j p attempt retry_after f h =
    let e = backoff_ceiling_exact p attempt h in
    let drawn = j.scale-le (backoff_ceiling p attempt) f (omega arith) in
    (omega arith, omega arith, omega arith)
