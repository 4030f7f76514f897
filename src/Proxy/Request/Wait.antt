-- ===== src/Proxy/Request/Wait.antt =====
-- The wait before a retry, `backoff_delay` in src/proxy/router.rs.
use lite_agentify.Prelude.{
  ℕ, ◌*◌, ◌^◌, ◌≤◌, ◌≡◌, String, Option, some, min, arith, Option-cases, inl, inr,
}
use lite_agentify.Prelude.Int.{ℤ}
use lite_agentify.Prelude.Text.{trim}
use lite_agentify.Model.{RetryPolicy, Jitter, cap_delay_ms}
use lite_agentify.Model.Retry.{backoff_bounds}
use lite_agentify.Proxy.Request.{parse_u64, parse_retry_after_ms, backoff_delay}

-- Whatever an upstream asks for and whatever is drawn, the gateway waits at most for the maximal
-- delay, for a maximal delay up to 2^53 ms.
pub backoff_delay-bound :
    (j : Jitter) (until : String → Option ℤ) (retry : RetryPolicy) (attempt : ℕ)
    (header : Option String) (jitter : j.Fraction)
    → retry.max_delay_ms ≤ 2 ^ 53
    → backoff_delay j until retry attempt header jitter ≤ retry.max_delay_ms
unfolding backoff_delay
backoff_delay-bound j until retry attempt header jitter h =
    elim (Option-cases (parse_retry_after_ms until header)) [
      | inl drawn ↦ ground (arith, (backoff_bounds j retry attempt 0 jitter h).0)
      | inr (ms, asked) ↦ ground (arith, (backoff_bounds j retry attempt ms jitter h).2)
    ]

-- A number of seconds in `Retry-After` is obeyed up to the maximal delay, for a maximal delay up to
-- 2^53 ms: the saturating product never shows.
pub backoff_delay_obeys :
    (j : Jitter) (until : String → Option ℤ) (retry : RetryPolicy) (attempt seconds : ℕ)
    (text : String) (jitter : j.Fraction)
    → retry.max_delay_ms ≤ 2 ^ 53
    → parse_u64 (trim text) ≡ some seconds
    → backoff_delay j until retry attempt (some text) jitter
      ≡ min (seconds * 1000) retry.max_delay_ms
unfolding backoff_delay parse_retry_after_ms cap_delay_ms
backoff_delay_obeys j until retry attempt seconds text jitter h parsed = ground arith
