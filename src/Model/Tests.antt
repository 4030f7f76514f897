-- ===== src/Model/Tests.antt =====
-- Runs and instances for src/model.rs.
use lite_agentify.Prelude.{◌≡◌, ◌≤◌, true, arith, ◌*◌, ◌^◌, min}
use lite_agentify.Model.{backoff_ceiling, backoff_ms, cap_delay_ms}
use lite_agentify.Model.Retry.{backoff_ceiling_exact, backoff_bounds}
use lite_agentify.Samples.{sample_jitter}
use lite_agentify.Samples.Gateway.{built}

backoff_ceiling_exact_example : backoff_ceiling built.retry_policy 2 ≡ min (1000 * 2 ^ 2) 8000
backoff_ceiling_exact_example = backoff_ceiling_exact built.retry_policy 2 (omega arith)

backoff_bounds_example :
    (backoff_ms sample_jitter built.retry_policy 2 true ≤ 8000)
    × (backoff_ms sample_jitter built.retry_policy 2 true ≤ 1000 * 2 ^ 2)
    × (cap_delay_ms built.retry_policy 60000 ≤ 8000)
backoff_bounds_example = backoff_bounds sample_jitter built.retry_policy 2 60000 true (omega arith)
