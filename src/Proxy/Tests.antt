-- ===== src/Proxy/Tests.antt =====
-- Runs and instances for src/proxy: a request that is rate-limited once and then answered.
use lite_agentify.Prelude.{
  and_then, bytes_eq, ℕ, ◌≡◌, refl, String, Option, none, some, List, [], ◌∷◌, Result, ok, err, ◌⊎◌,
  ◌≢◌, ◌<◌, ◌≤◌, length, ◌*◌, arith, true, false,
}
use lite_agentify.Prelude.Int.{ℤ, pos}
use lite_agentify.Model.{open_ai}
use lite_agentify.Usage.{provider_response, stream_summary}
use lite_agentify.Quota.{Scope}
use lite_agentify.Proxy.Record.{World, Response, whole, UsageRecord, UsageMetadata}
use lite_agentify.Proxy.Request.{UpstreamRequest}
use lite_agentify.Proxy.Attempt.Effects.{Effects}
use lite_agentify.Proxy.Failover.{proxy}
use lite_agentify.Proxy.Failover.Refused.{Admitted, context_of, is_refusal}
use lite_agentify.Proxy.Failover.Bounds.{IsForOne, proxy-bounded}
use lite_agentify.Proxy.Failover.Books.{Settles, proxy-Settles}
use lite_agentify.Prelude.{◌==◌, string_eq, if◌then◌else◌, ne_of_beq}
use lite_agentify.Prelude.Text.{trim}
use lite_agentify.Decimal.{fixed}
use lite_agentify.Quota.{get_spend}
use lite_agentify.Usage.Chunks.{usages, lines_of, summary}
use lite_agentify.Proxy.Headers.{header_text, outbound_headers}
use lite_agentify.Proxy.Headers.Outbound.{outbound_text, outbound_headers-exact}
use lite_agentify.Proxy.Request.{parse_payload, body_for_deployment, backoff_delay, parse_u64}
use lite_agentify.Proxy.Request.Rewrite.{Carries, body_for_deployment-fields}
use lite_agentify.Proxy.Request.Wait.{backoff_delay-bound, backoff_delay_obeys}
use lite_agentify.Proxy.Record.{record_usage, usage_observed_stream}
use lite_agentify.Proxy.Record.Charge.{is_owner, spent_with, record_usage-charges}
use lite_agentify.Proxy.Record.Stream.{unbroken, usage_observed_stream-exact}
use lite_agentify.Samples.{
  sample_jitter, sample_json_laws, sample_header_laws, sample_crates, sample_header, sample_json,
}
use lite_agentify.Samples.Gateway.{claude, limited_once, digest, open_gateway, chat, idle, noted}

abbrev show : ℤ → String
show z = "n"

abbrev answer : Response sample_crates limited_once
answer = whole 200 (("x-id", "y") ∷ []) (3 ∷ [])

abbrev sent_request : UpstreamRequest sample_header
sent_request = record {
  method = "POST";
  uri = "https://fast/v1/chat/completions";
  headers = ("accept", "json") ∷ ("authorization", "Bearer k1") ∷ [];
  body = 2 ∷ [];
}

-- Two sends with the wait that the provider asked for between them, one record, both scopes charged.
abbrev after : World sample_crates
after = record {
  spend_counter = (Scope.user 1, pos 22) ∷ (Scope.key 2, pos 22) ∷ [];
  records = noted ∷ [];
  sent = sent_request ∷ sent_request ∷ [];
  slept = 2000 ∷ [];
}

answered :
    proxy sample_crates limited_once digest show open_gateway chat idle ≡ some (answer, after)
unfolding proxy lite_agentify.Model.protocol_of lite_agentify.State.authorize
    lite_agentify.State.gateway_key_candidates lite_agentify.Prelude.Map.get
    lite_agentify.Prelude.Text.strip_prefix lite_agentify.State.check_quota
    lite_agentify.Quota.get_spend lite_agentify.Proxy.Record.to_bytes
    lite_agentify.Proxy.Request.parse_payload lite_agentify.Samples.get_object_key
    lite_agentify.State.resolve lite_agentify.Account.may_call lite_agentify.State.walk_deployments
    lite_agentify.Proxy.Attempt.attempt_provider lite_agentify.Proxy.Request.body_for_deployment
    lite_agentify.Samples.to_bytes_of lite_agentify.Domain.ensure_total
    lite_agentify.Domain.has_tokens lite_agentify.Domain.sum_from
    lite_agentify.Model.backoff_ceiling lite_agentify.Model.backoff_ms
    lite_agentify.Model.cap_delay_ms lite_agentify.Model.is_retryable
    lite_agentify.Prelude.Int.saturating_sub lite_agentify.Prelude.Int.wrap_i64
    lite_agentify.Prelude.Int.◌+ℤ◌ lite_agentify.Prelude.Int.◌-ℤ◌ lite_agentify.Prelude.Map.insert
    lite_agentify.Prelude.Text.contains_lower lite_agentify.Prelude.Text.starts_lower
    lite_agentify.Prelude.Text.trim lite_agentify.Prelude.Text.trim_end
    lite_agentify.Prelude.Text.trim_start lite_agentify.Pricing.add_class
    lite_agentify.Pricing.calculate_cost lite_agentify.Pricing.cost_at
    lite_agentify.Pricing.cost_with lite_agentify.Pricing.lookup_pricing
    lite_agentify.Pricing.token_cost lite_agentify.Proxy.Attempt.attempt_loop
    lite_agentify.Proxy.Attempt.verdict lite_agentify.Proxy.Failover.failover_loop
    lite_agentify.Proxy.Failover.families lite_agentify.Proxy.Failover.follow_resolution
    lite_agentify.Proxy.Failover.gate_quota lite_agentify.Proxy.Failover.join_protocols
    lite_agentify.Proxy.Failover.protocol_error lite_agentify.Proxy.Failover.serve
    lite_agentify.Proxy.Failover.serve_body lite_agentify.Proxy.Headers.anthropic_headers
    lite_agentify.Proxy.Headers.copy_forwardable lite_agentify.Proxy.Headers.forward_headers
    lite_agentify.Proxy.Headers.is_request_header_forwardable
    lite_agentify.Proxy.Headers.is_response_header_forwardable
    lite_agentify.Proxy.Headers.outbound_headers lite_agentify.Proxy.Record.charge_scopes
    lite_agentify.Proxy.Record.forward_upstream_response
    lite_agentify.Proxy.Record.is_streaming_response lite_agentify.Proxy.Record.record_usage
    lite_agentify.Proxy.Request.backoff_delay lite_agentify.Proxy.Request.parse_digits
    lite_agentify.Proxy.Request.parse_retry_after_ms lite_agentify.Proxy.Request.parse_u64
    lite_agentify.Proxy.Request.upstream_uri lite_agentify.Proxy.Request.uri_text
    lite_agentify.Quota.add_spend lite_agentify.Samples.lookup lite_agentify.Usage.number
    lite_agentify.Usage.parse_anthropic_usage lite_agentify.Usage.parse_non_streaming_usage
    lite_agentify.Usage.parse_openai_usage lite_agentify.Samples.set_key
answered = refl

proxy-bounded_example :
    ((is_refusal sample_crates limited_once 200 ≡ true) × (after ≡ idle))
    ⊎ ((a : Admitted sample_crates limited_once digest open_gateway chat idle) × Effects
          sample_crates
          (IsForOne sample_crates limited_once
            (context_of sample_crates limited_once digest open_gateway chat idle a)
            a.hops)
          (length a.hops * 4)
          8000
          idle
          after)
proxy-bounded_example =
    proxy-bounded sample_crates limited_once digest show open_gateway chat idle answer after
      (omega arith) answered

proxy-Settles_example :
    ((is_refusal sample_crates limited_once 200 ≡ true) × (after ≡ idle))
    ⊎ ((a : Admitted sample_crates limited_once digest open_gateway chat idle) × Settles
          sample_crates limited_once a.identity answer idle after)
proxy-Settles_example =
    proxy-Settles sample_crates limited_once digest show open_gateway chat idle answer after
      (omega arith) answered

abbrev sample_metadata : UsageMetadata
sample_metadata = record {
  request_id = "id";
  provider_id = "fast";
  protocol = open_ai;
  path = "/v1/chat/completions";
  user_id = some 1;
  api_key_id = some 2;
  requested_model = some "small";
  upstream_model = some "gpt";
  status = 200;
  latency_ms = pos 5;
}

small_named : (parse_payload sample_json (1 ∷ [])).model ≡ some "small"
unfolding parse_payload lite_agentify.Samples.get_object_key
small_named = refl

rewritten_once :
    body_for_deployment sample_json (1 ∷ []) (parse_payload sample_json (1 ∷ [])) "gpt"
    ≡ ok (record { body = 2 ∷ []; requested_model = some "small"; upstream_model = some "gpt" })
unfolding body_for_deployment parse_payload lite_agentify.Samples.get_object_key
    lite_agentify.Samples.to_bytes_of lite_agentify.Samples.set_key
rewritten_once = refl

abbrev claude_headers : List (String × String)
claude_headers =
    ("accept", "json")
    ∷ ("authorization", "Bearer k2")
    ∷ ("x-api-key", "k2")
    ∷ ("anthropic-version", "2023-06-01")
    ∷ []

claude_headers_built : outbound_headers sample_header chat.headers claude ≡ ok claude_headers
unfolding outbound_headers lite_agentify.Prelude.Map.insert
    lite_agentify.Proxy.Headers.is_request_header_forwardable
    lite_agentify.Prelude.Text.strip_prefix
claude_headers_built = refl

two_seconds : parse_u64 (trim " 2") ≡ some 2
unfolding parse_u64 trim
two_seconds = refl

-- One line in two chunks, read to its end.
usage_observed_stream-exact_example :
    usage_observed_stream sample_crates limited_once open_gateway sample_metadata 3
      (unbroken sample_crates limited_once ((4 ∷ []) ∷ (b'\n' ∷ []) ∷ []))
      idle
    ≡ (
      unbroken sample_crates limited_once ((4 ∷ []) ∷ (b'\n' ∷ []) ∷ []),
      record_usage sample_crates limited_once open_gateway sample_metadata stream_summary
          (summary sample_json (usages sample_json open_ai (lines_of sample_json (4 ∷ b'\n' ∷ []))))
          idle,
    )
usage_observed_stream-exact_example =
    usage_observed_stream-exact sample_crates limited_once open_gateway sample_metadata 3
      ((4 ∷ []) ∷ (b'\n' ∷ []) ∷ []) idle

record_usage-charges_example :
    (r : UsageRecord sample_crates) × ((record_usage sample_crates limited_once open_gateway
        sample_metadata stream_summary none idle).records
      ≡ r ∷ [])
    × ((scope : Scope)
        → get_spend fixed scope
            (record_usage sample_crates limited_once open_gateway sample_metadata stream_summary
              none idle).spend_counter
          ≡ spent_with sample_crates r.estimated_cost
              (is_owner sample_crates r.user_id r.api_key_id scope)
              (get_spend fixed scope idle.spend_counter))
    × (r.user_id ≡ some 1)
    × (r.api_key_id ≡ some 2)
    × (r.provider_id ≡ "fast")
    × (r.upstream_model ≡ some "gpt")
    × (r.status ≡ 200)
record_usage-charges_example =
    record_usage-charges sample_crates limited_once open_gateway sample_metadata stream_summary none
      idle

body_for_deployment-fields_example :
    (value : sample_json.Value) × (sent : sample_json.Value) × (sample_json.from_slice (1 ∷ [])
      ≡ some value)
    × (and_then (sample_json.get_key sent "model") sample_json.as_str ≡ some "gpt")
    × (sample_json.get_key sent "stream" ≡ sample_json.get_key value "stream")
    × Carries sample_json sample_json_laws "small" "gpt" (1 ∷ []) value sent (2 ∷ [])
body_for_deployment-fields_example =
    body_for_deployment-fields sample_json sample_json_laws (1 ∷ []) "small" "gpt" "stream"
      (record { body = 2 ∷ []; requested_model = some "small"; upstream_model = some "gpt" })
      (ne_of_beq "stream" "model" refl) small_named rewritten_once

outbound_headers-exact_example :
    header_text sample_header claude_headers "cookie"
    ≡ outbound_text sample_header chat.headers claude "cookie"
outbound_headers-exact_example =
    outbound_headers-exact sample_header sample_header_laws chat.headers claude claude_headers
      "cookie" claude_headers_built

backoff_delay-bound_example :
    backoff_delay sample_jitter (λ s. none) open_gateway.retry_policy 2 (some "60") true ≤ 8000
backoff_delay-bound_example =
    backoff_delay-bound sample_jitter (λ s. none) open_gateway.retry_policy 2 (some "60") true
      (omega arith)

backoff_delay_obeys_example :
    backoff_delay sample_jitter (λ s. none) open_gateway.retry_policy 0 (some " 2") true ≡ 2000
backoff_delay_obeys_example =
    backoff_delay_obeys sample_jitter (λ s. none) open_gateway.retry_policy 0 2 " 2" true
      (omega arith) two_seconds
