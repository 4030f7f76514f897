-- ===== src/Proxy/Record.antt =====
-- What the gateway notes of a request that it forwarded (src/proxy/router.rs, src/usage/record.rs),
-- and the answer that the client gets (`forward_upstream_response`).
pub mod Charge
pub mod Stream
use lite_agentify.Prelude.{
  ℕ, zero, suc, String, Bool, true, false, Option, none, some, List, [], ◌∷◌, ◌++◌, is_some,
  unwrap_or, and_then, if◌then◌else◌, Result, ok, err, string_eq,
}
use lite_agentify.Prelude.Int.{ℤ}
use lite_agentify.Prelude.Map.{get}
use lite_agentify.Prelude.Text.{contains_lower}
use lite_agentify.Domain.{TokenUsage, default_usage, ensure_total}
use lite_agentify.Model.{Protocol, Provider, Uuid, DateTime, Jitter}
use lite_agentify.Decimal.{DecimalOps}
use lite_agentify.Pricing.{calculate_cost}
use lite_agentify.Quota.{Scope, MemoryCounter, add_spend}
use lite_agentify.Build.{UriParser}
use lite_agentify.State.{GatewayState}
use lite_agentify.Json.{Bytes, JsonOps}
use lite_agentify.Usage.{
  UsageSource, provider_response, stream_summary, unavailable, UsageObserver, new_observer, feed,
  finish, parse_non_streaming_usage,
}
use lite_agentify.Proxy.Headers.{HeaderOps, HeaderMap, header_text, forward_headers}
use lite_agentify.Proxy.Request.{UpstreamRequest, UpstreamResponse, ProviderBody}

-- The crates that the proxy calls.
pub record Crates : Type 1 where
  pub decimal : DecimalOps
  pub header : HeaderOps
  pub json : JsonOps
  pub jitter : Jitter

pub record UsageMetadata : Type 0 where
  pub request_id : String
  pub provider_id : String
  pub protocol : Protocol
  pub path : String
  pub user_id : Option Uuid
  pub api_key_id : Option Uuid
  pub requested_model : Option String
  pub upstream_model : Option String
  pub status : ℕ
  pub latency_ms : ℤ

module _ (x : Crates) where
  pub record UsageRecord : Type 0 where
    pub request_id : String
    pub created_at : DateTime
    pub provider_id : String
    pub protocol : Protocol
    pub path : String
    pub user_id : Option Uuid
    pub api_key_id : Option Uuid
    pub requested_model : Option String
    pub upstream_model : Option String
    pub status : ℕ
    pub latency_ms : ℤ
    pub input_tokens : Option ℤ
    pub output_tokens : Option ℤ
    pub cached_input_tokens : Option ℤ
    pub cache_read_tokens : Option ℤ
    pub cache_write_tokens : Option ℤ
    pub total_tokens : Option ℤ
    pub estimated_cost : Option x.decimal.Decimal
    pub currency : Option String
    pub usage_source : UsageSource
    pub pricing_source : Option String

  -- What a request changes: the spend counter, the records given to the recorder, and, in their
  -- order, the requests to upstreams and the waits in milliseconds.
  pub record World : Type 0 where
    pub spend_counter : MemoryCounter x.decimal
    pub records : List UsageRecord
    pub sent : List (UpstreamRequest x.header)
    pub slept : List ℕ

  -- What lies outside: the upstreams, the clock, the random numbers and the parser of URIs, each
  -- free to depend on all that happened before.
  pub record Outside : Type 1 where
    pub Error : Type 0
    pub send : World → UpstreamRequest x.header → Result Error (UpstreamResponse x.header Error)
    pub now : World → DateTime
    pub elapsed_ms : World → ℤ
    pub until : World → String → Option ℤ
    pub jitter_fraction : World → x.jitter.Fraction
    pub new_id : World → String
    pub parse_uri : UriParser

  -- The cost on a scope that is known.
  abbrev pub charge :
      (Uuid → Scope)
      → Option Uuid
      → x.decimal.Decimal
      → MemoryCounter x.decimal
      → MemoryCounter x.decimal
  charge scope none cost counter = counter
  charge scope (some id) cost counter = add_spend x.decimal (scope id) cost counter

  -- The `if let Some(cost)` of `record_usage`.
  unfoldable pub charge_scopes :
      Option x.decimal.Decimal → UsageMetadata → MemoryCounter x.decimal → MemoryCounter x.decimal
  charge_scopes none m counter = counter
  charge_scopes (some cost) m counter =
      charge Scope.key m.api_key_id cost (charge Scope.user m.user_id cost counter)

  -- The cost, currency and pricing source of a record.
  abbrev pub Cost : Type 0
  Cost = Option x.decimal.Decimal × Option String × Option String

  abbrev pub cost_columns : Option (x.decimal.Decimal × String × Option String) → Cost
  cost_columns none = (none, none, none)
  cost_columns (some (cost, currency, pricing_source)) = (some cost, some currency, pricing_source)

  abbrev pub record_of : UsageMetadata → DateTime → UsageSource → TokenUsage → Cost → UsageRecord
  record_of m now source u (cost, currency, pricing_source) = record {
    request_id = m.request_id;
    created_at = now;
    provider_id = m.provider_id;
    protocol = m.protocol;
    path = m.path;
    user_id = m.user_id;
    api_key_id = m.api_key_id;
    requested_model = m.requested_model;
    upstream_model = m.upstream_model;
    status = m.status;
    latency_ms = m.latency_ms;
    input_tokens = u.input_tokens;
    output_tokens = u.output_tokens;
    cached_input_tokens = u.cached_input_tokens;
    cache_read_tokens = u.cache_read_tokens;
    cache_write_tokens = u.cache_write_tokens;
    total_tokens = u.total_tokens;
    estimated_cost = cost;
    currency = currency;
    usage_source = source;
    pricing_source = pricing_source;
  }

  module _ (o : Outside) where
    unfoldable pub record_usage :
        GatewayState x.decimal → UsageMetadata → UsageSource → Option TokenUsage → World → World
    unfolding charge_scopes
    record_usage s m source usage w =
        let usage_source = if is_some usage then source else unavailable in
        let u = ensure_total (unwrap_or usage default_usage) in
        let cost =
          cost_columns (calculate_cost x.decimal s.pricing m.provider_id m.upstream_model u) in
        record w {
          spend_counter = charge_scopes cost.0 m w.spend_counter;
          records = w.records ++ (record_of m (o.now w) usage_source u cost ∷ []);
        }

    abbrev pub Body : Type 0
    Body = List (Result o.Error Bytes)

    -- The stream of `usage_observed_stream` when the client asks for `polls` items: what it yields
    -- and what it leaves. A client that stops asking drops the stream.
    unfoldable pub observed_stream :
        GatewayState x.decimal → UsageMetadata → ℕ → Body → UsageObserver → World → Body × World
    observed_stream s m zero body observer w = ([], w)
    observed_stream s m (suc polls) [] observer w =
        ([], record_usage s m stream_summary (finish x.json observer) w)
    observed_stream s m (suc polls) (ok bytes ∷ body) observer w =
        let (yielded, w') = observed_stream s m polls body (feed x.json bytes observer) w in
        (ok bytes ∷ yielded, w')
    observed_stream s m (suc polls) (err e ∷ body) observer w = (err e ∷ [], w)

    unfoldable pub usage_observed_stream :
        GatewayState x.decimal → UsageMetadata → ℕ → Body → World → Body × World
    usage_observed_stream s m polls body w =
        observed_stream s m polls body (new_observer m.protocol) w

    -- `to_bytes` with no limit: all chunks, or the error of the one that fails.
    unfoldable pub to_bytes : Body → Option Bytes
    to_bytes [] = some []
    to_bytes (ok bytes ∷ body) = and_then (to_bytes body) (λ rest. some (bytes ++ rest))
    to_bytes (err e ∷ body) = none

    unfoldable pub is_streaming_response : HeaderMap x.header → Bool
    is_streaming_response headers = elim (header_text x.header headers "content-type") [
      | none ↦ false
      | some value ↦ contains_lower "text/event-stream" value
    ]

    -- The client's answer: one of the gateway's own with its text or JSON, or one that comes from
    -- an upstream, whole or as an observed stream.
    pub data Response : Type 0 where
      gateway_text : ℕ → String → Response
      gateway_json : ℕ → x.json.Value → Response
      whole : ℕ → HeaderMap x.header → Bytes → Response
      observed : ℕ → HeaderMap x.header → UsageMetadata → Body → Response

    -- The end of `forward_upstream_response` for a body that is no stream.
    abbrev pub forward_whole :
        GatewayState x.decimal
        → UsageMetadata
        → UpstreamResponse x.header o.Error
        → Option Bytes
        → World
        → Response × World
    forward_whole s m upstream none w = (gateway_text 502 "failed to read upstream response", w)
    forward_whole s m upstream (some bytes) w = (
      whole upstream.status (forward_headers x.header upstream.headers) bytes,
      record_usage s m provider_response (parse_non_streaming_usage x.json m.protocol bytes) w,
    )

    unfoldable pub forward_upstream_response :
        GatewayState x.decimal
        → UsageMetadata
        → UpstreamResponse x.header o.Error
        → World
        → Response × World
    forward_upstream_response s m upstream w =
        if is_streaming_response upstream.headers
        then (
          observed upstream.status (forward_headers x.header upstream.headers) m upstream.body,
          w,
        )
        else forward_whole s m upstream (to_bytes upstream.body) w
