-- ===== src/Proxy/Attempt.antt =====
-- One deployment of the chain: the request to its provider and the retries in place
-- (`ProxyContext::attempt_provider` in src/proxy/router.rs).
pub mod Effects
pub mod Loop
use lite_agentify.Prelude.{
  ℕ, zero, suc, ◌+◌, String, Bool, not, ◌&&◌, Option, none, some, List, [], ◌∷◌, ◌++◌,
  if◌then◌else◌, leb, ltb, Result, ok, err,
}
use lite_agentify.Model.{Provider, RetryPolicy, is_retryable}
use lite_agentify.Account.{KeyIdentity}
use lite_agentify.State.{GatewayState}
use lite_agentify.Json.{Bytes}
use lite_agentify.Proxy.Headers.{HeaderMap, header_text, outbound_headers}
use lite_agentify.Proxy.Request.{
  UpstreamRequest, UpstreamResponse, RequestPayload, ProviderBody, body_for_deployment,
  upstream_uri, backoff_delay,
}
use lite_agentify.Proxy.Record.{
  Crates, UsageMetadata, World, Outside, Response, gateway_text, forward_upstream_response,
}

-- `StatusCode::is_server_error`.
abbrev pub is_server_error : ℕ → Bool
is_server_error status = leb 500 status && ltb status 600

-- What the loop does with an answer: give up on the provider, wait and retry, or forward.
pub data Verdict : Type 0 where
  fail_over wait_and_retry forward_it : Verdict

-- The tests of the loop body on a status, in their order.
unfoldable pub verdict : RetryPolicy → (attempt : ℕ) → (is_last : Bool) → ℕ → Verdict
unfolding is_retryable
verdict retry attempt is_last status =
    let retryable = is_retryable retry status in
    if is_server_error status && not retryable
    then fail_over
    else if retryable
    then (if leb retry.max_attempts (attempt + 1)
        then (if is_last then forward_it else fail_over)
        else wait_and_retry)
    else forward_it

module _ (x : Crates) (o : Outside x) where
  pub data ProviderAttempt : Type 0 where
    forward failover : Response x o → ProviderAttempt

  pub record ProxyContext : Type 0 where
    pub state : GatewayState x.decimal
    pub request_id : String
    pub path : String
    pub query : Option String
    pub method : String
    pub original_headers : HeaderMap x.header
    pub body : Bytes
    pub payload : RequestPayload x.json
    pub identity : KeyIdentity x.decimal

  -- A send is noted before its answer is known.
  abbrev pub sending : UpstreamRequest x.header → World x → World x
  sending request w = record w { sent = w.sent ++ (request ∷ []) }

  abbrev pub sleeping : ℕ → World x → World x
  sleeping ms w = record w { slept = w.slept ++ (ms ∷ []) }

  -- The `UsageMetadata` that `forward_upstream_response` fills in.
  abbrev pub metadata_of : ProxyContext → Provider → ProviderBody → ℕ → World x → UsageMetadata
  metadata_of c provider provider_body status w = record {
    request_id = c.request_id;
    provider_id = provider.id;
    protocol = provider.protocol;
    path = c.path;
    user_id = some c.identity.user_id;
    api_key_id = some c.identity.api_key_id;
    requested_model = provider_body.requested_model;
    upstream_model = provider_body.upstream_model;
    status = status;
    latency_ms = o.elapsed_ms w;
  }

  abbrev pub bad_gateway : ProviderAttempt
  bad_gateway = failover (gateway_text 502 "upstream request failed")

  abbrev pub forwarding :
      ProxyContext
      → Provider
      → ProviderBody
      → UpstreamResponse x.header o.Error
      → World x
      → ProviderAttempt × World x
  forwarding c provider provider_body upstream w =
      let (response, w') =
        forward_upstream_response x o c.state
          (metadata_of c provider provider_body upstream.status w) upstream w in
      (forward response, w')

  -- The `for attempt in 0..max_attempts` loop with the attempts that remain; `request` is what each
  -- of them sends.
  unfoldable pub attempt_loop :
      ProxyContext
      → Provider
      → ProviderBody
      → UpstreamRequest x.header
      → (is_last : Bool) → (remaining attempt : ℕ) → World x
      → ProviderAttempt × World x
  attempt_loop c provider provider_body request is_last zero attempt w = (bad_gateway, w)
  attempt_loop c provider provider_body request is_last (suc remaining) attempt w =
      let retry = c.state.retry_policy in
      let w1 = sending request w in
      elim (o.send w request) [
        | err e ↦ (bad_gateway, w1)
        | ok upstream ↦ elim (verdict retry attempt is_last upstream.status) [
          | fail_over ↦ (bad_gateway, w1)
          | forward_it ↦ forwarding c provider provider_body upstream w1
          | wait_and_retry ↦
              let delay =
                backoff_delay x.jitter (o.until w1) retry attempt
                  (header_text x.header upstream.headers "retry-after") (o.jitter_fraction w1) in
              attempt_loop c provider provider_body request is_last remaining (attempt + 1)
                (sleeping delay w1)
        ]
      ]

  -- The rest of `attempt_provider` once the body is rewritten.
  abbrev pub attempt_with :
      ProxyContext
      → Provider
      → ProviderBody
      → (is_last : Bool) → World x
      → ProviderAttempt × World x
  attempt_with c provider provider_body is_last w =
      elim (upstream_uri o.parse_uri provider c.path c.query) [
        | none ↦ (failover (gateway_text 502 "failed to build upstream URI"), w)
        | some uri ↦ elim (outbound_headers x.header c.original_headers provider) [
          | err e ↦ (failover (gateway_text 502 "failed to build outbound headers"), w)
          | ok headers ↦
              attempt_loop c provider provider_body
                (record {
                  method = c.method;
                  uri = uri;
                  headers = headers;
                  body = provider_body.body;
                })
                is_last c.state.retry_policy.max_attempts 0 w
        ]
      ]

  unfoldable pub attempt_provider :
      ProxyContext → Provider → String → (is_last : Bool) → World x → ProviderAttempt × World x
  unfolding attempt_loop
  attempt_provider c provider upstream_model is_last w =
      elim (body_for_deployment x.json c.body c.payload upstream_model) [
        | err e ↦ (forward (gateway_text 400 "failed to rewrite request body"), w)
        | ok provider_body ↦ attempt_with c provider provider_body is_last w
      ]
