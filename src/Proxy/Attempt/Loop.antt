-- ===== src/Proxy/Attempt/Loop.antt =====
-- What an attempt at one provider sends, `attempt_provider` in
-- src/proxy/router.rs.
use lite_agentify.Proxy.Attempt.Effects.{
  Effects, Effects-quiet, Effects-then, Effects-more, Effects-send, Effects-sleep,
}
use lite_agentify.Prelude.{
  ℕ, zero, suc, ◌+◌, ◌≤◌, ◌^◌, String, Bool, ◌≡◌, refl, some, ok, arith, Result-cases, Option-cases,
  Bool-cases, inl, inr, ◌⊎◌,
}
use lite_agentify.Model.{Provider}
use lite_agentify.State.{GatewayState}
use lite_agentify.Proxy.Headers.{outbound_headers}
use lite_agentify.Proxy.Request.{
  UpstreamRequest, UpstreamResponse, ProviderBody, body_for_deployment, upstream_uri,
}
use lite_agentify.Proxy.Request.Wait.{backoff_delay-bound}
use lite_agentify.Proxy.Record.{
  Crates, UsageMetadata, World, Outside, gateway_text, forward_upstream_response, to_bytes,
  is_streaming_response,
}
use lite_agentify.Proxy.Record.{record_usage}
use lite_agentify.Proxy.Attempt.{
  Verdict, fail_over, wait_and_retry, forward_it, verdict, ProviderAttempt, forward, failover,
  ProxyContext, sending, sleeping, bad_gateway, forwarding, attempt_loop, attempt_with,
  attempt_provider,
}

Verdict-cases : (v : Verdict) → (v ≡ fail_over) ⊎ (v ≡ forward_it) ⊎ (v ≡ wait_and_retry)
Verdict-cases fail_over = inl refl
Verdict-cases forward_it = inr (inl refl)
Verdict-cases wait_and_retry = inr (inr refl)

module _ (x : Crates) (o : Outside x) where
  forward_upstream_response-quiet :
      (s : GatewayState x.decimal) (m : UsageMetadata) (u : UpstreamResponse x.header o.Error)
      (w : World x)
      → ((forward_upstream_response x o s m u w).1.sent ≡ w.sent)
        × ((forward_upstream_response x o s m u w).1.slept ≡ w.slept)
  unfolding forward_upstream_response record_usage
  forward_upstream_response-quiet s m u w =
      elim (Bool-cases (is_streaming_response x o u.headers)) [
        | inl stream ↦ rw stream (refl, refl)
        | inr plain ↦ elim (Option-cases (to_bytes x o u.body)) [
          | inl broken ↦ rw (plain, broken) (refl, refl)
          | inr (bytes, read) ↦ rw (plain, read) (refl, refl)
        ]
      ]

  module _ (c : ProxyContext x o) (provider : Provider) (provider_body : ProviderBody)
      (is_last : Bool) (request : UpstreamRequest x.header)
      (small : c.state.retry_policy.max_delay_ms ≤ 2 ^ 53) where
    abbrev run : ℕ → ℕ → World x → ProviderAttempt x o × World x
    run remaining attempt w =
        attempt_loop x o c provider provider_body request is_last remaining attempt w

    -- Induction on the loop: it ends with no attempt left, gives up after a send, forwards after a
    -- send, or goes on after a send and a wait that the policy allows.
    pub attempt_loop-induction :
        (P : ℕ → World x → ProviderAttempt x o × World x → Type 0)
        → ((w : World x) → P 0 w (bad_gateway x o, w))
        → ((n : ℕ) (w : World x) → P (suc n) w (bad_gateway x o, sending x o request w))
        → ((n : ℕ) (w : World x) (u : UpstreamResponse x.header o.Error)
            → P (suc n) w (forwarding x o c provider provider_body u (sending x o request w)))
        → ((n ms : ℕ) (w : World x) (r : ProviderAttempt x o × World x)
            → ms ≤ c.state.retry_policy.max_delay_ms
            → P n (sleeping x o ms (sending x o request w)) r
            → P (suc n) w r)
        → (remaining attempt : ℕ) (w : World x) → P remaining w (run remaining attempt w)
    unfolding attempt_loop
    attempt_loop-induction P stop give_up answer again zero attempt w = stop w
    attempt_loop-induction P stop give_up answer again (suc n) attempt w =
        elim (Result-cases (o.send w request)) [
          | inr (e, failed) ↦ rw (attempt_loop, failed) (give_up n w)
          | inl (u, answered) ↦
              elim (Verdict-cases (verdict c.state.retry_policy attempt is_last u.status)) [
                | inl over ↦ rw (attempt_loop, answered, over) (give_up n w)
                | inr (inl forwards) ↦ rw (attempt_loop, answered, forwards) (answer n w u)
                | inr (inr waits) ↦
                    rw (attempt_loop, answered, waits)
                      (again n _ w _
                        (backoff_delay-bound x.jitter _ c.state.retry_policy attempt _ _ small)
                        (attempt_loop-induction P stop give_up answer again n (attempt + 1) _))
              ]
        ]

    attempt_loop-Effects :
        (IsGood : UpstreamRequest x.header → Type 0) (remaining attempt : ℕ) (w : World x)
        → IsGood request
        → Effects x IsGood remaining c.state.retry_policy.max_delay_ms w (run remaining attempt w).1
    attempt_loop-Effects IsGood remaining attempt w good =
        let delay = c.state.retry_policy.max_delay_ms in
        attempt_loop-induction (λ n w r. Effects x IsGood n delay w r.1)
          (λ w. Effects-quiet x IsGood delay w w refl refl)
          (λ n w.
            Effects-more x IsGood delay 1 (suc n) w _ (omega arith)
              (Effects-send x IsGood delay o request w good))
          (λ n w u.
            let quiet = forward_upstream_response-quiet c.state _ u (sending x o request w) in
            Effects-more x IsGood delay 1 (suc n) w _ (omega arith) (
              Effects-then x IsGood delay 1 0 w (sending x o request w) _
                (Effects-send x IsGood delay o request w good)
                (Effects-quiet x IsGood delay (sending x o request w) _ quiet.0 quiet.1)))
          (λ n ms w r h rest. Effects-more x IsGood delay (1 + n) (suc n) w r.1 (omega arith) (
            Effects-then x IsGood delay 1 n w (sending x o request w) r.1
              (Effects-send x IsGood delay o request w good)
              (Effects-more x IsGood delay (0 + n) n _ r.1 (omega arith) (
                Effects-then x IsGood delay 0 n (sending x o request w) _ r.1
                  (Effects-sleep x IsGood delay o ms (sending x o request w) h) rest))))
          remaining attempt w

  -- What is sent to a deployment: the client's method, the provider's URI, its headers, and the body
  -- rewritten to the deployment's model.
  pub record IsRequestTo (c : ProxyContext x o) (provider : Provider) (upstream_model : String)
      (q : UpstreamRequest x.header) : Type 0 where
    pub out : ProviderBody
    pub rewritten : body_for_deployment x.json c.body c.payload upstream_model ≡ ok out
    pub body_sent : q.body ≡ out.body
    pub headers_sent : outbound_headers x.header c.original_headers provider ≡ ok q.headers
    pub uri_sent : upstream_uri o.parse_uri provider c.path c.query ≡ some q.uri
    pub method_sent : q.method ≡ c.method

  -- An attempt answers without a send, or fails over without one, or runs the loop on a request
  -- made for its deployment.
  pub attempt_provider-cases :
      (c : ProxyContext x o) (provider : Provider) (upstream_model : String) (is_last : Bool)
      (w : World x) (P : ProviderAttempt x o × World x → Type 0)
      → ((text : String) → P (forward (gateway_text 400 text), w))
      → ((text : String) → P (failover (gateway_text 502 text), w))
      → ((out : ProviderBody) (q : UpstreamRequest x.header)
          → IsRequestTo c provider upstream_model q
          → P (attempt_loop x o c provider out q is_last c.state.retry_policy.max_attempts 0 w))
      → P (attempt_provider x o c provider upstream_model is_last w)
  unfolding attempt_provider
  attempt_provider-cases c provider upstream_model is_last w P refused failed ran =
      elim (Result-cases (body_for_deployment x.json c.body c.payload upstream_model)) [
        | inr (e, bad) ↦ rw (attempt_provider, bad) (refused _)
        | inl (out, written) ↦
            elim (Option-cases (upstream_uri o.parse_uri provider c.path c.query)) [
              | inl bad ↦ rw (attempt_provider, written, attempt_with, bad) (failed _)
              | inr (uri, built) ↦
                  elim (Result-cases (outbound_headers x.header c.original_headers provider)) [
                    | inr (e, bad) ↦
                        rw (attempt_provider, written, attempt_with, built, bad) (failed _)
                    | inl (headers, made) ↦
                        rw (attempt_provider, written, attempt_with, built, made)
                          (ran out _ (record {
                            out = out;
                            rewritten = written;
                            body_sent = refl;
                            headers_sent = made;
                            uri_sent = built;
                            method_sent = refl;
                          }))
                  ]
            ]
      ]

  -- An attempt at a provider sends at most `max_attempts` requests, all of them made for this
  -- deployment, and each wait between them is at most the maximal delay.
  pub attempt_provider-Effects :
      (c : ProxyContext x o) (provider : Provider) (upstream_model : String) (is_last : Bool)
      (w : World x)
      → c.state.retry_policy.max_delay_ms ≤ 2 ^ 53
      → Effects x
          (IsRequestTo c provider upstream_model)
          c.state.retry_policy.max_attempts
          c.state.retry_policy.max_delay_ms
          w
          (attempt_provider x o c provider upstream_model is_last w).1
  attempt_provider-Effects c provider upstream_model is_last w small =
      let good : UpstreamRequest x.header → Type 0 = IsRequestTo c provider upstream_model in
      let sends = c.state.retry_policy.max_attempts in
      let delay = c.state.retry_policy.max_delay_ms in
      let quiet =
        Effects-more x good delay 0 sends w w (omega arith)
          (Effects-quiet x good delay w w refl refl) in
      attempt_provider-cases c provider upstream_model is_last w
        (λ r. Effects x good sends delay w r.1) (λ text. quiet) (λ text. quiet)
        (λ out q made. attempt_loop-Effects c provider out is_last q small good sends 0 w made)
