-- ===== src/Proxy/Failover/Books.antt =====
-- What is recorded and charged for a request, `proxy` in src/proxy/router.rs.
use lite_agentify.Prelude.{
  ℕ, ◌^◌, ◌≤◌, String, Bool, true, false, ◌≡◌, refl, ap, ◌∙◌, Option, none, some, List, [], ◌∷◌,
  ◌++◌, is_empty, inl, inr, ◌⊎◌, Bool-cases, Option-cases, unwrap_or, subst,
}
use lite_agentify.Account.{KeyIdentity, Digest}
use lite_agentify.Quota.{Scope, get_spend}
use lite_agentify.Model.{Provider}
use lite_agentify.State.{GatewayState, ResolvedDeployment}
use lite_agentify.Proxy.Request.{UpstreamResponse, ProviderBody}
use lite_agentify.Proxy.Record.{
  Crates, UsageMetadata, UsageRecord, World, Outside, Response, gateway_text, gateway_json, whole,
  observed, to_bytes, is_streaming_response, forward_upstream_response,
}
use lite_agentify.Proxy.Record.Charge.{is_owner, spent_with, record_usage-charges}
use lite_agentify.Proxy.Attempt.{
  ProviderAttempt, forward, failover, ProxyContext, sending, sleeping, metadata_of, forwarding,
  attempt_provider,
}
use lite_agentify.Proxy.Attempt.Loop.{attempt_loop-induction, attempt_provider-cases}
use lite_agentify.Proxy.Failover.{Request, failover_loop, proxy}
use lite_agentify.Proxy.Failover.Refused.{Admitted, status_of, is_refusal, context_of, proxy-cases}
use lite_agentify.Proxy.Failover.Bounds.{ProviderAttempt-cases}

module _ (x : Crates) (o : Outside x) where
  -- The records and the spend counters are as they were.
  abbrev pub Untouched : World x → World x → Type 0
  Untouched w w' = (w'.records ≡ w.records) × (w'.spend_counter ≡ w.spend_counter)

  -- One record more, of this user, key and status, with its cost charged to the user and the key
  -- and to no other scope.
  abbrev pub RecordedOnce : KeyIdentity x.decimal → ℕ → World x → World x → Type 0
  RecordedOnce identity status w w' =
      (r : UsageRecord x) × (w'.records ≡ w.records ++ r ∷ [])
      × (r.user_id ≡ some identity.user_id)
      × (r.api_key_id ≡ some identity.api_key_id)
      × (r.status ≡ status)
      × ((scope : Scope)
          → get_spend x.decimal scope w'.spend_counter
            ≡ spent_with x r.estimated_cost (is_owner x r.user_id r.api_key_id scope)
                (get_spend x.decimal scope w.spend_counter))

  -- What an answer means for the books: the gateway's own answers leave them alone, a whole answer of
  -- an upstream is recorded once, and a stream carries the ids for the record at its end.
  abbrev pub Settles : KeyIdentity x.decimal → Response x o → World x → World x → Type 0
  Settles identity (gateway_text status text) w w' = Untouched w w'
  Settles identity (gateway_json status value) w w' = Untouched w w'
  Settles identity (whole status headers bytes) w w' = RecordedOnce identity status w w'
  Settles identity (observed status headers m body) w w' =
      Untouched w w'
      × (m.user_id ≡ some identity.user_id)
      × (m.api_key_id ≡ some identity.api_key_id)
      × (m.status ≡ status)

  -- A failure that is passed over is the gateway's own and leaves the books alone.
  abbrev SettlesAttempt : KeyIdentity x.decimal → ProviderAttempt x o → World x → World x → Type 0
  SettlesAttempt identity (forward response) w w' = Settles identity response w w'
  SettlesAttempt identity (failover (gateway_text status text)) w w' = Untouched w w'
  SettlesAttempt identity (failover (gateway_json status value)) w w' = true ≡ false
  SettlesAttempt identity (failover (whole status headers bytes)) w w' = true ≡ false
  SettlesAttempt identity (failover (observed status headers m body)) w w' = true ≡ false

  Untouched-trans : (a b c : World x) → Untouched a b → Untouched b c → Untouched a c
  Untouched-trans a b c h k = (k.0 ∙ h.0, k.1 ∙ h.1)

  Settles-after :
      (identity : KeyIdentity x.decimal) (response : Response x o) (w w' w'' : World x)
      → Untouched w w'
      → Settles identity response w' w''
      → Settles identity response w w''
  Settles-after identity (gateway_text status text) w w' w'' h k = Untouched-trans w w' w'' h k
  Settles-after identity (gateway_json status value) w w' w'' h k = Untouched-trans w w' w'' h k
  Settles-after identity (whole status headers bytes) w w' w'' h (r, rs, u, a, st, spent) = (
    r,
    rs ∙ ap (λ records. records ++ r ∷ []) h.0,
    u,
    a,
    st,
    λ scope.
        spent scope
        ∙ ap
            (λ counter.
              spent_with x r.estimated_cost (is_owner x r.user_id r.api_key_id scope)
                (get_spend x.decimal scope counter))
            h.1,
  )
  Settles-after identity (observed status headers m body) w w' w'' h k =
      (Untouched-trans w w' w'' h k.0, k.1, k.2, k.3)

  SettlesAttempt-after :
      (identity : KeyIdentity x.decimal) (attempt : ProviderAttempt x o) (w w' w'' : World x)
      → Untouched w w'
      → SettlesAttempt identity attempt w' w''
      → SettlesAttempt identity attempt w w''
  SettlesAttempt-after identity (forward response) w w' w'' h k =
      Settles-after identity response w w' w'' h k
  SettlesAttempt-after identity (failover (gateway_text status text)) w w' w'' h k =
      Untouched-trans w w' w'' h k
  SettlesAttempt-after identity (failover (gateway_json status value)) w w' w'' h k = k
  SettlesAttempt-after identity (failover (whole status headers bytes)) w w' w'' h k = k
  SettlesAttempt-after identity (failover (observed status headers m body)) w w' w'' h k = k

  forwarding-Settles :
      (c : ProxyContext x o) (provider : Provider) (out : ProviderBody)
      (u : UpstreamResponse x.header o.Error) (w : World x)
      → SettlesAttempt c.identity
          (forwarding x o c provider out u w).0
          w
          (forwarding x o c provider out u w).1
  unfolding forward_upstream_response
  forwarding-Settles c provider out u w =
      let m : UsageMetadata = metadata_of x o c provider out u.status w in
      elim (Bool-cases (is_streaming_response x o u.headers)) [
        | inl stream ↦ rw (forward_upstream_response, stream) ((refl, refl), refl, refl, refl)
        | inr plain ↦ elim (Option-cases (to_bytes x o u.body)) [
          | inl broken ↦ rw (forward_upstream_response, plain, broken) (refl, refl)
          | inr (bytes, read) ↦
              let (r, records, spent, user_id, api_key_id, provider_id, model, status) =
                record_usage-charges x o c.state m _ _ w in
              rw (forward_upstream_response, plain, read)
                (r, records, user_id, api_key_id, status, spent)
        ]
      ]

  attempt_provider-Settles :
      (c : ProxyContext x o) (provider : Provider) (upstream_model : String) (is_last : Bool)
      (w : World x)
      → c.state.retry_policy.max_delay_ms ≤ 2 ^ 53
      → SettlesAttempt c.identity
          (attempt_provider x o c provider upstream_model is_last w).0
          w
          (attempt_provider x o c provider upstream_model is_last w).1
  attempt_provider-Settles c provider upstream_model is_last w small =
      attempt_provider-cases x o c provider upstream_model is_last w
        (λ p. SettlesAttempt c.identity p.0 w p.1) (λ text. (refl, refl)) (λ text. (refl, refl))
        (λ out q made.
          attempt_loop-induction x o c provider out is_last q small
            (λ n w p. SettlesAttempt c.identity p.0 w p.1) (λ w. (refl, refl)) (λ n w. (refl, refl))
            (λ n w u.
              SettlesAttempt-after c.identity (forwarding x o c provider out u (sending x o q w)).0
                w (sending x o q w) (forwarding x o c provider out u (sending x o q w)).1
                (refl, refl) (forwarding-Settles c provider out u (sending x o q w)))
            (λ n ms w p h rest.
              SettlesAttempt-after c.identity p.0 w (sleeping x o ms (sending x o q w)) p.1
                (refl, refl) rest)
            c.state.retry_policy.max_attempts 0 w)

  -- No failure yet, or one of the gateway's own.
  abbrev IsFailure : Option (Response x o) → Type 0
  IsFailure none = Unit
  IsFailure (some (gateway_text status text)) = Unit
  IsFailure (some (gateway_json status value)) = true ≡ false
  IsFailure (some (whole status headers bytes)) = true ≡ false
  IsFailure (some (observed status headers m body)) = true ≡ false

  failure-Settles :
      (identity : KeyIdentity x.decimal) (last : Option (Response x o)) (w w' : World x)
      → IsFailure last
      → Untouched w w'
      → Settles identity (unwrap_or last (gateway_text 502 "upstream request failed")) w w'
  failure-Settles identity none w w' h k = k
  failure-Settles identity (some (gateway_text status text)) w w' h k = k
  failure-Settles identity (some (gateway_json status value)) w w' h k = cc
  failure-Settles identity (some (whole status headers bytes)) w w' h k = cc
  failure-Settles identity (some (observed status headers m body)) w w' h k = cc

  passed-over :
      (identity : KeyIdentity x.decimal) (response : Response x o) (w w' : World x)
      → SettlesAttempt identity (failover response) w w'
      → IsFailure (some response) × Untouched w w'
  passed-over identity (gateway_text status text) w w' h = (tt, h)
  passed-over identity (gateway_json status value) w w' h = cc
  passed-over identity (whole status headers bytes) w w' h = cc
  passed-over identity (observed status headers m body) w w' h = cc

  failover_loop-Settles :
      (c : ProxyContext x o) (hops : List ResolvedDeployment) (last : Option (Response x o))
      (w0 w : World x)
      → c.state.retry_policy.max_delay_ms ≤ 2 ^ 53
      → IsFailure last
      → Untouched w0 w
      → Settles c.identity
          (failover_loop x o c hops last w).0
          w0
          (failover_loop x o c hops last w).1
  unfolding failover_loop
  failover_loop-Settles c [] last w0 w small h k = failure-Settles c.identity last w0 w h k
  failover_loop-Settles c (hop ∷ hops) last w0 w small h k =
      let last_one = is_empty hops in
      let a : ProviderAttempt x o × World x =
        attempt_provider x o c hop.provider hop.upstream_model last_one w in
      let settled = attempt_provider-Settles c hop.provider hop.upstream_model last_one w small in
      elim (ProviderAttempt-cases x o a.0) [
        | inl (response, e) ↦
            rw (failover_loop, e)
              (Settles-after c.identity response w0 w a.1 k
                (subst (λ p. SettlesAttempt c.identity p w a.1) e settled))
        | inr (response, e) ↦
            let (failure, same) =
              passed-over c.identity response w a.1
                (subst (λ p. SettlesAttempt c.identity p w a.1) e settled) in
            rw (failover_loop, e)
              (failover_loop-Settles c hops (some response) w0 a.1 small failure
                (Untouched-trans w0 w a.1 k same))
      ]

  -- A request is recorded exactly once, and charged to its user and its key exactly what the record
  -- says, if its answer is a whole answer of an upstream, however many deployments failed before;
  -- an answer of the gateway itself, a refusal or a failed chain, leaves the records and all spend
  -- counters as they were; a stream that begins carries the user, the key and the status for the
  -- record at its end. The maximal delay is up to 2^53 ms.
  pub proxy-Settles :
      (hash : String → Digest) (show : x.decimal.Decimal → String) (s : GatewayState x.decimal)
      (r : Request x o) (w : World x) (response : Response x o) (w' : World x)
      → s.retry_policy.max_delay_ms ≤ 2 ^ 53
      → proxy x o hash show s r w ≡ some (response, w')
      → ((is_refusal x o (status_of x o response) ≡ true) × (w' ≡ w))
        ⊎ ((a : Admitted x o hash s r w) × Settles a.identity response w w')
  proxy-Settles hash show s r w response w' small e =
      proxy-cases x o
        (λ p.
          ((is_refusal x o (status_of x o p.0) ≡ true) × (p.1 ≡ w))
          ⊎ ((a : Admitted x o hash s r w) × Settles a.identity p.0 w p.1))
        w (λ refusal status. inl (status, refl)) hash show s r
        (λ a. inr (
          a,
          failover_loop-Settles (context_of x o hash s r w a) a.hops none w w small tt (refl, refl),
        ))
        (response, w') e
