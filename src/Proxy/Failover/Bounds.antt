-- ===== src/Proxy/Failover/Bounds.antt =====
-- How much a request may cost the providers, `proxy` in src/proxy/router.rs.
use lite_agentify.Prelude.{
  ℕ, suc, ◌+◌, ◌*◌, ◌≤◌, ◌^◌, String, true, false, ◌≡◌, refl, Option, none, some, List, [], ◌∷◌,
  ◌⊎◌, inl, inr, length, arith, is_empty,
}
use lite_agentify.Account.{Digest}
use lite_agentify.State.{GatewayState, ResolvedDeployment}
use lite_agentify.Proxy.Request.{UpstreamRequest}
use lite_agentify.Proxy.Record.{Crates, World, Outside, Response, gateway_text}
use lite_agentify.Proxy.Attempt.{ProviderAttempt, forward, failover, ProxyContext, attempt_provider}
use lite_agentify.Proxy.Attempt.Effects.{
  Effects, Effects-quiet, Effects-then, Effects-more, Effects-good,
}
use lite_agentify.Proxy.Attempt.Loop.{IsRequestTo, attempt_provider-Effects}
use lite_agentify.Proxy.Failover.{Request, failover_loop, proxy}
use lite_agentify.Proxy.Failover.Refused.{status_of, is_refusal, Admitted, context_of, proxy-cases}

-- It ends at once, or goes on with a failure in hand.
pub ProviderAttempt-cases :
    (x : Crates) (o : Outside x) (a : ProviderAttempt x o)
    → ((r : Response x o) × (a ≡ forward r)) ⊎ ((r : Response x o) × (a ≡ failover r))
ProviderAttempt-cases x o (forward r) = inl (r, refl)
ProviderAttempt-cases x o (failover r) = inr (r, refl)

module _ (x : Crates) (o : Outside x) where
  -- The request was made for a deployment of the chain.
  abbrev pub IsForOne :
      ProxyContext x o → List ResolvedDeployment → UpstreamRequest x.header → Type 0
  IsForOne c [] q = true ≡ false
  IsForOne c (hop ∷ hops) q =
      IsRequestTo x o c hop.provider hop.upstream_model q ⊎ IsForOne c hops q

  -- Induction on the chain: it is used up, or an attempt answers, or an attempt fails over.
  pub failover_loop-induction :
      (c : ProxyContext x o)
      (P : List ResolvedDeployment → World x → Response x o × World x → Type 0)
      → ((w : World x) (last : Response x o) → P [] w (last, w))
      → ((hop : ResolvedDeployment) (hops : List ResolvedDeployment) (w : World x)
            (response : Response x o)
          → (attempt_provider x o c hop.provider hop.upstream_model (is_empty hops) w).0
            ≡ forward response
          → P (hop ∷ hops) w (
            response,
            (attempt_provider x o c hop.provider hop.upstream_model (is_empty hops) w).1,
          ))
      → ((hop : ResolvedDeployment) (hops : List ResolvedDeployment) (w : World x)
            (response : Response x o) (end : Response x o × World x)
          → (attempt_provider x o c hop.provider hop.upstream_model (is_empty hops) w).0
            ≡ failover response
          → P hops (attempt_provider x o c hop.provider hop.upstream_model (is_empty hops) w).1 end
          → P (hop ∷ hops) w end)
      → (hops : List ResolvedDeployment) (last : Option (Response x o)) (w : World x)
      → P hops w (failover_loop x o c hops last w)
  unfolding failover_loop
  failover_loop-induction c P used answered failed [] none w =
      used w (gateway_text 502 "upstream request failed")
  failover_loop-induction c P used answered failed [] (some last) w = used w last
  failover_loop-induction c P used answered failed (hop ∷ hops) last w =
      let a = attempt_provider x o c hop.provider hop.upstream_model (is_empty hops) w in
      elim (ProviderAttempt-cases x o a.0) [
        | inl (response, e) ↦ rw (failover_loop, e) (answered hop hops w response e)
        | inr (response, e) ↦
            rw (failover_loop, e)
              (failed hop hops w response _ e
                (failover_loop-induction c P used answered failed hops (some response) a.1))
      ]

  more : (sends : ℕ) (hops : List ResolvedDeployment) → sends ≤ suc (length hops) * sends
  more sends hops = omega arith

  first :
      (c : ProxyContext x o) (hop : ResolvedDeployment) (hops : List ResolvedDeployment)
      (w : World x)
      → c.state.retry_policy.max_delay_ms ≤ 2 ^ 53
      → Effects x
          (IsForOne c (hop ∷ hops))
          c.state.retry_policy.max_attempts
          c.state.retry_policy.max_delay_ms
          w
          (attempt_provider x o c hop.provider hop.upstream_model (is_empty hops) w).1
  first c hop hops w small =
      Effects-good x (IsRequestTo x o c hop.provider hop.upstream_model)
        c.state.retry_policy.max_delay_ms (IsForOne c (hop ∷ hops))
        c.state.retry_policy.max_attempts w _ (λ q. inl)
        (attempt_provider-Effects x o c hop.provider hop.upstream_model (is_empty hops) w small)

  failover_loop-Effects :
      (c : ProxyContext x o) (hops : List ResolvedDeployment) (last : Option (Response x o))
      (w : World x)
      → c.state.retry_policy.max_delay_ms ≤ 2 ^ 53
      → Effects x
          (IsForOne c hops)
          (length hops * c.state.retry_policy.max_attempts)
          c.state.retry_policy.max_delay_ms
          w
          (failover_loop x o c hops last w).1
  failover_loop-Effects c hops last w small =
      let sends = c.state.retry_policy.max_attempts in
      let delay = c.state.retry_policy.max_delay_ms in
      failover_loop-induction c
        (λ hops w end. Effects x (IsForOne c hops) (length hops * sends) delay w end.1)
        (λ w last.
          Effects-more x (IsForOne c []) delay 0 (0 * sends) w w (omega arith)
            (Effects-quiet x (IsForOne c []) delay w w refl refl))
        (λ hop hops w response e.
          Effects-more x (IsForOne c (hop ∷ hops)) delay sends (suc (length hops) * sends) w _
            (more sends hops) (first c hop hops w small))
        (λ hop hops w response end e rest.
          Effects-more x (IsForOne c (hop ∷ hops)) delay (sends + length hops * sends)
            (suc (length hops) * sends) w _ (omega arith)
            (Effects-then x (IsForOne c (hop ∷ hops)) delay sends (length hops * sends) w _ end.1
              (first c hop hops w small)
              (Effects-good x (IsForOne c hops) delay (IsForOne c (hop ∷ hops))
                (length hops * sends) _ end.1 (λ q. inr) rest)))
        hops last w

  -- A request ends in one of two ways. Either the gateway refuses it itself, with a status of 400 to
  -- 404, and nothing is sent, waited for, recorded or charged; or it has a valid key, credit left
  -- and a model with a chain of deployments, and then at most `max_attempts` requests for each
  -- deployment of the chain are sent, each made for one of them, and no wait exceeds the maximal
  -- delay, for a maximal delay up to 2^53 ms.
  pub proxy-bounded :
      (hash : String → Digest) (show : x.decimal.Decimal → String) (s : GatewayState x.decimal)
      (r : Request x o) (w : World x) (response : Response x o) (w' : World x)
      → s.retry_policy.max_delay_ms ≤ 2 ^ 53
      → proxy x o hash show s r w ≡ some (response, w')
      → ((is_refusal x o (status_of x o response) ≡ true) × (w' ≡ w))
        ⊎ ((a : Admitted x o hash s r w) × Effects x
              (IsForOne (context_of x o hash s r w a) a.hops)
              (length a.hops * s.retry_policy.max_attempts)
              s.retry_policy.max_delay_ms
              w
              w')
  proxy-bounded hash show s r w response w' small e =
      proxy-cases x o
        (λ p.
          ((is_refusal x o (status_of x o p.0) ≡ true) × (p.1 ≡ w))
          ⊎ ((a : Admitted x o hash s r w) × Effects x
                (IsForOne (context_of x o hash s r w a) a.hops)
                (length a.hops * s.retry_policy.max_attempts) s.retry_policy.max_delay_ms w p.1))
        w (λ refusal status. inl (status, refl)) hash show s r
        (λ a. inr (a, failover_loop-Effects (context_of x o hash s r w a) a.hops none w small))
        (response, w') e
