-- ===== src/Proxy/Failover/Refused.antt =====
-- Which requests get to a provider, `proxy` in src/proxy/router.rs.
use lite_agentify.Prelude.{
  arith, ℕ, String, Bool, true, ◌≡◌, refl, none, some, List, any, ◌∷◌, [], ◌==◌, nat_eq,
  Option-cases, inl, inr, subst,
}
use lite_agentify.Model.{Protocol, open_ai, anthropic, protocol_of}
use lite_agentify.Account.{KeyIdentity, Digest}
use lite_agentify.State.{
  GatewayState, Resolution, chain, unknown_model, forbidden, wrong_protocol, ResolvedDeployment,
  authorize, resolve, QuotaDecision, allowed, user_exhausted, key_cap_reached, check_quota,
}
use lite_agentify.Json.{Bytes}
use lite_agentify.Proxy.Headers.{header_text}
use lite_agentify.Proxy.Request.{parse_payload}
use lite_agentify.Proxy.Record.{
  Crates, World, Outside, Response, gateway_text, gateway_json, whole, observed, to_bytes,
}
use lite_agentify.Proxy.Attempt.{ProxyContext}
use lite_agentify.Proxy.Failover.{
  Request, protocol_error, failover_loop, follow_resolution, serve_body, serve, gate_quota,
  request_id, proxy,
}

module _ (x : Crates) (o : Outside x) where
  abbrev pub status_of : Response x o → ℕ
  status_of (gateway_text status text) = status
  status_of (gateway_json status value) = status
  status_of (whole status headers body) = status
  status_of (observed status headers m body) = status

  -- The statuses of the gateway's own refusals.
  abbrev pub is_refusal : ℕ → Bool
  is_refusal status = any (λ s. s == status) (400 ∷ 401 ∷ 402 ∷ 403 ∷ 404 ∷ [])

  -- A request that may reach a provider: it has a valid key, credit, a body that was read, a model,
  -- and a chain of deployments for that model.
  pub record Admitted (hash : String → Digest) (s : GatewayState x.decimal) (r : Request x o)
      (w : World x) : Type 0 where
    pub protocol : Protocol
    pub identity : KeyIdentity x.decimal
    pub body : Bytes
    pub model : String
    pub hops : List ResolvedDeployment
    pub endpoint : protocol_of r.path ≡ some protocol
    pub authorized : authorize x.decimal hash s (header_text x.header r.headers) ≡ some identity
    pub in_credit : check_quota x.decimal s w.spend_counter identity ≡ allowed
    pub read : to_bytes x o r.body ≡ some body
    pub named : (parse_payload x.json body).model ≡ some model
    pub resolved : resolve x.decimal s protocol model identity ≡ chain hops

  abbrev pub context_of :
      (hash : String → Digest) (s : GatewayState x.decimal) (r : Request x o) (w : World x)
      → Admitted hash s r w
      → ProxyContext x o
  context_of hash s r w a = record {
    state = s;
    request_id = request_id x o r.headers w;
    path = r.path;
    query = r.query;
    method = r.method;
    original_headers = r.headers;
    body = a.body;
    payload = parse_payload x.json a.body;
    identity = a.identity;
  }

  protocol_error-status :
      (protocol : Protocol) (status : ℕ) (kind message : String)
      → status_of (protocol_error x o protocol status kind message) ≡ status
  unfolding protocol_error
  protocol_error-status open_ai status kind message = refl
  protocol_error-status anthropic status kind message = refl

  module _ (P : Response x o × World x → Type 0) (w : World x)
      (refused : (response : Response x o)
        → is_refusal (status_of response) ≡ true
        → P (response, w)) where
    refuse :
        (protocol : Protocol) (status : ℕ) (kind message : String)
        → is_refusal status ≡ true
        → P (protocol_error x o protocol status kind message, w)
    refuse protocol status kind message h =
        refused _ (rw (protocol_error-status protocol status kind message) h)

    follow-cases :
        (c : ProxyContext x o) (protocol : Protocol) (model : String) (resolution : Resolution)
        → ((hops : List ResolvedDeployment)
            → resolution ≡ chain hops
            → P (failover_loop x o c hops none w))
        → P (follow_resolution x o c protocol model resolution w)
    unfolding follow_resolution
    follow-cases c protocol model (chain hops) served = served hops refl
    follow-cases c protocol model unknown_model served = refuse protocol 404 _ _ refl
    follow-cases c protocol model forbidden served = refuse protocol 403 _ _ refl
    follow-cases c protocol model (wrong_protocol available) served = refuse protocol 404 _ _ refl

    module _ (hash : String → Digest) (show : x.decimal.Decimal → String)
        (s : GatewayState x.decimal) (r : Request x o)
        (served : (a : Admitted hash s r w)
          → P (failover_loop x o (context_of hash s r w a) a.hops none w)) where
      serve-cases :
          (protocol : Protocol) (identity : KeyIdentity x.decimal)
          → protocol_of r.path ≡ some protocol
          → authorize x.decimal hash s (header_text x.header r.headers) ≡ some identity
          → check_quota x.decimal s w.spend_counter identity ≡ allowed
          → P (serve x o s r (request_id x o r.headers w) protocol identity w)
      unfolding serve serve_body
      serve-cases protocol identity endpoint authorized in_credit =
          elim (Option-cases (to_bytes x o r.body)) [
            | inl broken ↦ rw (serve, broken) (refused _ refl)
            | inr (body, read) ↦ elim (Option-cases (parse_payload x.json body).model) [
              | inl unnamed ↦ rw (serve, read, serve_body, unnamed) (refuse protocol 400 _ _ refl)
              | inr (model, named) ↦
                  rw (serve, read, serve_body, named)
                    (follow-cases _ protocol model (resolve x.decimal s protocol model identity)
                      (λ hops resolved. served (record {
                        protocol = protocol;
                        identity = identity;
                        body = body;
                        model = model;
                        hops = hops;
                        endpoint = endpoint;
                        authorized = authorized;
                        in_credit = in_credit;
                        read = read;
                        named = named;
                        resolved = resolved;
                      })))
            ]
          ]

      gate-cases :
          (protocol : Protocol) (identity : KeyIdentity x.decimal)
          → protocol_of r.path ≡ some protocol
          → authorize x.decimal hash s (header_text x.header r.headers) ≡ some identity
          → (decision : QuotaDecision x.decimal)
          → check_quota x.decimal s w.spend_counter identity ≡ decision
          → P (gate_quota x o show s r (request_id x o r.headers w) protocol identity w)
      unfolding gate_quota
      gate-cases protocol identity endpoint authorized allowed e =
          rw (gate_quota, e) (serve-cases protocol identity endpoint authorized e)
      gate-cases protocol identity endpoint authorized (user_exhausted granted) e =
          rw (gate_quota, e) (refuse protocol 402 _ _ refl)
      gate-cases protocol identity endpoint authorized (key_cap_reached cap) e =
          rw (gate_quota, e) (refuse protocol 402 _ _ refl)

      -- A property of all refusals that leave everything as it was, and of the chain of an admitted
      -- request, is one of every answer.
      pub proxy-cases : (p : Response x o × World x) → proxy x o hash show s r w ≡ some p → P p
      unfolding proxy
      proxy-cases p e = elim (Option-cases (protocol_of r.path)) [
        | inl unknown ↦ absurd (ground arith)
        | inr (protocol, endpoint) ↦
            elim (Option-cases (authorize x.decimal hash s (header_text x.header r.headers))) [
              | inl stranger ↦
                  subst P (ground arith)
                    (refused (gateway_text 401 "missing or invalid API key") refl)
              | inr (identity, authorized) ↦
                  subst P (ground arith) (gate-cases protocol identity endpoint authorized _ refl)
            ]
      ]
