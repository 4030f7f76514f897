-- ===== src/Proxy/Failover.antt =====
-- A client's request, from its key to the answer of the chain (`proxy` and `protocol_error` in
-- src/proxy/router.rs).
pub mod Bounds
pub mod Refused
pub mod Books
use Prim.Native.String.{◌++◌ as append}
use lite_agentify.Prelude.{
  ℕ, String, Bool, Option, none, some, List, [], ◌∷◌, is_empty, unwrap_or, if◌then◌else◌, Result,
  ok, err,
}
use lite_agentify.Model.{protocol_text, Protocol, open_ai, anthropic, protocol_of}
use lite_agentify.Account.{KeyIdentity, Digest}
use lite_agentify.State.{
  GatewayState, Resolution, chain, unknown_model, forbidden, wrong_protocol, ResolvedDeployment,
  authorize, resolve, QuotaDecision, allowed, user_exhausted, key_cap_reached, check_quota,
}
use lite_agentify.Json.{Bytes}
use lite_agentify.Proxy.Headers.{HeaderMap, header_text}
use lite_agentify.Proxy.Request.{RequestPayload, parse_payload}
use lite_agentify.Proxy.Record.{
  Crates, World, Outside, Body, Response, gateway_text, gateway_json, to_bytes,
}
use lite_agentify.Proxy.Attempt.{ProviderAttempt, forward, failover, ProxyContext, attempt_provider}

-- `join(", ")`.
unfoldable pub join_protocols : List Protocol → String
join_protocols [] = ""
join_protocols (p ∷ []) = protocol_text p
join_protocols (p ∷ (q ∷ ps)) = append (append (protocol_text p) ", ") (join_protocols (q ∷ ps))

unfoldable pub families : List Protocol → String
unfolding join_protocols
families available = if is_empty available then "no protocol" else join_protocols available

abbrev quoted : String → String → String → String
quoted before model after = append before (append model after)

module _ (x : Crates) (o : Outside x) where
  -- The request as axum gives it; the body may break off.
  pub record Request : Type 0 where
    pub method : String
    pub path : String
    pub query : Option String
    pub headers : HeaderMap x.header
    pub body : Body x o

  unfoldable pub protocol_error : Protocol → ℕ → String → String → Response x o
  protocol_error open_ai status kind message = gateway_json status (
      x.json.object (
        (
          "error",
          x.json.object (
              ("message", x.json.string_value message)
              ∷ ("type", x.json.string_value "invalid_request_error")
              ∷ ("code", x.json.string_value kind)
              ∷ []),
        )
        ∷ []))
  protocol_error anthropic status kind message = gateway_json status (
      x.json.object (
        ("type", x.json.string_value "error")
        ∷ (
          "error",
          x.json.object
              (("type", x.json.string_value kind) ∷ ("message", x.json.string_value message) ∷ []),
        )
        ∷ []))

  -- The `for` loop over the chain, with the last failure so far; the last deployment is told so.
  unfoldable pub failover_loop :
      ProxyContext x o
      → List ResolvedDeployment
      → Option (Response x o)
      → World x
      → Response x o × World x
  failover_loop c [] last_error w =
      (unwrap_or last_error (gateway_text 502 "upstream request failed"), w)
  failover_loop c (hop ∷ hops) last_error w =
      let (attempted, w') =
        attempt_provider x o c hop.provider hop.upstream_model (is_empty hops) w in
      elim attempted [
        | forward response ↦ (response, w')
        | failover response ↦ failover_loop c hops (some response) w'
      ]

  -- The `match` on the resolution.
  unfoldable pub follow_resolution :
      ProxyContext x o → Protocol → String → Resolution → World x → Response x o × World x
  unfolding protocol_error failover_loop families
  follow_resolution c protocol model (chain hops) w = failover_loop c hops none w
  follow_resolution c protocol model unknown_model w = (
    protocol_error protocol 404 "not_found_error"
        (quoted "model '" model "' does not exist or is not available"),
    w,
  )
  follow_resolution c protocol model forbidden w = (
    protocol_error protocol 403 "permission_error"
        (quoted "this API key is not allowed to call model '" model "'"),
    w,
  )
  follow_resolution c protocol model (wrong_protocol available) w = (
    protocol_error protocol 404 "not_found_error" (
        quoted "model '" model (
          append
            (quoted "' is not available on this endpoint (protocol " (protocol_text protocol)
              "); it is served via: ")
            (families available))),
    w,
  )

  -- The handler behind the quota gate, with the body read.
  unfoldable pub serve_body :
      GatewayState x.decimal
      → Request
      → String
      → Protocol
      → KeyIdentity x.decimal
      → Bytes
      → World x
      → Response x o × World x
  unfolding follow_resolution protocol_error
  serve_body s r request_id protocol identity body w =
      let payload = parse_payload x.json body in
      elim payload.model [
        | none ↦ (
          protocol_error protocol 400 "invalid_request_error"
              "the request body must include a string `model` field",
          w,
        )
        | some model ↦
            follow_resolution
              (record {
                state = s;
                request_id = request_id;
                path = r.path;
                query = r.query;
                method = r.method;
                original_headers = r.headers;
                body = body;
                payload = payload;
                identity = identity;
              })
              protocol model (resolve x.decimal s protocol model identity) w
      ]

  unfoldable pub serve :
      GatewayState x.decimal
      → Request
      → String
      → Protocol
      → KeyIdentity x.decimal
      → World x
      → Response x o × World x
  unfolding serve_body
  serve s r request_id protocol identity w = elim (to_bytes x o r.body) [
    | none ↦ (gateway_text 400 "failed to read request body", w)
    | some body ↦ serve_body s r request_id protocol identity body w
  ]

  -- The quota gate; `show` is the `Display` of a decimal.
  unfoldable pub gate_quota :
      (show : x.decimal.Decimal → String)
      → GatewayState x.decimal
      → Request
      → String
      → Protocol
      → KeyIdentity x.decimal
      → World x
      → Response x o × World x
  unfolding protocol_error serve
  gate_quota show s r request_id protocol identity w =
      elim (check_quota x.decimal s w.spend_counter identity) [
        | allowed ↦ serve s r request_id protocol identity w
        | user_exhausted granted ↦ (
          protocol_error protocol 402 "insufficient_quota" (
              quoted "credit balance exhausted (granted " (show granted)
                " USD); ask an administrator to grant more credit"),
          w,
        )
        | key_cap_reached cap ↦ (
          protocol_error protocol 402 "insufficient_quota" (
              quoted "this API key reached its spend cap (" (show cap)
                " USD); raise or remove the cap to continue"),
          w,
        )
      ]

  -- `request_id` of the client, or a new one.
  abbrev pub request_id : HeaderMap x.header → World x → String
  request_id headers w = unwrap_or (header_text x.header headers "x-request-id") (o.new_id w)

  -- `proxy`, on the snapshot that `load` returned; none where `expect` panics, on a path that is
  -- no model endpoint.
  unfoldable pub proxy :
      (hash : String → Digest)
      → (show : x.decimal.Decimal → String) → GatewayState x.decimal
      → Request
      → World x
      → Option (Response x o × World x)
  unfolding gate_quota
  proxy hash show s r w = elim (protocol_of r.path) [
    | none ↦ none
    | some protocol ↦ some (elim (authorize x.decimal hash s (header_text x.header r.headers)) [
      | none ↦ (gateway_text 401 "missing or invalid API key", w)
      | some identity ↦ gate_quota show s r (request_id r.headers w) protocol identity w
    ])
  ]
