-- ===== src/State.antt =====
-- The snapshot that serves the requests, and what it decides (src/state.rs).
pub mod Valid
mod Resolve
mod Listing
mod Credit
pub mod Authorize
pub mod Presented
mod Tests
use lite_agentify.Prelude.{
  ℕ, String, Bool, not, ◌||◌, Option, none, some, List, [], ◌∷◌, ◌++◌, any, find_map, is_empty,
  unwrap_or, ◌==◌, nat_eq, string_eq, bytes_eq, if◌then◌else◌, Result, ok, err, ◌>>=◌,
}
use lite_agentify.Prelude.Map.{Map, get}
use lite_agentify.Prelude.Text.{strip_prefix}
use lite_agentify.Model.{Protocol, protocol_eq, Uuid, Provider, Deployment, ModelEntry, RetryPolicy}
use lite_agentify.Config.{RetryConfig}
use lite_agentify.Decimal.{DecimalOps}
use lite_agentify.Pricing.{PricingError, PricingMap, pricing_map}
use lite_agentify.Catalog.{CatalogSnapshot}
use lite_agentify.Account.{KeyIdentity, ApiKeyMap, may_call, Digest}
use lite_agentify.Quota.{MemoryCounter, get_spend, user, key, scope_eq}
use lite_agentify.Build.{
  BuildError, UriParser, ProviderMap, ModelMap, build_providers, build_model_map, build_retry,
}

-- One resolved hop: the provider and the name that the request body is rewritten to.
pub record ResolvedDeployment : Type 0 where
  pub provider : Provider
  pub upstream_model : String

pub data Resolution : Type 0 where
  chain : List ResolvedDeployment → Resolution
  unknown_model forbidden : Resolution
  wrong_protocol : List Protocol → Resolution

-- What `headers.get(name)` and `to_str` give for a header name.
abbrev pub HeaderText : Type 0
HeaderText = String → Option String

abbrev pub present : Option String → List String
present none = []
present (some value) = value ∷ []

-- The two candidates of an `Authorization` header: without the one or the other spelling of the
-- scheme.
abbrev pub bearer_candidates : Option String → List String
bearer_candidates none = []
bearer_candidates (some value) =
    unwrap_or (strip_prefix "Bearer " value) value
    ∷ unwrap_or (strip_prefix "bearer " value) value
    ∷ []

-- The header texts that may hold a key, in the order in which they are tried.
unfoldable pub gateway_key_candidates : HeaderText → List String
gateway_key_candidates headers =
    bearer_candidates (headers "authorization")
    ++ (present (headers "x-api-key") ++ present (headers "api-key"))

abbrev pub hop_of : Provider → Deployment → ResolvedDeployment
hop_of provider c = record { provider = provider; upstream_model = c.upstream_model }

-- The loop body of `resolve` at a known provider: the hop is pushed where the protocols agree, and
-- otherwise the provider's protocol, once.
abbrev pub push_hop :
    Protocol → Provider → Deployment → List ResolvedDeployment → List ResolvedDeployment
push_hop protocol provider c hops =
    if provider.protocol == protocol then hops ++ (hop_of provider c ∷ []) else hops

abbrev pub push_protocol : Protocol → Provider → List Protocol → List Protocol
push_protocol protocol provider available =
    if provider.protocol == protocol || any (λ p. p == provider.protocol) available
    then available
    else available ++ (provider.protocol ∷ [])

-- The loop of `resolve` over the deployments, with the two lists that it fills; a deployment with
-- an unknown provider is skipped.
unfoldable pub walk_deployments :
    ProviderMap
    → Protocol
    → List Deployment
    → List ResolvedDeployment
    → List Protocol
    → List ResolvedDeployment × List Protocol
walk_deployments providers protocol [] hops available = (hops, available)
walk_deployments providers protocol (c ∷ cs) hops available = elim (get c.provider_id providers) [
  | none ↦ walk_deployments providers protocol cs hops available
  | some provider ↦
      walk_deployments providers protocol cs (push_hop protocol provider c hops)
        (push_protocol protocol provider available)
]

-- An `Arc` to a part of the process that outlives a snapshot.
abbrev pub Arc : Type 0
Arc = ℕ

module _ (d : DecimalOps) where
  open d use {Decimal, zero_decimal, ge}

  pub record GatewayState : Type 0 where
    pub api_keys : ApiKeyMap d
    pub providers : ProviderMap
    pub models : ModelMap
    pub granted : Map Uuid Decimal
    pub spend_counter : Arc
    pub upstream : Arc
    pub usage_recorder : Arc
    pub pricing : PricingMap d
    pub retry_policy : RetryPolicy

  -- Each step fails with an error of its own kind.
  abbrev pub lift_pricing {ℓ} : {A : Type ℓ} → Result PricingError A → Result BuildError A
  lift_pricing (ok a) = ok a
  lift_pricing (err e) = err (BuildError.pricing e)

  -- `from_parts` of a release build: no keys and no grants yet, and a fresh spend counter.
  unfoldable pub from_parts :
      UriParser
      → RetryConfig
      → CatalogSnapshot d
      → (upstream usage_recorder fresh_counter : Arc) → Result BuildError GatewayState
  from_parts parse_uri retry catalog upstream usage_recorder fresh_counter = do
    pricing ← lift_pricing (pricing_map d catalog.pricing)
    providers ← build_providers parse_uri catalog.providers []
    models ← build_model_map catalog.models providers
    retry_policy ← build_retry retry
    ok (record {
      api_keys = [];
      providers = providers;
      models = models;
      granted = [];
      spend_counter = fresh_counter;
      upstream = upstream;
      usage_recorder = usage_recorder;
      pricing = pricing;
      retry_policy = retry_policy;
    })

  unfoldable pub with_api_keys : ApiKeyMap d → GatewayState → GatewayState
  with_api_keys api_keys s = record s { api_keys = api_keys }

  unfoldable pub with_granted : Map Uuid Decimal → GatewayState → GatewayState
  with_granted granted s = record s { granted = granted }

  unfoldable pub with_spend_counter : Arc → GatewayState → GatewayState
  with_spend_counter spend_counter s = record s { spend_counter = spend_counter }

  -- `hash` is `hash_api_key`, the SHA-256 digest of a text.
  unfoldable pub authorize :
      (hash : String → Digest) → GatewayState → HeaderText → Option (KeyIdentity d)
  authorize hash s headers =
      find_map (λ candidate. get (hash candidate) s.api_keys) (gateway_key_candidates headers)

  unfoldable pub resolve : GatewayState → Protocol → String → KeyIdentity d → Resolution
  resolve s protocol model identity = elim (get model s.models) [
    | none ↦ unknown_model
    | some entry ↦
        if not entry.enabled
        then unknown_model
        else if not (may_call d identity model)
        then forbidden
        else let (hops, available) =
            walk_deployments s.providers protocol entry.deployments [] [] in
          if is_empty hops then wrong_protocol available else chain hops
  ]

  pub data QuotaDecision : Type 0 where
    allowed : QuotaDecision
    user_exhausted : Decimal → QuotaDecision
    key_cap_reached : Decimal → QuotaDecision

  -- `counter` is what the spend counter of the snapshot holds.
  unfoldable pub check_quota : GatewayState → MemoryCounter d → KeyIdentity d → QuotaDecision
  check_quota s counter identity =
      let granted = unwrap_or (get identity.user_id s.granted) zero_decimal in
      if ge (get_spend d (user identity.user_id) counter) granted
      then user_exhausted granted
      else elim identity.spend_cap_usd [
        | none ↦ allowed
        | some cap ↦
            if ge (get_spend d (key identity.api_key_id) counter) cap
            then key_cap_reached cap
            else allowed
      ]
