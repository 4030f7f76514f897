-- ===== src/State/Valid.antt =====
-- The well-formedness of a snapshot (src/state.rs), and that every way to make one keeps it.
use lite_agentify.Prelude.{◌≡◌, [], ok, arith}
use lite_agentify.Prelude.Map.{get}
use lite_agentify.Config.{RetryConfig}
use lite_agentify.Decimal.{DecimalOps}
use lite_agentify.Pricing.{pricing_map}
use lite_agentify.Catalog.{CatalogSnapshot}
use lite_agentify.Build.{UriParser, build_providers, build_model_map, build_retry}
use lite_agentify.Build.Closed.{
  IsKeyed, IsClosed, IsPolicy, build_providers-IsKeyed, build_model_map-IsClosed,
  build_retry-IsPolicy,
}
use lite_agentify.State.{Arc, GatewayState, from_parts}

module _ (d : DecimalOps) where
  -- Providers stand under their own ids, every deployment's provider is there, and the retry policy
  -- makes at least one attempt, has ordered delays and lists HTTP statuses.
  pub record IsValid (s : GatewayState d) : Type 0 where
    pub keyed : IsKeyed s.providers
    pub closed : IsClosed s.providers s.models
    pub policy : IsPolicy s.retry_policy

  -- The parts of a successful build.
  pub from_parts-parts :
      (parse_uri : UriParser) (retry : RetryConfig) (catalog : CatalogSnapshot d)
      (up rec fresh : Arc) (s : GatewayState d)
      → from_parts d parse_uri retry catalog up rec fresh ≡ ok s
      → (pricing_map d catalog.pricing ≡ ok s.pricing)
        × (build_providers parse_uri catalog.providers [] ≡ ok s.providers)
        × (build_model_map catalog.models s.providers ≡ ok s.models)
        × (build_retry retry ≡ ok s.retry_policy)
        × (s.upstream ≡ up)
        × (s.usage_recorder ≡ rec)
  unfolding from_parts
  from_parts-parts parse_uri retry catalog up rec fresh s h =
      (ground arith, ground arith, ground arith, ground arith, ground arith, ground arith)

  -- A snapshot that `from_parts` builds is well formed.
  pub from_parts-IsValid :
      (parse_uri : UriParser) (retry : RetryConfig) (catalog : CatalogSnapshot d)
      (up rec fresh : Arc) (s : GatewayState d)
      → from_parts d parse_uri retry catalog up rec fresh ≡ ok s
      → IsValid s
  unfolding get
  from_parts-IsValid parse_uri retry catalog up rec fresh s h =
      let (priced, provided, modelled, retried, client, recorder) =
        from_parts-parts parse_uri retry catalog up rec fresh s h in
      record {
        keyed =
            build_providers-IsKeyed parse_uri catalog.providers [] s.providers
              (λ id p g. absurd (cc g)) provided;
        closed = build_model_map-IsClosed catalog.models s.providers s.models modelled;
        policy = build_retry-IsPolicy retry s.retry_policy retried;
      }
